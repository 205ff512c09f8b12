-- ===== src/Arena/Sound.antt =====
-- util/arena.cc: the regions that `allocate` hands out.
use simple_leveldb.Base.{
  ℕ, ◌+◌, ◌-◌, ◌/◌, ◌≤◌, ◌<◌, ◌≡◌, refl, sym, subst, arith, true, false, leb, ltb, Bool-cases, List,
  [], ◌∷◌, ◌++◌, All, ◌⊎◌, inl, inr,
}
use simple_leveldb.Arena.{
  Region, Arena, New, block_size, allocate_new_block, allocate_fallback, allocate,
}
use simple_leveldb.Arena.Regions.{
  Apart, Inside, InSome, window, IsSound, InSome-append, InSome-last, InSome-Apart, Inside-Apart,
  Inside-InSome, Apart-sym, All-map,
}

-- Handing out a region: it does not meet the earlier ones, and the arena stays sound.
abbrev pub HandsOut : List Region → ℕ → ℕ × Arena → Type 0
HandsOut regions bytes (result, a) =
    All (Apart (result, bytes)) regions × IsSound a ((result, bytes) ∷ regions)

-- A part of the window is handed out, and another stays.
pub carve :
    (a : Arena) (regions : List Region) (taken left : Region)
    → Inside taken (window a)
    → Inside left (window a)
    → Apart left taken
    → InSome a.blocks (window a)
    → IsSound a regions
    → HandsOut regions taken.1
        (taken.0, record a { alloc_ptr = left.0; alloc_bytes_remaining = left.1 })
carve a regions taken left taken_in left_in parts in_block (inside, apart, free) = (
  All-map (λ r x. Inside-Apart taken (window a) r taken_in x) regions apart,
  (
    (Inside-InSome a.blocks taken (window a) taken_in in_block, inside),
    (parts, All-map (λ r x. Inside-Apart left (window a) r left_in x) regions apart),
    inr (Inside-InSome a.blocks left (window a) left_in in_block),
  ),
)

-- A window that is not empty lies in a block.
pub window_in :
    (a : Arena) (regions : List Region)
    → IsSound a regions
    → 0 < a.alloc_bytes_remaining
    → InSome a.blocks (window a)
window_in a regions (inside, apart, free) h = elim free [ inl z ↦ absurd (omega arith) | inr i ↦ i ]

module _ (new_char : New) where
  -- A new block does not meet the blocks that there are.
  abbrev pub IsFresh : Type 0
  IsFresh = (bs : List Region) (n : ℕ) → All (Apart (new_char bs n, n)) bs

  fresh_region :
      (a : Arena) (regions : List Region) (n : ℕ)
      → IsFresh
      → IsSound a regions
      → All (Apart (new_char a.blocks n, n)) regions
  fresh_region a regions n fresh (inside, apart, free) =
      All-map (λ r i. InSome-Apart a.blocks (new_char a.blocks n, n) r (fresh a.blocks n) i) regions
        inside

  new_block-HandsOut :
      (a : Arena) (regions : List Region) (n : ℕ)
      → IsFresh
      → IsSound a regions
      → HandsOut regions n (allocate_new_block new_char a n)
  unfolding allocate_new_block
  new_block-HandsOut a regions n fresh sound = (
    fresh_region a regions n fresh sound,
    (
      (
        InSome-last a.blocks block block (ground arith),
        All-map (λ r i. InSome-append a.blocks (block ∷ []) r i) regions sound.0,
      ),
      (window_apart, sound.1),
      free,
    ),
  )
    where
      block : Region
      block = (new_char a.blocks n, n)

      window_apart : Apart (window a) block
      window_apart = elim sound.2 [
        | inl z ↦ ground arith
        | inr i ↦
            Apart-sym block (window a) (InSome-Apart a.blocks block (window a) (fresh a.blocks n) i)
      ]

      free :
          ((a.alloc_ptr ≡ 0) × (a.alloc_bytes_remaining ≡ 0))
          ⊎ InSome (a.blocks ++ block ∷ []) (window a)
      free = elim sound.2 [
        | inl z ↦ inl z
        | inr i ↦ inr (InSome-append a.blocks (block ∷ []) (window a) i)
      ]

  -- An arena with the whole of a new block as its window.
  opened : Arena → Arena
  unfolding allocate_new_block
  opened a = record (allocate_new_block new_char a block_size).1 {
    alloc_ptr = new_char a.blocks block_size;
    alloc_bytes_remaining = block_size;
  }

  opened-IsSound :
      (a : Arena) (regions : List Region) → IsFresh → IsSound a regions → IsSound (opened a) regions
  unfolding opened
  opened-IsSound a regions fresh sound = (
    All-map (λ r i. InSome-append a.blocks (window (opened a) ∷ []) r i) regions sound.0,
    fresh_region a regions block_size fresh sound,
    inr (InSome-last a.blocks (window (opened a)) (window (opened a)) (ground arith)),
  )

  fallback_small :
      (a : Arena) (bytes : ℕ)
      → ltb (block_size / 4) bytes ≡ false
      → allocate_fallback new_char a bytes ≡ (
        new_char a.blocks block_size,
        record (opened a) {
          alloc_ptr = new_char a.blocks block_size + bytes;
          alloc_bytes_remaining = block_size - bytes;
        },
      )
  unfolding allocate_fallback opened
  fallback_small a bytes e = rw e refl

  fallback_big :
      (a : Arena) (bytes : ℕ)
      → ltb (block_size / 4) bytes ≡ true
      → allocate_fallback new_char a bytes ≡ allocate_new_block new_char a bytes
  unfolding allocate_fallback
  fallback_big a bytes e = rw e refl

  pub allocate_fallback-HandsOut :
      (a : Arena) (regions : List Region) (bytes : ℕ)
      → IsFresh
      → IsSound a regions
      → HandsOut regions bytes (allocate_fallback new_char a bytes)
  allocate_fallback-HandsOut a regions bytes fresh sound =
      elim (Bool-cases (ltb (block_size / 4) bytes)) [
        | inl e ↦
            subst (HandsOut regions bytes) (sym (fallback_big a bytes e))
              (new_block-HandsOut a regions bytes fresh sound)
        | inr e ↦
            subst (HandsOut regions bytes) (sym (fallback_small a bytes e)) (small (ground arith))
      ]
    where
      p : ℕ
      p = new_char a.blocks block_size

      small :
          bytes ≤ block_size
          → HandsOut regions bytes (
            p,
            record (opened a) { alloc_ptr = p + bytes; alloc_bytes_remaining = block_size - bytes },
          )
      small h =
          let sound' = opened-IsSound a regions fresh sound in
          unfold opened in
          carve (opened a) regions (p, bytes) (p + bytes, block_size - bytes) (ground arith)
            (ground arith) (ground arith) (window_in (opened a) regions sound' (omega arith)) sound'

  -- When `new` gives blocks that do not meet, `allocate` of a positive number of bytes hands out a
  -- region inside a block that meets none of the regions handed out before, and keeps the arena sound.
  pub allocate-HandsOut :
      (a : Arena) (regions : List Region) (bytes : ℕ)
      → 0 < bytes
      → IsFresh
      → IsSound a regions
      → HandsOut regions bytes (allocate new_char a bytes)
  allocate-HandsOut a regions bytes some' fresh sound =
      elim (Bool-cases (leb bytes a.alloc_bytes_remaining)) [
        | inl e ↦ subst (HandsOut regions bytes) (sym (fits e)) (from_window (ground arith))
        | inr e ↦
            subst (HandsOut regions bytes) (sym (fails e))
              (allocate_fallback-HandsOut a regions bytes fresh sound)
      ]
    where
      left : Region
      left = (a.alloc_ptr + bytes, a.alloc_bytes_remaining - bytes)

      fits :
          leb bytes a.alloc_bytes_remaining ≡ true
          → allocate new_char a bytes
            ≡ (a.alloc_ptr, record a { alloc_ptr = left.0; alloc_bytes_remaining = left.1 })
      fits e = unfold allocate in rw e refl

      fails :
          leb bytes a.alloc_bytes_remaining ≡ false
          → allocate new_char a bytes ≡ allocate_fallback new_char a bytes
      fails e = unfold allocate in rw e refl

      from_window :
          bytes ≤ a.alloc_bytes_remaining
          → HandsOut regions bytes
              (a.alloc_ptr, record a { alloc_ptr = left.0; alloc_bytes_remaining = left.1 })
      from_window h =
          carve a regions (a.alloc_ptr, bytes) left (ground arith) (ground arith) (ground arith)
            (window_in a regions sound (omega arith)) sound
