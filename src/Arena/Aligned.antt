-- ===== src/Arena/Aligned.antt =====
-- util/arena.cc: the regions that `allocate_aligned` hands out.
use simple_leveldb.Base.{
  ℕ, ◌+◌, ◌-◌, ◌%◌, ◌^◌, ◌≤◌, ◌<◌, ◌≡◌, refl, sym, subst, arith, true, false, leb, leb→le, ◌==◌,
  if◌then◌else◌, bit_and, Bool-cases, u64, List, inl, inr,
}
use simple_leveldb.Base.Bits.{bit_and_mask}
use simple_leveldb.Arena.{
  Region, Arena, New, block_size, pointer_size, allocate_new_block, allocate_fallback,
  allocate_aligned,
}
use simple_leveldb.Arena.Regions.{IsSound}
use simple_leveldb.Arena.Sound.{HandsOut, IsFresh, carve, window_in, allocate_fallback-HandsOut}

module _ (new_char : New) where
  -- `new` gives addresses that a pointer may have.
  abbrev pub IsAligned : Type 0
  IsAligned = (bs : List Region) (n : ℕ) → new_char bs n % pointer_size ≡ 0

  abbrev slop : ℕ → ℕ
  slop p =
      if bit_and p (pointer_size - 1) == 0 then 0 else pointer_size - bit_and p (pointer_size - 1)

  slop_lem : (p : ℕ) → (slop p < 8) × ((p + slop p) % 8 ≡ 0)
  slop_lem p = ground (arith, bit_and_mask 3 p)

  fallback_aligned :
      (a : Arena) (bytes : ℕ)
      → IsAligned
      → (allocate_fallback new_char a bytes).0 % pointer_size ≡ 0
  unfolding allocate_fallback allocate_new_block
  fallback_aligned a bytes aligned =
      ground (arith, aligned a.blocks bytes, aligned a.blocks block_size)

  -- When `new` gives blocks that do not meet, at multiples of 8, `allocate_aligned` of a positive number
  -- of bytes below 2^63 hands out a region at a multiple of 8, inside a block, that meets none of the
  -- regions handed out before, and keeps the arena sound.
  pub allocate_aligned-HandsOut :
      (a : Arena) (regions : List Region) (bytes : ℕ)
      → 0 < bytes
      → bytes < 2 ^ 63
      → IsFresh new_char
      → IsAligned
      → IsSound a regions
      → HandsOut regions bytes (allocate_aligned new_char a bytes)
        × ((allocate_aligned new_char a bytes).0 % pointer_size ≡ 0)
  allocate_aligned-HandsOut a regions bytes some' bound fresh aligned sound =
      let s = slop a.alloc_ptr in
      let lem = slop_lem a.alloc_ptr in
      elim (Bool-cases (leb (u64 (bytes + s)) a.alloc_bytes_remaining)) [
        | inl e ↦ subst Good (sym (fits e)) (from_window (leb→le _ _ e), lem.1)
        | inr e ↦ subst Good (sym (fails e)) (
          allocate_fallback-HandsOut new_char a regions bytes fresh sound,
          fallback_aligned a bytes aligned,
        )
      ]
    where
      Good : ℕ × Arena → Type 0
      Good x = HandsOut regions bytes x × (x.0 % pointer_size ≡ 0)

      needed : ℕ
      needed = u64 (bytes + slop a.alloc_ptr)

      left : Region
      left = (a.alloc_ptr + needed, a.alloc_bytes_remaining - needed)

      fits :
          leb needed a.alloc_bytes_remaining ≡ true
          → allocate_aligned new_char a bytes ≡ (
            a.alloc_ptr + slop a.alloc_ptr,
            record a { alloc_ptr = left.0; alloc_bytes_remaining = left.1 },
          )
      fits e = unfold allocate_aligned in rw e refl

      fails :
          leb needed a.alloc_bytes_remaining ≡ false
          → allocate_aligned new_char a bytes ≡ allocate_fallback new_char a bytes
      fails e = unfold allocate_aligned in rw e refl

      from_window :
          needed ≤ a.alloc_bytes_remaining
          → HandsOut regions bytes (
            a.alloc_ptr + slop a.alloc_ptr,
            record a { alloc_ptr = left.0; alloc_bytes_remaining = left.1 },
          )
      from_window h =
          let lem = slop_lem a.alloc_ptr in
          carve a regions (a.alloc_ptr + slop a.alloc_ptr, bytes) left (ground arith) (ground arith)
            (ground arith) (window_in a regions sound (omega arith)) sound
