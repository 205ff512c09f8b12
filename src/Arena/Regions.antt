-- ===== src/Arena/Regions.antt =====
-- util/arena.cc: regions of memory, and how those handed out, the blocks and the window lie.
use simple_leveldb.Base.{◌+◌, ◌≤◌, ◌≡◌, arith, List, [], ◌∷◌, ◌++◌, All, ◌⊎◌, inl, inr}
use simple_leveldb.Arena.{Region, Arena}

abbrev pub Apart : Region → Region → Type 0
Apart (s, n) (t, m) = (s + n ≤ t) ⊎ (t + m ≤ s)

abbrev pub Inside : Region → Region → Type 0
Inside (s, n) (t, m) = (t ≤ s) × (s + n ≤ t + m)

abbrev pub InSome : List Region → Region → Type 0
InSome [] r = ⊥
InSome (b ∷ bs) r = Inside r b ⊎ InSome bs r

-- The part of the last block that is not handed out.
abbrev pub window : Arena → Region
window a = (a.alloc_ptr, a.alloc_bytes_remaining)

-- The `regions` handed out lie in blocks and not in the window, and the window lies in a block unless
-- it is the null pointer.
abbrev pub IsSound : Arena → List Region → Type 0
IsSound a regions =
    All (InSome a.blocks) regions
    × All (Apart (window a)) regions
    × (((a.alloc_ptr ≡ 0) × (a.alloc_bytes_remaining ≡ 0)) ⊎ InSome a.blocks (window a))

-- More blocks keep what is in one.
pub InSome-append : (bs cs : List Region) (r : Region) → InSome bs r → InSome (bs ++ cs) r
InSome-append [] cs r h = absurd h
InSome-append (b ∷ bs) cs r (inl i) = inl i
InSome-append (b ∷ bs) cs r (inr h) = inr (InSome-append bs cs r h)

pub InSome-last : (bs : List Region) (b r : Region) → Inside r b → InSome (bs ++ b ∷ []) r
InSome-last [] b r h = inl h
InSome-last (c ∷ bs) b r h = inr (InSome-last bs b r h)

-- What lies in one of the blocks is apart from what is apart from them all.
pub InSome-Apart : (bs : List Region) (b r : Region) → All (Apart b) bs → InSome bs r → Apart b r
InSome-Apart [] b r h i = absurd i
InSome-Apart (c ∷ bs) b r h (inl i) = ground (arith, h.0)
InSome-Apart (c ∷ bs) b r h (inr i) = InSome-Apart bs b r h.1 i

module _ {P Q : Region → Type 0} (f : (r : Region) → P r → Q r) where
  pub All-map : (rs : List Region) → All P rs → All Q rs
  All-map [] h = tt
  All-map (r ∷ rs) h = (f r h.0, All-map rs h.1)

pub Inside-Apart : (r b q : Region) → Inside r b → Apart b q → Apart r q
Inside-Apart r b q i x = ground arith

pub Inside-InSome : (bs : List Region) (r b : Region) → Inside r b → InSome bs b → InSome bs r
Inside-InSome [] r b i h = absurd h
Inside-InSome (c ∷ bs) r b i (inl h) = inl (omega arith)
Inside-InSome (c ∷ bs) r b i (inr h) = inr (Inside-InSome bs r b i h)

pub Apart-sym : (r q : Region) → Apart r q → Apart q r
Apart-sym r q x = ground arith
