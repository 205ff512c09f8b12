-- ===== src/SkipList/Order.antt =====
-- leveldb/__detail/skip_list.h: the order of the keys, and what the links of a list say.
use mathlib.Core.List.{map}
use simple_leveldb.Base.{
  ℕ, ◌≤◌, ◌<◌, ◌≡◌, ◌≢◌, inl, inr, refl, ap, arith, true, false, List, [], ◌∷◌, ◌++◌, All,
  if◌then◌else◌, Bool-cases,
}
use simple_leveldb.Slice.{Sign, less, same, greater}
use simple_leveldb.SkipList.{SkipList, max_levels, head, is_less}
use simple_leveldb.SkipList.Levels.{Heights, at_level, Linked, Apart}

-- What the list relies on of its comparator.
pub record IsOrder {K : Type 0} (compare : K → K → Sign) : Type 0 where
  pub less_trans : (a b c : K) → compare a b ≡ less → compare b c ≡ less → compare a c ≡ less
  pub less_of_greater : (a b : K) → compare a b ≡ greater → compare b a ≡ less
  pub less_same : (a b c : K) → compare a b ≡ less → compare b c ≡ same → compare a c ≡ less
  pub same_self : (a : K) → compare a a ≡ same
  pub same_flip : (a b : K) → compare a b ≡ same → compare b a ≡ same

module _ {K : Type 0} (compare : K → K → Sign) where
  -- A key put before the first one that is not less.
  unfoldable pub insert_key : K → List K → List K
  insert_key k [] = k ∷ []
  insert_key k (y ∷ ys) = if is_less (compare y k) then y ∷ insert_key k ys else k ∷ y ∷ ys

  abbrev pub Sorted : (ℕ → K) → List ℕ → Type 0
  Sorted key [] = Unit
  Sorted key (n ∷ ns) = All (λ m. compare (key n) (key m) ≡ less) ns × Sorted key ns

  -- The links of each level run through the nodes that are tall enough, in the order of the keys.
  pub record Inv (tall : Heights) (order : List ℕ) (s : SkipList K) : Type 0 where
    pub linked : (l : ℕ) → l < max_levels → Linked s.next l head (at_level tall l order)
    pub sorted : Sorted s.key order
    pub apart : Apart (head ∷ order)
    pub heights : All (λ n. (1 ≤ tall n) × (tall n ≤ s.max_height)) order
    pub at_least : 1 ≤ s.max_height
    pub at_most : s.max_height ≤ max_levels

  abbrev pub Below : (ℕ → K) → K → List ℕ → Type 0
  Below key k = All (λ n. is_less (compare (key n) k) ≡ true)

  abbrev pub NotBelow : (ℕ → K) → K → List ℕ → Type 0
  NotBelow key k = All (λ n. is_less (compare (key n) k) ≡ false)

  module _ (ord : IsOrder compare) (key : ℕ → K) (k : K) where
    is_less→less : (r : Sign) → is_less r ≡ true → r ≡ less
    is_less→less r h = ground arith

    NotBelow-later :
        (n : ℕ) (ns : List ℕ)
        → is_less (compare (key n) k) ≡ false
        → All (λ m. compare (key n) (key m) ≡ less) ns
        → NotBelow key k ns
    NotBelow-later n [] h a = tt
    NotBelow-later n (m ∷ ns) h a = (
      elim (Bool-cases (is_less (compare (key m) k))) [
        | inr no' ↦ no'
        | inl below ↦
            let le =
              ord.less_trans (key n) (key m) k a.0 (is_less→less (compare (key m) k) below) in
            absurd (ground arith)
      ],
      NotBelow-later n ns h a.1,
    )

    -- A sorted list is split by a key.
    pub split_order :
        (order : List ℕ)
        → Sorted key order
        → (lo : List ℕ) × (hi : List ℕ) × (order ≡ lo ++ hi) × Below key k lo × NotBelow key k hi
    split_order [] s = ([], [], refl, tt, tt)
    split_order (n ∷ ns) s = elim (Bool-cases (is_less (compare (key n) k))) [
      | inr no' ↦ ([], n ∷ ns, refl, tt, (no', NotBelow-later n ns no' s.0))
      | inl below ↦
          let (lo, hi, e, a, b) = split_order ns s.1 in (n ∷ lo, hi, ap (◌∷◌ n) e, (below, a), b)
    ]

    less_above :
        (n : ℕ)
        → is_less (compare (key n) k) ≡ false
        → compare (key n) k ≢ same
        → compare k (key n) ≡ less
    less_above n h d = ground (arith, ord.less_of_greater (key n) k)

    pub NotBelow-all :
        (hi : List ℕ)
        → NotBelow key k hi
        → All (λ n. compare (key n) k ≢ same) hi
        → All (λ n. compare k (key n) ≡ less) hi
    NotBelow-all [] h d = tt
    NotBelow-all (n ∷ hi) h d = (less_above n h.0 d.0, NotBelow-all hi h.1 d.1)

    pub Below-all : (lo : List ℕ) → Below key k lo → All (λ n. compare (key n) k ≡ less) lo
    Below-all [] h = tt
    Below-all (n ∷ lo) h = (is_less→less (compare (key n) k) h.0, Below-all lo h.1)

    -- The keys with the new one are those that `insert_key` gives.
    pub map-split :
        (lo hi : List ℕ)
        → Below key k lo
        → NotBelow key k hi
        → map key lo ++ k ∷ map key hi ≡ insert_key k (map key (lo ++ hi))
    unfolding insert_key
    map-split [] [] a b = refl
    map-split [] (n ∷ hi) a b = rw (b.0) refl
    map-split (n ∷ lo) hi a b = rw (a.0) (ap (◌∷◌ (key n)) (map-split lo hi a.1 b))
