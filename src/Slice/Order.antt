-- ===== src/Slice/Order.antt =====
-- slice.h: the order of `compare`.
use simple_leveldb.Base.{
  ℕ, arith, Bool, true, false, not, ◌&&◌, ◌||◌, ltb, if◌then◌else◌, [], ◌∷◌, Bytes, ◌≡◌, refl, ◌↔◌,
}
use simple_leveldb.Slice.{Sign, less, same, greater, compare}

-- The textbook definition.
unfoldable pub lexicographic : Bytes → Bytes → Sign
lexicographic [] [] = same
lexicographic [] (y ∷ b) = less
lexicographic (x ∷ a) [] = greater
lexicographic (x ∷ a) (y ∷ b) =
    if ltb x y then less else if ltb y x then greater else lexicographic a b

compare_cons :
    (x y : ℕ) (a b : Bytes)
    → compare (x ∷ a) (y ∷ b) ≡ (if ltb x y then less else if ltb y x then greater else compare a b)
unfolding compare
compare_cons x y a b = ground arith

-- `compare` is the lexicographic order, with a proper prefix before what it is a prefix of.
pub compare-eq-lexicographic : (a b : Bytes) → compare a b ≡ lexicographic a b
compare-eq-lexicographic [] [] = unfold compare lexicographic in refl
compare-eq-lexicographic [] (y ∷ b) = unfold compare lexicographic in ground arith
compare-eq-lexicographic (x ∷ a) [] = unfold compare lexicographic in ground arith
compare-eq-lexicographic (x ∷ a) (y ∷ b) =
    rw (compare_cons x y a b, compare-eq-lexicographic a b) (unfold lexicographic in refl)

abbrev pub opposite : Sign → Sign
opposite less = greater
opposite same = same
opposite greater = less

pub lexicographic-opposite : (a b : Bytes) → lexicographic b a ≡ opposite (lexicographic a b)
unfolding lexicographic
lexicographic-opposite [] [] = refl
lexicographic-opposite [] (y ∷ b) = refl
lexicographic-opposite (x ∷ a) [] = refl
lexicographic-opposite (x ∷ a) (y ∷ b) = ground (arith, lexicographic-opposite a b)

pub lexicographic-same_iff : (a b : Bytes) → (lexicographic a b ≡ same) ↔ (a ≡ b)
unfolding lexicographic
lexicographic-same_iff [] [] = (λ _. refl, λ _. refl)
lexicographic-same_iff [] (y ∷ b) = ground arith
lexicographic-same_iff (x ∷ a) [] = ground arith
lexicographic-same_iff (x ∷ a) (y ∷ b) = ground (arith, lexicographic-same_iff a b)

pub lexicographic_trans :
    (a b c : Bytes) → lexicographic a b ≡ less → lexicographic b c ≡ less → lexicographic a c ≡ less
unfolding lexicographic
lexicographic_trans [] [] c p q = q
lexicographic_trans [] (y ∷ b) [] p q = cc
lexicographic_trans [] (y ∷ b) (z ∷ c) p q = refl
lexicographic_trans (x ∷ a) [] c p q = ground arith
lexicographic_trans (x ∷ a) (y ∷ b) [] p q = cc
lexicographic_trans (x ∷ a) (y ∷ b) (z ∷ c) p q = ground (arith, lexicographic_trans a b c)

pub compare_opposite : (a b : Bytes) → compare b a ≡ opposite (compare a b)
compare_opposite a b =
    rw (compare-eq-lexicographic b a, compare-eq-lexicographic a b) (lexicographic-opposite a b)

pub compare-same_iff : (a b : Bytes) → (compare a b ≡ same) ↔ (a ≡ b)
compare-same_iff a b = rw (compare-eq-lexicographic a b) (lexicographic-same_iff a b)

pub compare-less_trans :
    (a b c : Bytes) → compare a b ≡ less → compare b c ≡ less → compare a c ≡ less
compare-less_trans a b c p q = rw (compare-eq-lexicographic a c) (
    lexicographic_trans a b c (rw compare-eq-lexicographic at p) (rw compare-eq-lexicographic at q))

abbrev pub is_less : Sign → Bool
is_less less = true
is_less same = false
is_less greater = false

abbrev pub implies : Bool → Bool → Bool
implies a b = not a || b

-- `compare` is a strict total order on slices: the arguments exchanged give the opposite sign,
-- the sign is `same` exactly on equal bytes, and `less` is transitive.
pub compare_total_order :
    (a b c : Bytes)
    → (compare b a ≡ opposite (compare a b))
      × ((compare a b ≡ same) ↔ (a ≡ b))
      × (implies (is_less (compare a b) && is_less (compare b c)) (is_less (compare a c)) ≡ true)
compare_total_order a b c = (compare_opposite a b, compare-same_iff a b, trans)
  where
    trans : implies (is_less (compare a b) && is_less (compare b c)) (is_less (compare a c)) ≡ true
    trans = ground (arith, compare-less_trans a b c)
