-- ===== src/Slice/Prefix.antt =====
-- slice.h: `operator==` and `starts_with`.
use simple_leveldb.Base.{ℕ, arith, true, ◌==◌, [], ◌∷◌, ◌++◌, Bytes, ◌≡◌, refl, ◌↔◌, ◌&&◌}
use simple_leveldb.Slice.{same, memcmp, equal, starts_with}

-- Two slices are equal by `operator==` exactly when they hold the same bytes.
pub equal_iff : (x y : Bytes) → (equal x y ≡ true) ↔ (x ≡ y)
unfolding equal
equal_iff [] [] = ground arith
equal_iff [] (d ∷ y) = ground arith
equal_iff (c ∷ x) [] = ground arith
equal_iff (c ∷ x) (d ∷ y) = ground (arith, equal_iff x y)

memcmp_zero : (a b : Bytes) → memcmp a b 0 ≡ same
unfolding memcmp
memcmp_zero [] b = refl
memcmp_zero (x ∷ a) [] = refl
memcmp_zero (x ∷ a) (y ∷ b) = refl

pub starts_with_cons :
    (c d : ℕ) (s x : Bytes) → starts_with (c ∷ s) (d ∷ x) ≡ (c == d && starts_with s x)
unfolding starts_with
starts_with_cons c d s x = ground arith

pub starts_with→append : (s x : Bytes) → starts_with s x ≡ true → (rest : Bytes) × (s ≡ x ++ rest)
starts_with→append s [] h = (s, refl)
starts_with→append [] (d ∷ x) h = absurd (unfold starts_with in ground arith)
starts_with→append (c ∷ s) (d ∷ x) h =
    let both = rw (starts_with_cons c d s x) at h in
    let (rest, e) = starts_with→append s x (ground arith) in (rest, ground arith)

pub append-starts_with : (x rest : Bytes) → starts_with (x ++ rest) x ≡ true
append-starts_with [] rest = unfold starts_with in ground (arith, memcmp_zero rest [])
append-starts_with (d ∷ x) rest =
    rw (starts_with_cons d d (x ++ rest) x, append-starts_with x rest) (ground arith)

-- `starts_with` holds exactly for the prefixes.
pub starts_with_iff : (s x : Bytes) → (starts_with s x ≡ true) ↔ ((rest : Bytes) × (s ≡ x ++ rest))
starts_with_iff s x = (starts_with→append s x, λ (rest, e). rw e (append-starts_with x rest))
