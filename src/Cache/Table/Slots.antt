-- ===== src/Cache/Table/Slots.antt =====
-- leveldb/cache.cc: the array of buckets of `handle_table`.
use simple_leveldb.Base.{
  ℕ, zero, suc, ◌+◌, ◌-◌, ◌<◌, ◌≤◌, bit_and, ◌≡◌, refl, subst, arith, none, List, [], ◌∷◌, Bytes,
  All, length, length-set, get_or, set, replicate, if◌then◌else◌, ◌==◌, ◌≢◌, Bool-cases, inl, inr,
}
use simple_leveldb.Base.Bits.{bit_and-le}
use simple_leveldb.Cache.{Handle, differs, differs_iff}
use simple_leveldb.Cache.Table.{Table, index, chain, find_in}
use simple_leveldb.Cache.Table.Chains.{Distinct}

-- From bucket `i` on, the handles stand in the buckets of their hashes, each key once.
abbrev pub Sound : ℕ → ℕ → List (List Handle) → Type 0
Sound m i [] = Unit
Sound m i (c ∷ list) = All (λ h. bit_and h.hash (m - 1) ≡ i) c × Distinct c × Sound m (suc i) list

abbrev pub size : List (List Handle) → ℕ
size [] = 0
size (c ∷ list) = length c + size list

pub Sound-get :
    (m i j : ℕ) (list : List (List Handle))
    → Sound m i list
    → All (λ h. bit_and h.hash (m - 1) ≡ i + j) (get_or list j []) × Distinct (get_or list j [])
Sound-get m i j [] s = (tt, tt)
Sound-get m i zero (c ∷ list) s =
    let e : i ≡ i + 0 = omega arith in
    (subst (λ (t : ℕ). All (λ h. bit_and h.hash (m - 1) ≡ t) c) e s.0, s.1)
Sound-get m i (suc j) (c ∷ list) s =
    let e : suc i + j ≡ i + suc j = omega arith in
    let later = Sound-get m (suc i) j list s.2 in
    (subst (λ (t : ℕ). All (λ h. bit_and h.hash (m - 1) ≡ t) (get_or list j [])) e later.0, later.1)

pub Sound-set :
    (m i j : ℕ) (list : List (List Handle)) (c : List Handle)
    → Sound m i list
    → All (λ h. bit_and h.hash (m - 1) ≡ i + j) c
    → Distinct c
    → Sound m i (set list j c)
Sound-set m i j [] c s a d = tt
Sound-set m i zero (b ∷ list) c s a d =
    let e : i + 0 ≡ i = omega arith in
    (subst (λ (t : ℕ). All (λ h. bit_and h.hash (m - 1) ≡ t) c) e a, d, s.2)
Sound-set m i (suc j) (b ∷ list) c s a d =
    let e : i + suc j ≡ suc i + j = omega arith in
    (
      s.0,
      s.1,
      Sound-set m (suc i) j list c s.2
          (subst (λ (t : ℕ). All (λ h. bit_and h.hash (m - 1) ≡ t) c) e a) d,
    )

pub size-set :
    (list : List (List Handle)) (j : ℕ) (c : List Handle)
    → j < length list
    → size (set list j c) + length (get_or list j []) ≡ size list + length c
size-set [] j c h = absurd (omega arith)
size-set (b ∷ list) zero c h = omega arith
size-set (b ∷ list) (suc j) c h = omega (arith, size-set list j c (omega arith))

pub get_or-set {ℓ} :
    {A : Type ℓ} (xs : List A) (j l : ℕ) (v d : A)
    → j < length xs
    → get_or (set xs j v) l d ≡ (if l == j then v else get_or xs l d)
get_or-set [] j l v d h = absurd (omega arith)
get_or-set (x ∷ xs) zero zero v d h = refl
get_or-set (x ∷ xs) zero (suc l) v d h = ground arith
get_or-set (x ∷ xs) (suc j) zero v d h = ground arith
get_or-set (x ∷ xs) (suc j) (suc l) v d h = ground (arith, get_or-set xs j l v d)

pub index-lt : (list : List (List Handle)) (n : ℕ) → 0 < length list → index list n < length list
index-lt list n h = omega (arith, bit_and-le n (length list - 1))

-- The chains after one of them is written.
pub chain-set :
    (list : List (List Handle)) (n hash : ℕ) (c : List Handle)
    → 0 < length list
    → chain (set list (index list hash) c) n
      ≡ (if index list n == index list hash then c else chain list n)
chain-set list n hash c h =
    rw (length-set list (index list hash) c)
      (get_or-set list (index list hash) (index list n) c [] (index-lt list hash h))

-- A chain has the handles of its bucket alone.
pub find_in_misplaced :
    (m i : ℕ) (k : Bytes) (n : ℕ) (c : List Handle)
    → All (λ h. bit_and h.hash (m - 1) ≡ i) c
    → bit_and n (m - 1) ≢ i
    → find_in k n c ≡ none
unfolding find_in
find_in_misplaced m i k n [] a h = refl
find_in_misplaced m i k n (d ∷ c) a h = elim (Bool-cases (differs k n d)) [
  | inl other ↦ rw other (find_in_misplaced m i k n c a.1 h)
  | inr found ↦
      let e : d.hash ≡ n = ((differs_iff k n d).0 found).0 in
      absurd (h (subst (λ (t : ℕ). bit_and t (m - 1) ≡ i) e a.0))
]

-- The handles are in the buckets of their hashes, and the count is theirs.
pub record IsFilled (t : Table) : Type 0 where
  pub buckets : 0 < length t.list
  pub placed : Sound (length t.list) 0 t.list
  pub counted : t.elems ≡ size t.list

-- And there are no fewer buckets than handles.
pub record IsValid (t : Table) : Type 0 where
  pub buckets : 0 < length t.list
  pub placed : Sound (length t.list) 0 t.list
  pub counted : t.elems ≡ size t.list
  pub roomy : t.elems ≤ length t.list

pub Sound-empty : (m i n : ℕ) → Sound m i (replicate n [])
Sound-empty m i zero = tt
Sound-empty m i (suc n) = (tt, tt, Sound-empty m (suc i) n)

pub size-empty : (n : ℕ) → size (replicate n []) ≡ 0
size-empty zero = refl
size-empty (suc n) = omega (arith, size-empty n)

pub chain-empty : (n j : ℕ) → get_or {A = List Handle} (replicate n []) j [] ≡ []
chain-empty zero j = refl
chain-empty (suc n) zero = refl
chain-empty (suc n) (suc j) = chain-empty n j
