-- ===== src/Cache/Table/Chains.antt =====
-- leveldb/cache.cc: the chain of a bucket of `handle_table`.
use simple_leveldb.Base.{
  ℕ, ◌+◌, ◌≡◌, ◌↔◌, arith, Bool, true, ◌&&◌, none, some, List, [], ◌∷◌, Bytes, All, length,
  if◌then◌else◌, ◌==◌,
}
use simple_leveldb.Slice
use simple_leveldb.Slice.Prefix.{equal_iff}
use simple_leveldb.Cache.{Handle, differs_iff}
use simple_leveldb.Cache.Table.{find_in, replace_in, remove_in}

-- Two keys with their hashes are the same.
pub is_key : Bytes → ℕ → Bytes → ℕ → Bool
unfolding Slice.equal
is_key key hash k n = hash == n && Slice.equal key k

pub is_key_iff :
    (key : Bytes) (hash : ℕ) (k : Bytes) (n : ℕ)
    → (is_key key hash k n ≡ true) ↔ ((hash ≡ n) × (key ≡ k))
unfolding is_key
is_key_iff key hash k n = ground (arith, equal_iff key k)

-- No two handles have one key and hash.
abbrev pub Distinct : List Handle → Type 0
Distinct [] = Unit
Distinct (h ∷ rest) = (find_in h.key h.hash rest ≡ none) × Distinct rest

pub find_in_key :
    (k : Bytes) (n : ℕ) (c : List Handle) (h : Handle)
    → find_in k n c ≡ some h
    → (h.hash ≡ n) × (h.key ≡ k)
unfolding find_in
find_in_key k n [] h e = absurd (ground arith)
find_in_key k n (d ∷ c) h e = ground (arith, differs_iff k n d, find_in_key k n c h)

pub find_in-replace_in :
    (k : Bytes) (n : ℕ) (h : Handle) (c : List Handle)
    → find_in k n (replace_in h.key h.hash h c)
      ≡ (if is_key h.key h.hash k n then some h else find_in k n c)
unfolding find_in replace_in
find_in-replace_in k n h [] = ground (arith, differs_iff k n h, is_key_iff h.key h.hash k n)
find_in-replace_in k n h (d ∷ c) = ground (
  arith,
  differs_iff k n h,
  differs_iff k n d,
  differs_iff h.key h.hash d,
  is_key_iff h.key h.hash k n,
  find_in-replace_in k n h c,
)

pub find_in-remove_in :
    (k : Bytes) (n : ℕ) (key : Bytes) (hash : ℕ) (c : List Handle)
    → Distinct c
    → find_in k n (remove_in key hash c) ≡ (if is_key key hash k n then none else find_in k n c)
unfolding find_in remove_in
find_in-remove_in k n key hash [] d = ground arith
find_in-remove_in k n key hash (e ∷ c) d = ground (
  arith,
  differs_iff k n e,
  differs_iff key hash e,
  is_key_iff key hash k n,
  find_in-remove_in k n key hash c,
)

pub replace_in-Distinct :
    (h : Handle) (c : List Handle) → Distinct c → Distinct (replace_in h.key h.hash h c)
unfolding find_in replace_in
replace_in-Distinct h [] d = ground arith
replace_in-Distinct h (e ∷ c) d = ground (
  arith,
  differs_iff h.key h.hash e,
  is_key_iff h.key h.hash e.key e.hash,
  find_in-replace_in e.key e.hash h c,
  replace_in-Distinct h c,
)

pub remove_in-Distinct :
    (key : Bytes) (hash : ℕ) (c : List Handle) → Distinct c → Distinct (remove_in key hash c)
unfolding find_in remove_in
remove_in-Distinct key hash [] d = tt
remove_in-Distinct key hash (e ∷ c) d =
    ground (arith, find_in-remove_in e.key e.hash key hash c, remove_in-Distinct key hash c)

module _ (P : Handle → Type 0) where
  pub All-replace_in :
      (key : Bytes) (hash : ℕ) (h : Handle) (c : List Handle)
      → P h
      → All P c
      → All P (replace_in key hash h c)
  unfolding replace_in
  All-replace_in key hash h [] p a = (p, tt)
  All-replace_in key hash h (e ∷ c) p a = ground (arith, All-replace_in key hash h c)

  pub All-remove_in :
      (key : Bytes) (hash : ℕ) (c : List Handle) → All P c → All P (remove_in key hash c)
  unfolding remove_in
  All-remove_in key hash [] a = tt
  All-remove_in key hash (e ∷ c) a = ground (arith, All-remove_in key hash c)

pub length-replace_in :
    (key : Bytes) (hash : ℕ) (h : Handle) (c : List Handle)
    → length (replace_in key hash h c)
      ≡ elim (find_in key hash c) [ none ↦ length c + 1 | some _ ↦ length c ]
unfolding find_in replace_in
length-replace_in key hash h [] = omega arith
length-replace_in key hash h (e ∷ c) = ground (arith, length-replace_in key hash h c)

pub length-remove_in :
    (key : Bytes) (hash : ℕ) (c : List Handle) (h : Handle)
    → find_in key hash c ≡ some h
    → length (remove_in key hash c) + 1 ≡ length c
unfolding find_in remove_in
length-remove_in key hash [] h e = absurd (ground arith)
length-remove_in key hash (d ∷ c) h e = ground (arith, length-remove_in key hash c h)
