-- ===== src/Cache/Table/Rehash.antt =====
-- leveldb/cache.cc: `handle_table::resize`.
use simple_leveldb.Base.{
  ℕ, ◌+◌, ◌<◌, ◌≡◌, refl, sym, ap, ◌∙◌, ◌↔◌, subst, arith, Option, none, some, List, [], ◌∷◌, ◌++◌,
  Bytes, All, length, length-set, set, if◌then◌else◌, ◌==◌, Bool-cases, inl, inr, false,
}
use simple_leveldb.Cache.{Handle, differs, differs_iff}
use simple_leveldb.Cache.Table.{index, chain, find_in, rehash, rehash_chain}
use simple_leveldb.Cache.Table.Chains.{Distinct}
use simple_leveldb.Cache.Table.Slots.{
  Sound, size, Sound-get, Sound-set, size-set, chain-set, index-lt,
}

unfoldable pub or_else : Option Handle → Option Handle → Option Handle
or_else none b = b
or_else (some h) b = some h

unfoldable pub flat : List (List Handle) → List Handle
flat [] = []
flat (c ∷ list) = c ++ flat list

rehash_chain-append :
    (a b : List Handle) (new_list : List (List Handle))
    → rehash_chain (a ++ b) new_list ≡ rehash_chain b (rehash_chain a new_list)
unfolding rehash_chain
rehash_chain-append [] b new_list = refl
rehash_chain-append (h ∷ a) b new_list =
    rehash_chain-append a b (set new_list (index new_list h.hash) (h ∷ chain new_list h.hash))

pub rehash-flat :
    (list new_list : List (List Handle)) → rehash list new_list ≡ rehash_chain (flat list) new_list
unfolding rehash rehash_chain flat
rehash-flat [] new_list = refl
rehash-flat (c ∷ list) new_list =
    rehash-flat list (rehash_chain c new_list) ∙ sym (rehash_chain-append c (flat list) new_list)

pub find_in-append :
    (k : Bytes) (n : ℕ) (a b : List Handle)
    → find_in k n (a ++ b) ≡ or_else (find_in k n a) (find_in k n b)
unfolding find_in or_else
find_in-append k n [] b = refl
find_in-append k n (h ∷ a) b = ground (arith, find_in-append k n a b)

-- What one handle that moves adds to what is found.
unfoldable pub found : Bytes → ℕ → List (List Handle) → Option Handle
found k n list = find_in k n (chain list n)

-- The new array, as a handle enters it.
enter : Handle → List (List Handle) → List (List Handle)
enter h list = set list (index list h.hash) (h ∷ chain list h.hash)

found-enter :
    (k : Bytes) (n : ℕ) (h : Handle) (list : List (List Handle))
    → 0 < length list
    → found k n (enter h list) ≡ (if differs k n h then found k n list else some h)
unfolding found enter find_in
found-enter k n h list p = rw (chain-set list n h.hash (h ∷ chain list h.hash) p) (rest n refl)
  where
    rest :
        (m : ℕ)
        → m ≡ n
        → find_in k m
            (if index list m == index list h.hash then h ∷ chain list h.hash else chain list m)
          ≡ (if differs k m h then find_in k m (chain list m) else some h)
    rest m e = ground (arith, differs_iff k m h, ap (λ (t : ℕ). index list t) {x = m} {y = h.hash})

length-enter : (h : Handle) (list : List (List Handle)) → length (enter h list) ≡ length list
unfolding enter
length-enter h list = length-set list (index list h.hash) (h ∷ chain list h.hash)

enter_nonempty :
    (h : Handle) (list : List (List Handle)) → 0 < length list → 0 < length (enter h list)
enter_nonempty h list p = rw (length-enter h list) p

pub length-rehash_chain :
    (c : List Handle) (list : List (List Handle)) → length (rehash_chain c list) ≡ length list
unfolding rehash_chain enter
length-rehash_chain [] list = refl
length-rehash_chain (h ∷ c) list = length-rehash_chain c (enter h list) ∙ length-enter h list

-- The last handle with the key stands first, and `Distinct` says that there is one at most.
pub found-rehash_chain :
    (k : Bytes) (n : ℕ) (c : List Handle) (list : List (List Handle))
    → Distinct c
    → 0 < length list
    → found k n (rehash_chain c list) ≡ or_else (find_in k n c) (found k n list)
unfolding rehash_chain enter or_else find_in
found-rehash_chain k n [] list d p = refl
found-rehash_chain k n (h ∷ c) list d p =
    found-rehash_chain k n c (enter h list) d.1 (enter_nonempty h list p) ∙ step (differs_iff k n h)
  where
    step :
        ((differs k n h ≡ false) ↔ ((h.hash ≡ n) × (h.key ≡ k)))
        → or_else (find_in k n c) (found k n (enter h list))
          ≡ or_else (if differs k n h then find_in k n c else some h) (found k n list)
    step same = elim (Bool-cases (differs k n h)) [
      | inl other ↦ rw (found-enter k n h list p, other) refl
      | inr one ↦
          let hk : find_in k n c ≡ none = ground (arith, d.0, same.0 one) in
          rw (found-enter k n h list p, one, hk) refl
    ]

enter-Sound :
    (h : Handle) (list : List (List Handle))
    → 0 < length list
    → found h.key h.hash list ≡ none
    → Sound (length list) 0 list
    → Sound (length list) 0 (enter h list)
unfolding enter found
enter-Sound h list p new s =
    let (placed, distinct) = Sound-get (length list) 0 (index list h.hash) list s in
    Sound-set (length list) 0 (index list h.hash) list (h ∷ chain list h.hash) s
      (omega arith, placed) (new, distinct)

-- The handles of `c` are new to the array.
abbrev pub New : List Handle → List (List Handle) → Type 0
New c list = All (λ h. found h.key h.hash list ≡ none) c

enter-New :
    (h : Handle) (c : List Handle) (list : List (List Handle))
    → 0 < length list
    → find_in h.key h.hash c ≡ none
    → New c list
    → New c (enter h list)
unfolding find_in
enter-New h [] list p absent new = tt
enter-New h (d ∷ c) list p absent new = elim (Bool-cases (differs d.key d.hash h)) [
  | inl other ↦ (
    rw (found-enter d.key d.hash h list p, other) new.0,
    enter-New h c list p (ground (arith, absent)) new.1,
  )
  | inr same ↦
      let at = (differs_iff d.key d.hash h).0 same in
      let back = (differs_iff h.key h.hash d).1 (sym at.0, sym at.1) in
      absurd (ground (arith, absent, back))
]

pub rehash_chain-Sound :
    (c : List Handle) (list : List (List Handle))
    → Distinct c
    → New c list
    → 0 < length list
    → Sound (length list) 0 list
    → Sound (length list) 0 (rehash_chain c list)
unfolding rehash_chain enter
rehash_chain-Sound [] list d new p s = s
rehash_chain-Sound (h ∷ c) list d new p s =
    subst (λ (t : ℕ). Sound t 0 (rehash_chain c (enter h list))) (length-enter h list)
      (rehash_chain-Sound c (enter h list) d.1 (enter-New h c list p d.0 new.1)
        (enter_nonempty h list p)
        (subst (λ (t : ℕ). Sound t 0 (enter h list)) (sym (length-enter h list))
          (enter-Sound h list p new.0 s)))

size-enter :
    (h : Handle) (list : List (List Handle)) → 0 < length list → size (enter h list) ≡ size list + 1
unfolding enter
size-enter h list p =
    omega
      (arith, size-set list (index list h.hash) (h ∷ chain list h.hash) (index-lt list h.hash p))

pub size-rehash_chain :
    (c : List Handle) (list : List (List Handle))
    → 0 < length list
    → size (rehash_chain c list) ≡ size list + length c
unfolding rehash_chain enter
size-rehash_chain [] list p = omega arith
size-rehash_chain (h ∷ c) list p =
    omega (arith, size-rehash_chain c (enter h list) (enter_nonempty h list p), size-enter h list p)
