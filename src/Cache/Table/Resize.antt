-- ===== src/Cache/Table/Resize.antt =====
-- leveldb/cache.cc: `handle_table::resize`, from the old array to the new one.
use simple_leveldb.Base.{
  ℕ, zero, suc, ◌+◌, ◌-◌, ◌*◌, ◌^◌, ◌≤◌, ◌<◌, bit_and, ◌≡◌, refl, sym, ap, ◌∙◌, arith, Option, none,
  some, List, [], ◌∷◌, ◌++◌, Bytes, All, length, length-append, length-replicate, get_or, replicate,
  Bool-cases, inl, inr, true, ltb, if◌then◌else◌, u32,
}
use native.Mathlib.Nat.{pow-suc}
use simple_leveldb.Cache.{Handle}
use simple_leveldb.Cache.Table.{
  Table, count_handles, index, chain, find_in, grow, rehash, rehash_chain, resize, look_up,
  new_table,
}
use simple_leveldb.Cache.Table.Chains.{Distinct}
use simple_leveldb.Cache.Table.Slots.{
  Sound, size, find_in_misplaced, IsFilled, IsValid, Sound-empty, size-empty, chain-empty,
}
use simple_leveldb.Cache.Table.Count.{counted_handles}
use simple_leveldb.Cache.Table.Rehash.{
  New, flat, found, or_else, rehash-flat, find_in-append, found-rehash_chain, rehash_chain-Sound,
  size-rehash_chain, length-rehash_chain,
}

module _ (m : ℕ) where
  find_in-flat_before :
      (i : ℕ) (k : Bytes) (n : ℕ) (list : List (List Handle))
      → Sound m i list
      → bit_and n (m - 1) < i
      → find_in k n (flat list) ≡ none
  unfolding find_in flat or_else
  find_in-flat_before i k n [] s h = refl
  find_in-flat_before i k n (c ∷ list) s h =
      find_in-append k n c (flat list)
      ∙ ap (λ (o : Option Handle). or_else o (find_in k n (flat list)))
          (find_in_misplaced m i k n c s.0 (λ e. absurd (omega arith)))
      ∙ find_in-flat_before (suc i) k n list s.2 (omega arith)

  find_in-flat :
      (i j : ℕ) (k : Bytes) (n : ℕ) (list : List (List Handle))
      → Sound m i list
      → bit_and n (m - 1) ≡ i + j
      → find_in k n (flat list) ≡ find_in k n (get_or list j [])
  unfolding find_in flat or_else
  find_in-flat i j k n [] s e = refl
  find_in-flat i zero k n (c ∷ list) s e =
      find_in-append k n c (flat list)
      ∙ ap (or_else (find_in k n c)) (find_in-flat_before (suc i) k n list s.2 (omega arith))
      ∙ right (find_in k n c)
    where
      right : (o : Option Handle) → or_else o none ≡ o
      right none = refl
      right (some h) = refl
  find_in-flat i (suc j) k n (c ∷ list) s e =
      find_in-append k n c (flat list)
      ∙ ap (λ (o : Option Handle). or_else o (find_in k n (flat list)))
          (find_in_misplaced m i k n c s.0 (λ e'. absurd (omega arith)))
      ∙ find_in-flat (suc i) j k n list s.2 (omega arith)

  Distinct-append :
      (i : ℕ) (a : List Handle) (list : List (List Handle))
      → All (λ h. bit_and h.hash (m - 1) ≡ i) a
      → Distinct a
      → Sound m (suc i) list
      → Distinct (flat list)
      → Distinct (a ++ flat list)
  unfolding or_else
  Distinct-append i [] list p d s f = f
  Distinct-append i (h ∷ a) list p d s f = (
    find_in-append h.key h.hash a (flat list)
        ∙ ap (λ (o : Option Handle). or_else o (find_in h.key h.hash (flat list))) d.0
        ∙ find_in-flat_before (suc i) h.key h.hash list s (omega arith),
    Distinct-append i a list p.1 d.1 s f,
  )

  flat-Distinct : (i : ℕ) (list : List (List Handle)) → Sound m i list → Distinct (flat list)
  unfolding flat
  flat-Distinct i [] s = tt
  flat-Distinct i (c ∷ list) s =
      Distinct-append i c list s.0 s.1 s.2 (flat-Distinct (suc i) list s.2)

length-flat : (list : List (List Handle)) → length (flat list) ≡ size list
unfolding flat
length-flat [] = refl
length-flat (c ∷ list) = omega (arith, length-append c (flat list), length-flat list)

grow_room : (f m elems : ℕ) → elems ≤ m * 2 ^ suc f → elems ≤ m * 2 * 2 ^ f
grow_room f m elems h = grind (arith, pow-suc 2 f)

grow_step :
    (f m elems : ℕ)
    → grow (suc f) m elems ≡ (if ltb m elems then grow f (u32 (m * 2)) elems else some m)
unfolding grow
grow_step f m elems = refl

grow_more :
    (f m elems n : ℕ)
    → ltb m elems ≡ true
    → u32 (m * 2) ≡ m * 2
    → grow f (m * 2) elems ≡ some n
    → grow (suc f) m elems ≡ some n
grow_more f m elems n less double e = rw (grow_step f m elems, less, double) e

-- The doubling ends, and the new length is not below the count.
pub grow_total :
    (f m elems : ℕ)
    → elems ≤ 2 ^ 31
    → 0 < m
    → elems ≤ m * 2 ^ f
    → (n : ℕ) × (grow (suc f) m elems ≡ some n) × (0 < n) × (elems ≤ n)
grow_total zero m elems b p h = (m, rw (grow_step zero m elems) (ground arith), p, omega arith)
grow_total (suc f) m elems b p h = elim (Bool-cases (ltb m elems)) [
  | inl less ↦
      let double : u32 (m * 2) ≡ m * 2 = ground arith in
      let (n, e, r, s) = grow_total f (m * 2) elems b (omega arith) (grow_room f m elems h) in
      (n, grow_more (suc f) m elems n less double e, r, s)
  | inr enough ↦ (m, rw (grow_step (suc f) m elems, enough) refl, p, ground arith)
]

pub new_table_lem :
    (t : Table) × (new_table ≡ some t)
    × IsValid t
    × (t.elems ≡ 0)
    × ((k : Bytes) (n : ℕ) → look_up k n t ≡ none)
unfolding new_table rehash look_up find_in count_handles
new_table_lem = (
  record { elems = 0; list = replicate 4 [] },
  refl,
  record { buckets = omega arith; placed = Sound-empty 4 0 4; counted = refl; roomy = omega arith },
  refl,
  λ k n. rw (chain-empty 4 (bit_and n 3)) refl,
)

module _ (m : ℕ) (t : Table) (v : IsFilled t) (p : 0 < m) (enough : t.elems ≤ m) where
  new_list : List (List Handle)
  new_list = replicate m []

  new_list_lem : (length new_list ≡ m) × (0 < length new_list) × Sound (length new_list) 0 new_list
  unfolding new_list
  new_list_lem =
      let e = length-replicate {A = List Handle} m [] in
      (e, rw e p, Sound-empty (length new_list) 0 m)

  flat-New : (c : List Handle) → New c new_list
  unfolding new_list found find_in
  flat-New [] = tt
  flat-New (h ∷ c) = (rw (chain-empty m (index new_list h.hash)) refl, flat-New c)

  length-rehashed : length (rehash t.list new_list) ≡ length new_list
  length-rehashed =
      ap length (rehash-flat t.list new_list) ∙ length-rehash_chain (flat t.list) new_list

  sized : size (rehash_chain (flat t.list) new_list) ≡ length (flat t.list)
  unfolding new_list
  sized = omega (arith, size-empty m, size-rehash_chain (flat t.list) new_list new_list_lem.1)

  rehashed-IsValid : IsValid (record t { list = rehash t.list new_list })
  rehashed-IsValid = record {
    buckets = rw length-rehashed new_list_lem.1;
    placed =
        rw (length-rehashed, rehash-flat t.list new_list)
          (rehash_chain-Sound (flat t.list) new_list
            (flat-Distinct (length t.list) 0 t.list v.placed) (flat-New (flat t.list))
            new_list_lem.1 new_list_lem.2);
    counted =
        v.counted
        ∙ sym (length-flat t.list)
        ∙ sym sized
        ∙ ap size (sym (rehash-flat t.list new_list));
    roomy = rw (length-rehashed, new_list_lem.0) enough;
  }

  look_up-rehashed :
      (k : Bytes) (n : ℕ) → look_up k n (record t { list = rehash t.list new_list }) ≡ look_up k n t
  unfolding look_up found or_else new_list find_in
  look_up-rehashed k n =
      ap (λ (l : List (List Handle)). find_in k n (chain l n)) (rehash-flat t.list new_list)
      ∙ found-rehash_chain k n (flat t.list) new_list
          (flat-Distinct (length t.list) 0 t.list v.placed) new_list_lem.1
      ∙ left (find_in k n (flat t.list))
      ∙ find_in-flat (length t.list) 0 (index t.list n) k n t.list v.placed (omega arith)
    where
      none_new : found k n new_list ≡ none
      none_new = rw (chain-empty m (index new_list n)) refl

      left : (o : Option Handle) → or_else o (found k n new_list) ≡ o
      left none = none_new
      left (some h) = refl

pub resize_lem :
    (t : Table)
    → IsFilled t
    → t.elems ≤ 2 ^ 31
    → (t' : Table) × (resize t ≡ some t')
      × IsValid t'
      × (t'.elems ≡ t.elems)
      × ((k : Bytes) (n : ℕ) → look_up k n t' ≡ look_up k n t)
unfolding new_list
resize_lem t v b =
    let (m, e, r, s) = grow_total 29 4 t.elems b (omega arith) (omega arith) in resized m e r s
  where
    resized :
        (m : ℕ)
        → grow 30 4 t.elems ≡ some m
        → 0 < m
        → t.elems ≤ m
        → (t' : Table) × (resize t ≡ some t')
          × IsValid t'
          × (t'.elems ≡ t.elems)
          × ((k : Bytes) (n : ℕ) → look_up k n t' ≡ look_up k n t)
    resized m e r s = (
      record t { list = rehash t.list (replicate m []) },
      unfold resize in rw (e, counted_handles t v b) refl,
      rehashed-IsValid m t v r s,
      refl,
      look_up-rehashed m t v r s,
    )
