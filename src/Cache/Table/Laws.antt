-- ===== src/Cache/Table/Laws.antt =====
-- leveldb/cache.cc: the operations of `handle_table` as changes of the map that `look_up` reads.
use simple_leveldb.Base.{
  ℕ, ◌+◌, ◌-◌, ◌^◌, ◌≤◌, ◌<◌, bit_and, ◌≡◌, refl, sym, ap, ◌∙◌, subst, arith, Option, none, some,
  List, Bytes, All, length, length-set, set, Bool-cases, inl, inr, ltb, if◌then◌else◌, u32,
  Option-cases,
}
use simple_leveldb.Cache.{Handle}
use simple_leveldb.Cache.Table.{
  Table, index, chain, find_in, look_up, insert, remove, resize_full, replace_in, remove_in,
}
use simple_leveldb.Cache.Table.Chains.{
  Distinct, is_key, is_key_iff, find_in-replace_in, find_in-remove_in, replace_in-Distinct,
  remove_in-Distinct, All-replace_in, All-remove_in, length-replace_in, length-remove_in,
}
use simple_leveldb.Cache.Table.Slots.{
  Sound, size, Sound-get, Sound-set, size-set, chain-set, index-lt, IsFilled, IsValid,
}
use simple_leveldb.Cache.Table.Resize.{resize_lem}

-- What a table is to its user after a handle is entered.
abbrev pub entered : Handle → Bytes → ℕ → Option Handle → Option Handle
entered h k n before = if is_key h.key h.hash k n then some h else before

-- And after a key is removed.
abbrev pub removed : Bytes → ℕ → Bytes → ℕ → Option Handle → Option Handle
removed key hash k n before = if is_key key hash k n then none else before

abbrev replaced : List (List Handle) → Handle → List Handle
replaced list h = replace_in h.key h.hash h (chain list h.hash)

abbrev shortened : List (List Handle) → Bytes → ℕ → List Handle
shortened list key hash = remove_in key hash (chain list hash)

module _ (list : List (List Handle)) (p : 0 < length list) (s : Sound (length list) 0 list) where
  -- A bucket that is written keeps the array sound.
  put-Sound :
      (hash : ℕ) (c : List Handle)
      → All (λ h. bit_and h.hash (length list - 1) ≡ 0 + index list hash) c
      → Distinct c
      → Sound (length (set list (index list hash) c)) 0 (set list (index list hash) c)
  put-Sound hash c a d =
      rw (length-set list (index list hash) c)
        (Sound-set (length list) 0 (index list hash) list c s a d)

  module _ (h : Handle) where
    replaced-Sound :
        Sound
          (length (set list (index list h.hash) (replaced list h)))
          0
          (set list (index list h.hash) (replaced list h))
    replaced-Sound =
        let (a, d) = Sound-get (length list) 0 (index list h.hash) list s in
        put-Sound h.hash (replaced list h)
          (All-replace_in (λ e. bit_and e.hash (length list - 1) ≡ 0 + index list h.hash) h.key
            h.hash h (chain list h.hash) (omega arith) a)
          (replace_in-Distinct h (chain list h.hash) d)

    look_up-replaced :
        (elems : ℕ) (k : Bytes) (n : ℕ)
        → look_up k n
            (record { elems = elems; list = set list (index list h.hash) (replaced list h) })
          ≡ entered h k n (find_in k n (chain list n))
    unfolding look_up
    look_up-replaced elems k n = rw (chain-set list n h.hash (replaced list h) p) (
        ground (
          arith,
          find_in-replace_in k n h (chain list h.hash),
          is_key_iff h.key h.hash k n,
          ap (λ (t : ℕ). index list t) {x = h.hash} {y = n},
        ))

    size-replaced :
        size (set list (index list h.hash) (replaced list h)) + length (chain list h.hash)
        ≡ size list + length (replaced list h)
    size-replaced = size-set list (index list h.hash) (replaced list h) (index-lt list h.hash p)

  module _ (key : Bytes) (hash : ℕ) where
    shortened-Sound :
        Sound
          (length (set list (index list hash) (shortened list key hash)))
          0
          (set list (index list hash) (shortened list key hash))
    shortened-Sound =
        let (a, d) = Sound-get (length list) 0 (index list hash) list s in
        put-Sound hash (shortened list key hash)
          (All-remove_in (λ e. bit_and e.hash (length list - 1) ≡ 0 + index list hash) key hash
            (chain list hash) a)
          (remove_in-Distinct key hash (chain list hash) d)

    look_up-shortened :
        (elems : ℕ) (k : Bytes) (n : ℕ)
        → look_up k n
            (record { elems = elems; list = set list (index list hash) (shortened list key hash) })
          ≡ removed key hash k n (find_in k n (chain list n))
    unfolding look_up
    look_up-shortened elems k n =
        let d = (Sound-get (length list) 0 (index list hash) list s).1 in
        rw (chain-set list n hash (shortened list key hash) p) (
          ground (
            arith,
            find_in-remove_in k n key hash (chain list hash) d,
            is_key_iff key hash k n,
            ap (λ (t : ℕ). index list t) {x = hash} {y = n},
          ))

    size-shortened :
        size (set list (index list hash) (shortened list key hash)) + length (chain list hash)
        ≡ size list + length (shortened list key hash)
    size-shortened =
        size-set list (index list hash) (shortened list key hash) (index-lt list hash p)

resize_full_lem :
    (t : Table)
    → IsFilled t
    → t.elems ≤ 2 ^ 31
    → (t' : Table) × (resize_full t ≡ some t')
      × IsValid t'
      × (t'.elems ≡ t.elems)
      × ((k : Bytes) (n : ℕ) → look_up k n t' ≡ look_up k n t)
unfolding resize_full
resize_full_lem t v b = elim (Bool-cases (ltb (length t.list) t.elems)) [
  | inl full ↦ rw full (resize_lem t v b)
  | inr room ↦ rw room (
    t,
    refl,
    record { buckets = v.buckets; placed = v.placed; counted = v.counted; roomy = ground arith },
    refl,
    λ k n. refl,
  )
]

insert_new :
    (h : Handle) (t t' : Table)
    → look_up h.key h.hash t ≡ none
    → resize_full (record {
      elems = u32 (t.elems + 1);
      list = set t.list (index t.list h.hash) (replaced t.list h);
    })
      ≡ some t'
    → insert h t ≡ some (t', none)
unfolding insert look_up
insert_new h t t' absent r = rw (absent, r, insert) refl

insert_old :
    (h : Handle) (t : Table) (old : Handle)
    → look_up h.key h.hash t ≡ some old
    → insert h t
      ≡ some (record t { list = set t.list (index t.list h.hash) (replaced t.list h) }, some old)
unfolding insert look_up
insert_old h t old e = rw (e, insert) refl

remove_new :
    (key : Bytes) (hash : ℕ) (t : Table) → look_up key hash t ≡ none → remove key hash t ≡ (t, none)
unfolding remove look_up
remove_new key hash t e = rw (e, remove) refl

remove_old :
    (key : Bytes) (hash : ℕ) (t : Table) (old : Handle)
    → look_up key hash t ≡ some old
    → remove key hash t ≡ (
      record {
        elems = u32 (t.elems + 2 ^ 32 - 1);
        list = set t.list (index t.list hash) (shortened t.list key hash);
      },
      some old,
    )
unfolding remove look_up
remove_old key hash t old e = rw (e, remove) refl

insert_total :
    (h : Handle) (t : Table) (old : Option Handle)
    → look_up h.key h.hash t ≡ old
    → IsValid t
    → t.elems < 2 ^ 31
    → (t' : Table) × (insert h t ≡ some (t', old))
      × IsValid t'
      × (t'.elems ≤ t.elems + 1)
      × ((k : Bytes) (n : ℕ) → look_up k n t' ≡ entered h k n (look_up k n t))
unfolding look_up
insert_total h t none e v b =
    let sized = size-replaced t.list v.buckets v.placed h in
    let list' = set t.list (index t.list h.hash) (replaced t.list h) in
    let t1 : Table = record { elems = u32 (t.elems + 1); list = list' } in
    let v1 : IsFilled t1 = record {
      buckets = rw (length-set t.list (index t.list h.hash) (replaced t.list h)) v.buckets;
      placed = replaced-Sound t.list v.buckets v.placed h;
      counted = ground (arith, length-replace_in h.key h.hash h (chain t.list h.hash));
    } in
    let (t', r, v', c, m) = resize_full_lem t1 v1 (omega arith) in
    (
      t',
      insert_new h t t' e r,
      v',
      omega arith,
      λ k n. m k n ∙ look_up-replaced t.list v.buckets v.placed h t1.elems k n,
    )
insert_total h t (some old) e v b =
    let sized = size-replaced t.list v.buckets v.placed h in
    let list' = set t.list (index t.list h.hash) (replaced t.list h) in
    (
      record t { list = list' },
      insert_old h t old e,
      record {
        buckets = rw (length-set t.list (index t.list h.hash) (replaced t.list h)) v.buckets;
        placed = replaced-Sound t.list v.buckets v.placed h;
        counted = ground (arith, length-replace_in h.key h.hash h (chain t.list h.hash));
        roomy = rw (length-set t.list (index t.list h.hash) (replaced t.list h)) v.roomy;
      },
      omega arith,
      look_up-replaced t.list v.buckets v.placed h t.elems,
    )

pub insert_lem :
    (h : Handle) (t : Table)
    → IsValid t
    → t.elems < 2 ^ 31
    → (t' : Table) × (insert h t ≡ some (t', look_up h.key h.hash t))
      × IsValid t'
      × (t'.elems ≤ t.elems + 1)
      × ((k : Bytes) (n : ℕ) → look_up k n t' ≡ entered h k n (look_up k n t))
insert_lem h t v b = insert_total h t (look_up h.key h.hash t) refl v b

-- What `remove` promises of its result.
abbrev pub Removes : Bytes → ℕ → Table → Table × Option Handle → Type 0
Removes key hash t r =
    (r.1 ≡ look_up key hash t)
    × IsValid r.0
    × (r.0.elems ≤ t.elems)
    × ((k : Bytes) (n : ℕ) → look_up k n r.0 ≡ removed key hash k n (look_up k n t))

-- The count does not pass 0, since a handle that is found is counted.
remove_found :
    (key : Bytes) (hash : ℕ) (t : Table) (old : Handle)
    → look_up key hash t ≡ some old
    → IsValid t
    → t.elems ≤ 2 ^ 31
    → Removes key hash t (
      record {
        elems = u32 (t.elems + 2 ^ 32 - 1);
        list = set t.list (index t.list hash) (shortened t.list key hash);
      },
      some old,
    )
unfolding look_up
remove_found key hash t old e v b =
    let sized = size-shortened t.list v.buckets v.placed key hash in
    let less = length-remove_in key hash (chain t.list hash) old e in
    let fewer : u32 (t.elems + 2 ^ 32 - 1) + 1 ≡ t.elems = omega arith in
    (
      sym e,
      record {
        buckets = rw (length-set t.list (index t.list hash) (shortened t.list key hash)) v.buckets;
        placed = shortened-Sound t.list v.buckets v.placed key hash;
        counted = omega arith;
        roomy =
            rw (length-set t.list (index t.list hash) (shortened t.list key hash))
              (omega (arith, v.roomy));
      },
      omega arith,
      look_up-shortened t.list v.buckets v.placed key hash (u32 (t.elems + 2 ^ 32 - 1)),
    )

remove_absent :
    (key : Bytes) (hash : ℕ) (t : Table)
    → look_up key hash t ≡ none
    → IsValid t
    → Removes key hash t (t, none)
remove_absent key hash t e v =
    (sym e, v, omega arith, λ k n. ground (arith, is_key_iff key hash k n))

pub remove_lem :
    (key : Bytes) (hash : ℕ) (t : Table)
    → IsValid t
    → t.elems ≤ 2 ^ 31
    → Removes key hash t (remove key hash t)
remove_lem key hash t v b = elim (Option-cases (look_up key hash t)) [
  | inl e ↦
      subst (Removes key hash t) (sym (remove_new key hash t e)) (remove_absent key hash t e v)
  | inr (old, e) ↦
      subst (Removes key hash t) (sym (remove_old key hash t old e))
        (remove_found key hash t old e v b)
]
