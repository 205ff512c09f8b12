-- ===== src/SkipList/Insert.antt =====
-- leveldb/__detail/skip_list.h: `insert`, and the constructor.
use simple_leveldb.Base.{
  ℕ, ◌≤◌, ◌<◌, ◌≡◌, ◌≢◌, inl, inr, sym, ap, ◌∙◌, subst, arith, Option, some, List, [], ◌∷◌, ◌++◌,
  All, ltb, if◌then◌else◌, Bool-cases,
}
use simple_leveldb.Slice.{Sign, less, same}
use simple_leveldb.SkipList.{SkipList, max_levels, head, update}
use simple_leveldb.SkipList.Levels.{
  Heights, at_level, Linked, Apart, last_from, at_level-append, at_level_above, All-at_level,
  Apart-at_level,
}
use simple_leveldb.SkipList.Links.{Linked-frame, Linked-insert, last_from-mem, All-left, Links}
use simple_leveldb.SkipList.Order.{IsOrder, Sorted, Inv, Below, NotBelow, NotBelow-all, Below-all}
use simple_leveldb.SkipList.Middle.{
  All-insert, All-right, All-other, Apart-insert, at_level-insert, at_level-insert_low,
  Sorted-insert, Sorted-update,
}

pub last_low_above :
    (tall : Heights) (m l : ℕ) (lo : List ℕ)
    → All (λ n. tall n ≤ m) lo
    → m ≤ l
    → last_from head (at_level tall l lo) ≡ head
last_low_above tall m l lo h p = ap (last_from head) (
    at_level_above tall l lo (
      All-other (λ n. tall n ≤ m) (λ n. tall n ≤ l) (λ n. tall n ≤ m) lo (λ n r q. omega (arith, q))
        h h))

-- The invariant with the new node, from what the loop has written.
module _ {K : Type 0} (compare : K → K → Sign) (ord : IsOrder compare) (s s' : SkipList K) (key : K)
    (x h : ℕ) (prev : ℕ → ℕ) (tall : Heights) (lo hi : List ℕ) (v : Inv compare tall (lo ++ hi) s)
    (below : Below compare s.key key lo) (above : NotBelow compare s.key key hi)
    (new : All (λ n. x ≢ n) (head ∷ lo ++ hi))
    (distinct : All (λ n. compare (s.key n) key ≢ same) hi)
    (found : (l : ℕ) → l < h → prev l ≡ last_from head (at_level tall l lo)) where
  new_lo : All (λ n. x ≢ n) lo
  new_lo = All-left (λ n. x ≢ n) lo hi new.1

  new_hi : All (λ n. x ≢ n) hi
  new_hi = All-right (λ n. x ≢ n) lo hi new.1

  pub prev-ne : (l : ℕ) → l < h → x ≢ prev l
  prev-ne l p =
      rw (found l p)
        (last_from-ne (at_level tall l lo) (All-at_level (λ n. x ≢ n) tall l lo new_lo))
    where
      last_from-ne : (ns : List ℕ) → All (λ n. x ≢ n) ns → x ≢ last_from head ns
      last_from-ne [] a = new.0
      last_from-ne (n ∷ ns) a = last_from-mem x n ns a

  Linked-levels :
      (s1 : SkipList K) (t : Links x prev h 0 s1 s')
      → s1.next ≡ s.next
      → (l : ℕ) → l < max_levels
      → Linked s'.next l head (at_level (update tall x h) l (lo ++ x ∷ hi))
  Linked-levels s1 t same' l p = elim (Bool-cases (ltb l h)) [
    | inl under ↦
        let u : l < h = ground arith in
        let e = found l u in
        let parts = at_level-append tall l lo hi in
        rw (at_level-insert tall x h lo hi new.1 new_lo new_hi l u) (
          Linked-insert s1.next s'.next l head x (at_level tall l lo) (at_level tall l hi)
            (subst (λ (p : ℕ). s'.next p l ≡ some x) e (t.to l (omega arith) (omega arith)))
            (subst (λ (p : ℕ). s'.next x l ≡ s1.next p l) e (t.on l (omega arith) (omega arith)))
            (λ n q r. t.rest l (omega arith) (omega arith) n (λ d. q (d ∙ e)) r)
            (subst (λ (ns : List ℕ). Apart (head ∷ ns)) parts
              (
                All-at_level (λ n. head ≢ n) tall l (lo ++ hi) v.apart.0,
                Apart-at_level tall l (lo ++ hi) v.apart.1,
              ))
            (subst (λ (ns : List ℕ). All (λ n. x ≢ n) (head ∷ ns)) parts
              (new.0, All-at_level (λ n. x ≢ n) tall l (lo ++ hi) new.1))
            (subst (λ (ns : List ℕ). Linked s1.next l head ns) parts linked1))
    | inr over ↦ rw (at_level-insert_low tall x h lo hi new.1 new_lo new_hi l (ground arith)) (
        Linked-frame s1.next s'.next l head (at_level tall l (lo ++ hi))
          (t.above l (ground arith) head)
          (same_above t l (ground arith) (at_level tall l (lo ++ hi))) linked1)
  ]
    where
      linked1 : Linked s1.next l head (at_level tall l (lo ++ hi))
      linked1 =
          subst (λ (f : ℕ → ℕ → Option ℕ). Linked f l head (at_level tall l (lo ++ hi))) (sym same')
            (v.linked l p)

      same_above :
          (t : Links x prev h 0 s1 s') (l : ℕ)
          → h ≤ l
          → (ns : List ℕ) → All (λ n. s'.next n l ≡ s1.next n l) ns
      same_above t l q [] = tt
      same_above t l q (n ∷ ns) = (t.above l (omega arith) n, same_above t l q ns)

  abbrev pub key' : ℕ → K
  key' = update s.key x key

  Sorted-new : Sorted compare key' (lo ++ x ∷ hi)
  Sorted-new =
      Sorted-insert compare key' lo x hi
        (Sorted-update compare s.key x key (lo ++ hi) new.1 v.sorted)
        (All-other (λ n. compare (s.key n) key ≡ less) (λ n. compare (key' n) (key' x) ≡ less)
          (λ n. x ≢ n) lo (λ n r p. ground arith) new_lo (Below-all compare ord s.key key lo below))
        (All-other (λ n. compare key (s.key n) ≡ less) (λ n. compare (key' x) (key' n) ≡ less)
          (λ n. x ≢ n) hi (λ n r p. ground arith) new_hi
          (NotBelow-all compare ord s.key key hi above distinct))

  abbrev pub higher : ℕ
  higher = if ltb s.max_height h then h else s.max_height

  heights-new :
      1 ≤ h → All (λ n. (1 ≤ update tall x h n) × (update tall x h n ≤ higher)) (lo ++ x ∷ hi)
  heights-new p =
      All-insert (λ n. (1 ≤ update tall x h n) × (update tall x h n ≤ higher)) lo x hi
        (All-other (λ n. (1 ≤ tall n) × (tall n ≤ s.max_height))
          (λ n. (1 ≤ update tall x h n) × (update tall x h n ≤ higher)) (λ n. x ≢ n) (lo ++ hi)
          (λ n r q. ground arith) new.1 v.heights)
        (ground arith)

  pub inserted-Inv :
      (s1 : SkipList K) (t : Links x prev h 0 s1 s')
      → s1.next ≡ s.next
      → s'.key ≡ key'
      → s'.max_height ≡ higher
      → 1 ≤ h
      → h ≤ max_levels
      → Inv compare (update tall x h) (lo ++ x ∷ hi) s'
  inserted-Inv s1 t same' k m p q = record {
    linked = Linked-levels s1 t same';
    sorted = subst (λ (f : ℕ → K). Sorted compare f (lo ++ x ∷ hi)) (sym k) Sorted-new;
    apart = (
      All-insert (λ n. head ≢ n) lo x hi v.apart.0 (λ e. new.0 (sym e)),
      Apart-insert lo x hi v.apart.1 new.1,
    );
    heights = rw m (heights-new p);
    at_least = rw m (ground (arith, v.at_least));
    at_most = rw m (ground (arith, v.at_most));
  }
