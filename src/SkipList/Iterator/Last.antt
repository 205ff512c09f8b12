-- ===== src/SkipList/Iterator/Last.antt =====
-- leveldb/__detail/skip_list.h: `find_last` and `seek_to_last`.
use simple_leveldb.Base.{
  ℕ, zero, suc, ◌+◌, ◌-◌, ◌≤◌, ◌≡◌, ◌≢◌, refl, sym, ap, ◌∙◌, subst, arith, true, false, Option,
  none, some, List, [], ◌∷◌, ◌++◌, append-nil, All, length, ◌==◌, if◌then◌else◌, inl, inr,
  Option-cases,
}
use simple_leveldb.Slice.{Sign, less}
use simple_leveldb.SkipList.{
  SkipList, max_levels, head, node_or, key_is_after_node, is_before, less_loop, find_less_than,
  last_loop, find_last,
}
use simple_leveldb.SkipList.Levels.{last_from, at_level_zero}
use simple_leveldb.SkipList.Order.{Sorted, Inv, Below}
use simple_leveldb.SkipList.Middle.{All-other}
use simple_leveldb.SkipList.Find.{find_lem}
use simple_leveldb.SkipList.Holds.{Holds}
use simple_leveldb.SkipList.Iterator
use simple_leveldb.SkipList.Iterator.Steps.{find_less_than-find}

module _ {K : Type 0} where
  -- A comparator by which every key is less: then every node comes before the key.
  abbrev all_less : K → K → Sign
  all_less a b = less

  after_some :
      (key : K) (o : Option ℕ) (n : ℕ) (s : SkipList K)
      → o ≡ some n
      → key_is_after_node all_less key o s ≡ true
  unfolding key_is_after_node
  after_some key o n s e = rw e refl

  after_none :
      (key : K) (o : Option ℕ) (s : SkipList K)
      → o ≡ none
      → key_is_after_node all_less key o s ≡ false
  unfolding key_is_after_node
  after_none key o s e = rw e refl

  last_end :
      (f x level : ℕ) (s : SkipList K)
      → s.next x level ≡ none
      → last_loop (suc f) x level s ≡ (if level == 0 then some x else last_loop f x (level - 1) s)
  unfolding last_loop
  last_end f x level s e = rw (e, last_loop) refl

  all_before : (key : K) (x : ℕ) (s : SkipList K) → is_before all_less key x s ≡ true
  unfolding is_before
  all_before key x s = ground arith

  less_end :
      (f x level : ℕ) (key : K) (s : SkipList K)
      → s.next x level ≡ none
      → less_loop all_less (suc f) key x level s
        ≡ (if level == 0 then some x else less_loop all_less f key x (level - 1) s)
  unfolding less_loop
  less_end f x level key s e = rw (all_before key x s, after_none key (s.next x level) s e) refl

  last_more :
      (f x level n : ℕ) (s : SkipList K)
      → s.next x level ≡ some n
      → last_loop (suc f) x level s ≡ last_loop f n level s
  unfolding last_loop
  last_more f x level n s e =
      rw (e, last_loop) (ap (λ (o : Option ℕ). last_loop f (node_or x o) level s) e)

  less_more :
      (f x level n : ℕ) (key : K) (s : SkipList K)
      → s.next x level ≡ some n
      → less_loop all_less (suc f) key x level s ≡ less_loop all_less f key n level s
  unfolding less_loop
  less_more f x level n key s e =
      rw (all_before key x s, after_some key (s.next x level) n s e)
        (ap (λ (o : Option ℕ). less_loop all_less f key (node_or x o) level s) e)

  last_loop-less_loop :
      (f x level : ℕ) (key : K) (s : SkipList K)
      → last_loop f x level s ≡ less_loop all_less f key x level s
  last_loop-less_loop zero x level key s = unfold last_loop less_loop in refl
  last_loop-less_loop (suc f) x level key s = elim (Option-cases (s.next x level)) [
    | inl end ↦
        last_end f x level s end
        ∙ ap (λ (o : Option ℕ). if level == 0 then some x else o)
            (last_loop-less_loop f x (level - 1) key s)
        ∙ sym (less_end f x level key s end)
    | inr (n, e) ↦
        last_more f x level n s e
        ∙ last_loop-less_loop f n level key s
        ∙ sym (less_more f x level n key s e)
  ]

  all-Sorted : (key : ℕ → K) (order : List ℕ) → Sorted all_less key order
  all-Sorted key [] = tt
  all-Sorted key (n ∷ order) = (every order, all-Sorted key order)
    where
      every : (ns : List ℕ) → All (λ m. less ≡ less) ns
      every [] = tt
      every (m ∷ ns) = (refl, every ns)

  all-Below : (key : ℕ → K) (k : K) (order : List ℕ) → Below all_less key k order
  all-Below key k [] = tt
  all-Below key k (n ∷ order) = (refl, all-Below key k order)

  -- `seek_to_last` ends at the last node of the order, and at no position in an empty list.
  pub seek_to_last_lem :
      (compare : K → K → Sign) (f : ℕ) (s : SkipList K) (order : List ℕ) (keys : List K)
      → Holds compare order keys s
      → length order + max_levels ≤ f
      → Iterator.seek_to_last f s ≡ some (Iterator.not_head (last_from head order))
  seek_to_last_lem compare f s order keys (tall, v, e) h =
      let key = s.key head in
      let w : Inv all_less tall (order ++ []) s =
        subst (λ (o : List ℕ). Inv all_less tall o s) (sym (append-nil order))
          (record {
            linked = v.linked;
            sorted = all-Sorted s.key order;
            apart = v.apart;
            heights = v.heights;
            at_least = v.at_least;
            at_most = v.at_most;
          }) in
      let (prev, r, found) =
        find_lem all_less s key tall order [] w (all-Below s.key key order) tt f (λ i. head)
          (subst (λ (o : List ℕ). length o + max_levels ≤ f) (sym (append-nil order)) h) in
      let heights =
        All-other (λ k. (1 ≤ tall k) × (tall k ≤ s.max_height)) (λ k. 1 ≤ tall k) (λ k. head ≢ k)
          order (λ k q p. p.0) v.apart.0 v.heights in
      let last : find_last f s ≡ some (last_from head order) =
        unfold find_last in
        last_loop-less_loop f head (s.max_height - 1) key s
        ∙ unfold find_less_than in
          find_less_than-find all_less s key f (λ i. head)
          ∙ rw r (
              ap some (
                found 0 (omega (arith, v.at_least))
                ∙ ap (last_from head) (at_level_zero tall order heights))) in
      unfold Iterator.seek_to_last in rw last refl
