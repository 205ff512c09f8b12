-- ===== src/SkipList/Holds.antt =====
-- leveldb/__detail/skip_list.h: the skip list as the list of its keys in order.
use mathlib.Core.List.{map}
use simple_leveldb.Base.{
  ℕ, ◌+◌, ◌-◌, ◌≤◌, ◌<◌, ◌≡◌, ◌≢◌, inl, inr, refl, sym, ap, ◌∙◌, subst, arith, Option, some, List,
  [], ◌∷◌, ◌++◌, All, length, ltb, if◌then◌else◌, Bool-cases,
}
use simple_leveldb.Slice.{Sign, same}
use simple_leveldb.SkipList.{
  SkipList, max_levels, head, update, random_height, raise_prev, new_node, find_greater_or_equal,
  link_loop, insert,
}
use simple_leveldb.SkipList.Levels.{Heights, at_level, last_from, first}
use simple_leveldb.SkipList.Links.{link_loop_lem, All-left}
use simple_leveldb.SkipList.Order.{
  IsOrder, Inv, Below, NotBelow, split_order, insert_key, map-split,
}
use simple_leveldb.SkipList.Middle.{All-right, All-other, map-insert}
use simple_leveldb.SkipList.Find.{random_height_bounds, raise_prev_lem, find_lem}
use simple_leveldb.SkipList.Insert.{last_low_above, prev-ne, inserted-Inv}

module _ {K : Type 0} (compare : K → K → Sign) where
  -- The list has the nodes of `order`, and their keys are `keys`.
  abbrev pub Holds : List ℕ → List K → SkipList K → Type 0
  Holds order keys s = (tall : Heights) × Inv compare tall order s × (map s.key order ≡ keys)

  -- Where the new node is put.
  insert_state : ℕ → K → (ℕ → ℕ) → SkipList K → SkipList K
  insert_state x key prev s =
      let (height, seed) = random_height s.seed in
      let higher = if ltb s.max_height height then height else s.max_height in
      link_loop height 0 x (raise_prev (height - s.max_height) s.max_height prev)
        (new_node x key (record s { max_height = higher; seed = seed }))

  insert-found :
      (f x : ℕ) (key : K) (prev prev' : ℕ → ℕ) (r : Option ℕ) (s : SkipList K)
      → find_greater_or_equal compare f key prev s ≡ some (r, prev')
      → insert compare f x key prev s ≡ some (insert_state x key prev' s)
  unfolding insert insert_state
  insert-found f x key prev prev' r s e = rw e refl

  module _ (ord : IsOrder compare) (s : SkipList K) (key : K) (x : ℕ) (tall : Heights)
      (lo hi : List ℕ) (v : Inv compare tall (lo ++ hi) s) (below : Below compare s.key key lo)
      (above : NotBelow compare s.key key hi) (new : All (λ n. x ≢ n) (head ∷ lo ++ hi))
      (distinct : All (λ n. compare (s.key n) key ≢ same) (lo ++ hi)) (prev : ℕ → ℕ)
      (found : (l : ℕ) → l < s.max_height → prev l ≡ last_from head (at_level tall l lo)) where
    h : ℕ
    h = (random_height s.seed).0

    raised_lem :
        (l : ℕ)
        → l < h
        → raise_prev (h - s.max_height) s.max_height prev l ≡ last_from head (at_level tall l lo)
    raised_lem l p = elim (Bool-cases (ltb l s.max_height)) [
      | inl known ↦
          raise_prev_lem (h - s.max_height) s.max_height prev l
          ∙ ground arith
          ∙ found l (ground arith)
      | inr raised ↦
          raise_prev_lem (h - s.max_height) s.max_height prev l
          ∙ ground arith
          ∙ sym (
              last_low_above tall s.max_height l lo
                (All-left (λ n. tall n ≤ s.max_height) lo hi
                  (All-other (λ n. (1 ≤ tall n) × (tall n ≤ s.max_height))
                    (λ n. tall n ≤ s.max_height) (λ n. head ≢ n) (lo ++ hi) (λ n r q. q.1) v.apart.0
                    v.heights))
                (ground arith))
    ]

    insert_state-Inv :
        Inv compare (update tall x h) (lo ++ x ∷ hi) (insert_state x key prev s)
        × ((insert_state x key prev s).key ≡ update s.key x key)
    unfolding insert_state new_node h
    insert_state-Inv =
        let p' = raise_prev (h - s.max_height) s.max_height prev in
        let (least, most) = random_height_bounds s.seed in
        let hs = All-right (λ n. compare (s.key n) key ≢ same) lo hi distinct in
        let s1 : SkipList K = new_node x key (record s {
          max_height = (if ltb s.max_height h then h else s.max_height);
          seed = (random_height s.seed).1;
        }) in
        let t = link_loop_lem x p' h 0 s1 (λ l a b.
          prev-ne compare ord s s key x h p' tall lo hi v below above new hs raised_lem l
            (omega arith)) in
        (
          inserted-Inv compare ord s (insert_state x key prev s) key x h p' tall lo hi v below above
              new hs raised_lem s1 t refl t.same_key t.same_height least most,
          t.same_key,
        )

    Holds-new :
        (keys : List K)
        → map s.key (lo ++ hi) ≡ keys
        → Holds (lo ++ x ∷ hi) (insert_key compare key keys) (insert_state x key prev s)
    Holds-new keys e =
        let (inv, k) = insert_state-Inv in
        (
          update tall x h,
          inv,
          ap (λ (f : ℕ → K). map f (lo ++ x ∷ hi)) k
              ∙ map_mid
              ∙ map-split compare ord s.key key lo hi below above
              ∙ ap (insert_key compare key) e,
        )
      where
        map_mid : map (update s.key x key) (lo ++ x ∷ hi) ≡ map s.key lo ++ key ∷ map s.key hi
        map_mid =
            map-insert s.key x key lo hi (All-left (λ n. x ≢ n) lo hi new.1)
              (All-right (λ n. x ≢ n) lo hi new.1)

  All-map {κ} :
      (P : K → Type κ) (f : ℕ → K) (ns : List ℕ) → All P (map f ns) → All (λ n. P (f n)) ns
  All-map P f [] a = tt
  All-map P f (n ∷ ns) a = (a.0, All-map P f ns a.1)

  -- A key that compares the same to none of the list, put into a node that is new: `insert` ends,
  -- and the list has the key in its place.
  pub insert_lem :
      (ord : IsOrder compare) (f x : ℕ) (key : K) (prev : ℕ → ℕ) (s : SkipList K) (order : List ℕ)
      (keys : List K)
      → Holds order keys s
      → All (λ n. x ≢ n) (head ∷ order)
      → All (λ y. compare y key ≢ same) keys
      → length order + max_levels ≤ f
      → (s' : SkipList K) × (lo : List ℕ) × (hi : List ℕ) × (insert compare f x key prev s
          ≡ some s')
        × (order ≡ lo ++ hi)
        × Holds (lo ++ x ∷ hi) (insert_key compare key keys) s'
  insert_lem ord f x key prev s order keys (tall, v, e) new distinct b =
      let (lo, hi, split, below, above) = split_order compare ord s.key key order v.sorted in
      let v' = subst (λ (o : List ℕ). Inv compare tall o s) split v in
      let d =
        All-map (λ y. compare y key ≢ same) s.key order
          (subst (All (λ y. compare y key ≢ same)) (sym e) distinct) in
      let d' = subst (All (λ n. compare (s.key n) key ≢ same)) split d in
      let new' = subst (λ (o : List ℕ). All (λ n. x ≢ n) (head ∷ o)) split new in
      let (prev', r, found) =
        find_lem compare s key tall lo hi v' below above f prev
          (subst (λ (o : List ℕ). length o + max_levels ≤ f) split b) in
      (
        insert_state x key prev' s,
        lo,
        hi,
        insert-found f x key prev prev' (first hi) s r,
        split,
        Holds-new ord s key x tall lo hi v' below above new' d' prev' found keys
            (ap (map s.key) (sym split) ∙ e),
      )
