-- ===== src/SkipList/Iterator/Steps.antt =====
-- leveldb/__detail/skip_list.h: the steps of the iterator between neighbours.
use simple_leveldb.Base.{
  ℕ, zero, suc, ◌+◌, ◌-◌, ◌≤◌, ◌≡◌, ◌≢◌, refl, sym, ap, ◌∙◌, subst, arith, Option, none, some, true,
  List, [], ◌∷◌, ◌++◌, append_assoc, All, length, ◌==◌, ◌>>=◌, Bool-cases, inl, inr,
}
use simple_leveldb.Slice.{Sign, less}
use simple_leveldb.SkipList.{
  SkipList, max_levels, head, update, node_or, key_is_after_node, find_loop, find_greater_or_equal,
  is_before, less_loop, find_less_than,
}
use simple_leveldb.SkipList.Levels.{
  Linked, last_from, at_level_zero, Linked-after, last_from-append,
}
use simple_leveldb.SkipList.Search.{All-middle}
use simple_leveldb.SkipList.Links.{All-left}
use simple_leveldb.SkipList.Order.{IsOrder, Sorted, Inv, Below, NotBelow}
use simple_leveldb.SkipList.Middle.{All-other}
use simple_leveldb.SkipList.Find.{find_lem}
use simple_leveldb.SkipList.Holds.{Holds}
use simple_leveldb.SkipList.Iterator

module _ {K : Type 0} (compare : K → K → Sign) (s : SkipList K) (key : K) where
  -- A node that the key is after is before the key.
  after-is_before :
      (x : ℕ) (next : Option ℕ)
      → key_is_after_node compare key next s ≡ true
      → is_before compare key (node_or x next) s ≡ true
  unfolding key_is_after_node is_before
  after-is_before x none after = cc
  after-is_before x (some n) after = ground (arith, after)

  -- `find_less_than` stops where `find_greater_or_equal` writes `prev[ 0 ]`.
  less_loop-find_loop :
      (f x level : ℕ) (prev : ℕ → ℕ)
      → is_before compare key x s ≡ true
      → less_loop compare f key x level s
        ≡ (find_loop compare f key x level prev s >>= λ r. some (r.1 0))
  unfolding less_loop find_loop
  less_loop-find_loop zero x level prev before = refl
  less_loop-find_loop (suc f) x level prev before =
      elim (Bool-cases (key_is_after_node compare key (s.next x level) s)) [
        | inl ahead ↦
            rw (before, ahead)
              (less_loop-find_loop f (node_or x (s.next x level)) level prev
                (after-is_before x (s.next x level) ahead))
        | inr stop ↦ elim (Bool-cases (level == 0)) [
          | inl bottom ↦
              let e : 0 ≡ level = ground arith in rw (before, stop, bottom) (ground arith)
          | inr higher ↦
              rw (before, stop, higher)
                (less_loop-find_loop f x (level - 1) (update prev level x) before)
        ]
      ]

  pub find_less_than-find :
      (f : ℕ) (prev : ℕ → ℕ)
      → find_less_than compare f key s
        ≡ (find_greater_or_equal compare f key prev s >>= λ r. some (r.1 0))
  unfolding find_less_than find_greater_or_equal is_before
  find_less_than-find f prev = less_loop-find_loop f head (s.max_height - 1) prev at_head
    where
      at_head : is_before compare key head s ≡ true
      at_head = ground arith

module _ {K : Type 0} (compare : K → K → Sign) where
  Sorted-before :
      (key : ℕ → K) (a : List ℕ) (n : ℕ) (b : List ℕ)
      → Sorted compare key (a ++ n ∷ b)
      → Below compare key (key n) a
  Sorted-before key [] n b s = tt
  Sorted-before key (m ∷ a) n b s = (
    ground (arith, (All-middle (λ p. compare (key m) (key p) ≡ less) a n b s.0).0),
    Sorted-before key a n b s.1,
  )

  module _ (ord : IsOrder compare) (key : ℕ → K) (n : ℕ) where
    NotBelow-after :
        (b : List ℕ) → All (λ m. compare (key n) (key m) ≡ less) b → NotBelow compare key (key n) b
    NotBelow-after [] a = tt
    NotBelow-after (m ∷ b) a = (
      ground (arith, a.0, ord.less_trans (key n) (key m) (key n), ord.same_self (key n)),
      NotBelow-after b a.1,
    )

    Sorted-after :
        (a b : List ℕ) → Sorted compare key (a ++ n ∷ b) → NotBelow compare key (key n) (n ∷ b)
    Sorted-after [] b s = (ground (arith, ord.same_self (key n)), NotBelow-after b s.0)
    Sorted-after (m ∷ a) b s = Sorted-after a b s.1

  -- In a list that holds its keys, of two nodes side by side in the order, `next` goes from the
  -- first to the second, and `prev` ends and goes from the second to the first.
  pub prev-next :
      (ord : IsOrder compare) (f : ℕ) (s : SkipList K) (a : List ℕ) (m n : ℕ) (b : List ℕ)
      (keys : List K)
      → Holds compare (a ++ m ∷ n ∷ b) keys s
      → length (a ++ m ∷ n ∷ b) + max_levels ≤ f
      → (Iterator.next s m ≡ some n) × (Iterator.prev compare f s n ≡ some (some m))
  prev-next ord f s a m n b keys (tall, v, e) h =
      let shape : a ++ m ∷ n ∷ b ≡ (a ++ m ∷ []) ++ n ∷ b = sym (append_assoc a (m ∷ []) (n ∷ b)) in
      let v' = subst (λ (o : List ℕ). Inv compare tall o s) shape v in
      let heights =
        All-other (λ k. (1 ≤ tall k) × (tall k ≤ s.max_height)) (λ k. 1 ≤ tall k) (λ k. head ≢ k)
          (a ++ m ∷ n ∷ b) (λ k r p. p.0) v.apart.0 v.heights in
      let whole = at_level_zero tall (a ++ m ∷ n ∷ b) heights in
      let bottom =
        subst (λ (o : List ℕ). Linked s.next 0 head o) whole (v.linked 0 (omega arith)) in
      let (prev', r, found) =
        find_lem compare s (s.key n) tall (a ++ m ∷ []) (n ∷ b) v'
          (Sorted-before s.key (a ++ m ∷ []) n b v'.sorted)
          (Sorted-after ord s.key n (a ++ m ∷ []) b v'.sorted) f (λ i. head)
          (subst (λ (o : List ℕ). length o + max_levels ≤ f) shape h) in
      let last : prev' 0 ≡ m =
        found 0 (omega (arith, v.at_least))
        ∙ ap (last_from head) (
            at_level_zero tall (a ++ m ∷ []) (
              All-left (λ k. 1 ≤ tall k) (a ++ m ∷ []) (n ∷ b)
                (subst (λ (o : List ℕ). All (λ k. 1 ≤ tall k) o) shape heights)))
        ∙ last_from-append head a m [] in
      (
        (Linked-after s.next 0 head a m (n ∷ b) bottom).0,
        unfold Iterator.prev in
            rw (find_less_than-find compare s (s.key n) f (λ i. head), r, last)
              (ap some (position m (All-middle (λ k. head ≢ k) a m (n ∷ b) v.apart.0).0)),
      )
    where
      position : (k : ℕ) → head ≢ k → Iterator.not_head k ≡ some k
      position k d = ground arith
