-- ===== src/SkipList/Contains.antt =====
-- leveldb/__detail/skip_list.h: `contains`, and lists built by `insert` from the constructor's.
use mathlib.Core.List.{map, map-append}
use simple_leveldb.Base.{
  ℕ, zero, suc, ◌+◌, ◌≤◌, ◌<◌, ◌≡◌, inl, inr, refl, sym, ap, ◌∙◌, subst, arith, Bool, false, Option,
  none, some, List, [], ◌∷◌, ◌++◌, All, length, ◌==◌, ◌||◌, Bool-cases,
}
use simple_leveldb.Slice.{Sign, less, is_same}
use simple_leveldb.Random.{new_random}
use simple_leveldb.SkipList.{
  SkipList, max_levels, head, set_next, clear_links, new_skip_list, find_greater_or_equal, contains,
}
use simple_leveldb.SkipList.Levels.{at_level, first}
use simple_leveldb.SkipList.Order.{IsOrder, Sorted, Inv, Below, NotBelow, split_order}
use simple_leveldb.SkipList.Find.{find_lem}
use simple_leveldb.SkipList.Holds.{Holds}

module _ {K : Type 0} (compare : K → K → Sign) where
  -- Some key of a list compares the same.
  unfoldable pub member : K → List K → Bool
  member k [] = false
  member k (y ∷ ys) = is_same (compare k y) || member k ys

  module _ (ord : IsOrder compare) (key : ℕ → K) (k : K) where
    not_same_below : (n : ℕ) → compare (key n) k ≡ less → is_same (compare k (key n)) ≡ false
    not_same_below n h = ground (arith, ord.same_flip k (key n))

    member-Below :
        (lo : List ℕ) (ys : List K)
        → Below compare key k lo
        → member k (map key lo ++ ys) ≡ member k ys
    unfolding member
    member-Below [] ys b = refl
    member-Below (n ∷ lo) ys b =
        rw (not_same_below n (ground (arith, b.0))) (member-Below lo ys b.1)

    member-later :
        (n : ℕ) (ns : List ℕ)
        → NotBelow compare key k (n ∷ ns)
        → All (λ m. compare (key n) (key m) ≡ less) ns
        → member k (map key ns) ≡ false
    unfolding member
    member-later n [] b a = refl
    member-later n (m ∷ ns) b a = rw other (member-later n ns (b.0, b.1.1) a.1)
      where
        other : is_same (compare k (key m)) ≡ false
        other = ground (arith, a.0, b.0, ord.less_same (key n) (key m) k, ord.same_flip k (key m))

    -- Only the first key that is not below can be the same.
    member-first :
        (hi : List ℕ)
        → NotBelow compare key k hi
        → Sorted compare key hi
        → member k (map key hi)
          ≡ elim (first hi) [ none ↦ false | some n ↦ is_same (compare k (key n)) ]
    unfolding member
    member-first [] b s = refl
    member-first (n ∷ hi) b s = rw (member-later n hi b s.0) (ground arith)

  Sorted-right : (key : ℕ → K) (a b : List ℕ) → Sorted compare key (a ++ b) → Sorted compare key b
  Sorted-right key [] b s = s
  Sorted-right key (n ∷ a) b s = Sorted-right key a b s.1

  contains-found :
      (f : ℕ) (k : K) (prev : ℕ → ℕ) (r : Option ℕ) (s : SkipList K)
      → find_greater_or_equal compare f k (λ i. head) s ≡ some (r, prev)
      → contains compare f k s
        ≡ some (elim r [ none ↦ false | some n ↦ is_same (compare k (s.key n)) ])
  unfolding contains
  contains-found f k prev r s e = rw e refl

  -- `contains` ends and tells whether some key of the list compares the same.
  pub contains-member :
      (ord : IsOrder compare) (f : ℕ) (k : K) (s : SkipList K) (order : List ℕ) (keys : List K)
      → Holds compare order keys s
      → length order + max_levels ≤ f
      → contains compare f k s ≡ some (member k keys)
  contains-member ord f k s order keys (tall, v, e) b =
      let (lo, hi, split, below, above) = split_order compare ord s.key k order v.sorted in
      let v' = subst (λ (o : List ℕ). Inv compare tall o s) split v in
      let (prev, r, found) =
        find_lem compare s k tall lo hi v' below above f (λ i. head)
          (subst (λ (o : List ℕ). length o + max_levels ≤ f) split b) in
      contains-found f k prev (first hi) s r
      ∙ ap some (sym (member-first ord s.key k hi above (Sorted-right s.key lo hi v'.sorted)))
      ∙ ap some (sym (member-Below ord s.key k lo (map s.key hi) below))
      ∙ ap (λ (ys : List K). some (member k ys))
          (sym (map-append s.key lo hi) ∙ ap (map s.key) (sym split) ∙ e)

  untouched :
      (n i : ℕ) (s : SkipList K) (l : ℕ) → l < i → (clear_links n i s).next head l ≡ s.next head l
  unfolding clear_links set_next
  untouched zero i s l p = refl
  untouched (suc n) i s l p =
      untouched n (i + 1) (set_next head i none s) l (omega arith) ∙ ground arith

  cleared :
      (n i : ℕ) (s : SkipList K) (l : ℕ)
      → i ≤ l
      → l < i + n
      → (clear_links n i s).next head l ≡ none
  unfolding clear_links
  cleared zero i s l p q = absurd (omega arith)
  cleared (suc n) i s l p q = elim (Bool-cases (l == i)) [
    | inl here ↦
        untouched n (i + 1) (set_next head i none s) l (ground arith)
        ∙ unfold set_next in ground arith
    | inr later ↦ cleared n (i + 1) (set_next head i none s) l (ground arith) (omega arith)
  ]

  -- The constructor's list is empty.
  pub Holds-new_skip_list :
      (any : K) (links : ℕ → ℕ → Option ℕ) → Holds compare [] [] (new_skip_list any links)
  unfolding at_level new_skip_list clear_links set_next
  Holds-new_skip_list any links = (
    λ n. 0,
    record {
      linked = λ l p.
          cleared max_levels 0
            (record { max_height = 1; seed = new_random 0xdeadbeef; key = λ n. any; next = links })
            l (omega arith) (omega arith);
      sorted = tt;
      apart = (tt, tt);
      heights = tt;
      at_least = omega arith;
      at_most = omega arith;
    },
    refl,
  )
