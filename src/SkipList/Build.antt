-- ===== src/SkipList/Build.antt =====
-- leveldb/__detail/skip_list.h: lists built by calls of `insert` from the constructor's.
use mathlib.Core.List.{map}
use simple_leveldb.Base.{
  ℕ, ◌+◌, ◌≤◌, ◌≡◌, ◌≢◌, refl, ap, ◌∙◌, subst, arith, Bool, false, Option, some, List, [], ◌∷◌,
  ◌++◌, All, length, length-append, ◌>>=◌, ◌||◌, Bool-cases, inl, inr,
}
use simple_leveldb.Slice.{Sign, same, is_same}
use simple_leveldb.SkipList.{SkipList, max_levels, head, is_less, new_skip_list, insert, contains}
use simple_leveldb.SkipList.Order.{IsOrder, insert_key}
use simple_leveldb.SkipList.Middle.{All-insert}
use simple_leveldb.SkipList.Holds.{Holds, insert_lem}
use simple_leveldb.SkipList.Contains.{member, contains-member, Holds-new_skip_list}

module _ {K : Type 0} (compare : K → K → Sign) where
  -- Calls of `insert`, each with the address of its node and its key.
  unfoldable pub insert_all : ℕ → (ℕ → ℕ) → List (ℕ × K) → SkipList K → Option (SkipList K)
  insert_all f prev [] s = some s
  insert_all f prev ((x, k) ∷ items) s = do
    s' ← insert compare f x k prev s
    insert_all f prev items s'

  unfoldable pub sorted_keys : List (ℕ × K) → List K → List K
  sorted_keys [] keys = keys
  sorted_keys ((x, k) ∷ items) keys = sorted_keys items (insert_key compare k keys)

  -- The items have addresses and keys that differ, and no address is that of the head.
  abbrev pub Differ : List (ℕ × K) → Type 0
  Differ [] = Unit
  Differ (i ∷ items) =
      (i.0 ≢ head) × All (λ j. (j.0 ≢ i.0) × (compare i.1 j.1 ≢ same)) items × Differ items

  -- An item is new to a list.
  abbrev New : List ℕ → List K → ℕ × K → Type 0
  New order keys j = All (λ n. j.0 ≢ n) order × All (λ y. compare y j.1 ≢ same) keys

  All-insert_key {κ} :
      (P : K → Type κ) (k : K) (keys : List K)
      → P k
      → All P keys
      → All P (insert_key compare k keys)
  unfolding insert_key
  All-insert_key P k [] p a = (p, tt)
  All-insert_key P k (y ∷ keys) p a = elim (Bool-cases (is_less (compare y k))) [
    | inl less ↦ rw less (a.0, All-insert_key P k keys p a.1)
    | inr more ↦ rw more (p, a)
  ]

  member-insert_key :
      (k y : K) (keys : List K)
      → member compare k (insert_key compare y keys)
        ≡ (is_same (compare k y) || member compare k keys)
  unfolding insert_key member
  member-insert_key k y [] = refl
  member-insert_key k y (z ∷ keys) = ground (arith, member-insert_key k y keys)

  New-insert :
      (x : ℕ) (k : K) (lo hi : List ℕ) (keys : List K) (items : List (ℕ × K))
      → All (λ j. (j.0 ≢ x) × (compare k j.1 ≢ same)) items
      → All (New (lo ++ hi) keys) items
      → All (New (lo ++ x ∷ hi) (insert_key compare k keys)) items
  New-insert x k lo hi keys [] d a = tt
  New-insert x k lo hi keys (j ∷ items) d a = (
    (
      All-insert (λ n. j.0 ≢ n) lo x hi a.0.0 d.0.0,
      All-insert_key (λ y. compare y j.1 ≢ same) k keys d.0.1 a.0.1,
    ),
    New-insert x k lo hi keys items d.1 a.1,
  )

  insert_all_lem :
      (ord : IsOrder compare) (f : ℕ) (prev : ℕ → ℕ) (items : List (ℕ × K)) (s : SkipList K)
      (order : List ℕ) (keys : List K)
      → Holds compare order keys s
      → Differ items
      → All (New order keys) items
      → length items + length order + max_levels ≤ f
      → (s' : SkipList K) × (order' : List ℕ) × (insert_all f prev items s ≡ some s')
        × Holds compare order' (sorted_keys items keys) s'
        × (length order' ≡ length items + length order)
  unfolding insert_all sorted_keys
  insert_all_lem ord f prev [] s order keys h d new b = (s, order, refl, h, omega arith)
  insert_all_lem ord f prev ((x, k) ∷ items) s order keys h d new b =
      let (s', lo, hi, r, split, h') =
        insert_lem compare ord f x k prev s order keys h (d.0, new.0.0) new.0.1 (omega arith) in
      let sized : length (lo ++ x ∷ hi) ≡ length order + 1 =
        omega (arith, length-append lo (x ∷ hi), length-append lo hi, ap length split) in
      let new' = subst (λ (o : List ℕ). All (New o keys) items) split new.1 in
      let (s'', order'', r', h'', l) =
        insert_all_lem ord f prev items s' (lo ++ x ∷ hi) (insert_key compare k keys) h' d.2
          (New-insert x k lo hi keys items d.1 new') (omega arith) in
      (s'', order'', rw r r', h'', omega arith)

  member-sorted_keys :
      (k : K) (items : List (ℕ × K)) (keys : List K)
      → member compare k (sorted_keys items keys)
        ≡ (member compare k (map (λ i. i.1) items) || member compare k keys)
  unfolding sorted_keys member
  member-sorted_keys k [] keys = refl
  member-sorted_keys k ((x, y) ∷ items) keys =
      ground
        (arith, member-sorted_keys k items (insert_key compare y keys), member-insert_key k y keys)

  nothing_old : (items : List (ℕ × K)) → All (New [] []) items
  nothing_old [] = tt
  nothing_old (j ∷ items) = ((tt, tt), nothing_old items)

  -- Over any comparator that orders the keys, keys that differ are put into nodes that differ, by
  -- `insert` on the constructor's list: each call ends, whatever the heights drawn are. The list
  -- that is left holds the keys in order, its links at each of the 12 levels run through nodes in
  -- the order of their keys, and `contains` ends and tells for any key whether one that compares
  -- the same was put in.
  pub contains-insert_all :
      (ord : IsOrder compare) (f : ℕ) (prev : ℕ → ℕ) (items : List (ℕ × K)) (any : K)
      (links : ℕ → ℕ → Option ℕ)
      → Differ items
      → length items + max_levels ≤ f
      → (s : SkipList K) × (order : List ℕ) × (insert_all f prev items (new_skip_list any links)
          ≡ some s)
        × Holds compare order (sorted_keys items []) s
        × ((k : K) → contains compare f k s ≡ some (member compare k (map (λ i. i.1) items)))
  contains-insert_all ord f prev items any links d b =
      let (s, order, r, h, l) =
        insert_all_lem ord f prev items (new_skip_list any links) [] []
          (Holds-new_skip_list compare any links) d (nothing_old items) (omega arith) in
      (
        s,
        order,
        r,
        h,
        λ k.
            contains-member compare ord f k s order (sorted_keys items []) h (omega arith)
            ∙ ap some (
                member-sorted_keys k items []
                ∙ right (member compare k (map (λ i. i.1) items)) (member compare k [])
                    (unfold member in refl)),
      )
    where
      right : (b c : Bool) → c ≡ false → (b || c) ≡ b
      right b c e = ground arith
