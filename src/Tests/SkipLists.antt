-- ===== src/Tests/SkipLists.antt =====
-- The skip list over slices, as the memory table uses it.
use mathlib.Core.List.{map}
use simple_leveldb.Base.{
  ℕ, ◌≡◌, refl, sym, ◌∙◌, arith, Option, none, some, List, [], ◌∷◌, Bytes, codes, ◌==◌,
  if◌then◌else◌, Bool-cases, inl, inr, ◌&&◌,
}
use simple_leveldb.Slice.{compare}
use simple_leveldb.Slice.Order.{
  compare-eq-lexicographic, lexicographic_trans, lexicographic-opposite, lexicographic-same_iff,
}
use simple_leveldb.SkipList.{SkipList, new_skip_list, contains}
use simple_leveldb.SkipList.Levels.{at_level, Linked}
use simple_leveldb.SkipList.Order.{IsOrder}
use simple_leveldb.SkipList.Holds.{Holds}
use simple_leveldb.SkipList.Contains.{member}
use simple_leveldb.SkipList.Build.{insert_all, sorted_keys, contains-insert_all}
use simple_leveldb.SkipList.Iterator
use simple_leveldb.SkipList.Iterator.Steps.{prev-next}

-- The order of slices is one that the list can rely on.
compare-IsOrder : IsOrder compare
compare-IsOrder = record {
  less_trans = λ a b c p q.
      compare-eq-lexicographic a c
      ∙ lexicographic_trans a b c (sym (compare-eq-lexicographic a b) ∙ p)
          (sym (compare-eq-lexicographic b c) ∙ q);
  less_of_greater = λ a b p. ground (
    arith,
    compare-eq-lexicographic a b,
    compare-eq-lexicographic b a,
    lexicographic-opposite a b,
  );
  less_same = λ a b c p q. ground (
    arith,
    compare-eq-lexicographic a b,
    compare-eq-lexicographic b c,
    compare-eq-lexicographic a c,
    lexicographic-same_iff b c,
  );
  same_self = λ a. compare-eq-lexicographic a a ∙ (lexicographic-same_iff a a).1 refl;
  same_flip = λ a b p. ground (
    arith,
    compare-eq-lexicographic a b,
    compare-eq-lexicographic b a,
    lexicographic-opposite a b,
  );
}

abbrev items : List (ℕ × Bytes)
items = (1, codes "pear") ∷ (2, codes "apple") ∷ (3, codes "fig") ∷ []

abbrev links : ℕ → ℕ → Option ℕ
links n l = some 7

contains-insert_all_example :
    (s : SkipList Bytes) × (order : List ℕ) × (insert_all compare 15
        (λ i. 9)
        items
        (new_skip_list [] links)
      ≡ some s)
    × Holds compare order (sorted_keys compare items []) s
    × ((k : Bytes) → contains compare 15 k s ≡ some (member compare k (map (λ i. i.1) items)))
unfolding compare
contains-insert_all_example =
    contains-insert_all compare compare-IsOrder 15 (λ i. 9) items [] links
      (
        λ e. absurd (omega arith),
        (
          (λ e. absurd (omega arith), λ e. absurd (ground arith)),
          ((λ e. absurd (omega arith), λ e. absurd (ground arith)), tt),
        ),
        (
          λ e. absurd (omega arith),
          ((λ e. absurd (omega arith), λ e. absurd (ground arith)), tt),
          (λ e. absurd (omega arith), tt, tt),
        ),
      )
      (omega arith)

-- A list of two nodes, linked on the lowest level.
abbrev two_nodes : SkipList Bytes
two_nodes = record {
  max_height = 1;
  seed = 5;
  key = λ n. n ∷ [];
  next = λ n l. if l == 0 && n == 0 then some 1 else if l == 0 && n == 1 then some 2 else none;
}

two_nodes-Linked : (l : ℕ) → Linked two_nodes.next l 0 (at_level (λ n. 1) l (1 ∷ 2 ∷ []))
unfolding at_level
two_nodes-Linked l = elim (Bool-cases (l == 0)) [
  | inl bottom ↦ let e : 0 ≡ l = ground arith in rw (← e) (refl, (refl, refl))
  | inr higher ↦ ground arith
]

two_nodes-Holds : Holds compare (1 ∷ 2 ∷ []) ((1 ∷ []) ∷ (2 ∷ []) ∷ []) two_nodes
unfolding compare
two_nodes-Holds = (
  λ n. 1,
  record {
    linked = λ l p. two_nodes-Linked l;
    sorted = ((refl, tt), (tt, tt));
    apart = (
      (λ e. absurd (omega arith), (λ e. absurd (omega arith), tt)),
      ((λ e. absurd (omega arith), tt), (tt, tt)),
    );
    heights = ((omega arith, omega arith), ((omega arith, omega arith), tt));
    at_least = omega arith;
    at_most = omega arith;
  },
  refl,
)

prev-next_example :
    (Iterator.next two_nodes 1 ≡ some 2) × (Iterator.prev compare 14 two_nodes 2 ≡ some (some 1))
prev-next_example =
    prev-next compare compare-IsOrder 14 two_nodes [] 1 2 [] ((1 ∷ []) ∷ (2 ∷ []) ∷ [])
      two_nodes-Holds (omega arith)
