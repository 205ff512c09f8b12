-- ===== src/SkipList/Find.antt =====
-- leveldb/__detail/skip_list.h: the height of a node, and the search before `insert`.
use simple_leveldb.Base.{
  ℕ, zero, suc, ◌+◌, ◌-◌, ◌≤◌, ◌<◌, ◌≡◌, ◌≢◌, refl, arith, some, List, ◌++◌, All, length,
  length-append, ltb, leb, if◌then◌else◌, ◌&&◌,
}
use simple_leveldb.Random
use simple_leveldb.Slice.{Sign}
use simple_leveldb.SkipList.{
  SkipList, max_levels, head, update, height_loop, random_height, raise_prev, find_greater_or_equal,
}
use simple_leveldb.SkipList.Levels.{Heights, at_level, last_from, first}
use simple_leveldb.SkipList.Search.{find_loop_lem}
use simple_leveldb.SkipList.Links.{All-left}
use simple_leveldb.SkipList.Order.{Inv, Below, NotBelow}
use simple_leveldb.SkipList.Middle.{All-right, All-other}

height_loop_bounds :
    (left height seed : ℕ)
    → (height ≤ (height_loop left height seed).0)
      × ((height_loop left height seed).0 ≤ height + left)
unfolding height_loop
height_loop_bounds zero height seed = (omega arith, omega arith)
height_loop_bounds (suc left) height seed =
    ground (arith, height_loop_bounds left (height + 1) (Random.one_in seed 4).1)

-- A height lies between 1 and 12.
pub random_height_bounds :
    (seed : ℕ) → (1 ≤ (random_height seed).0) × ((random_height seed).0 ≤ max_levels)
unfolding random_height
random_height_bounds seed = height_loop_bounds 11 1 seed

pub raise_prev_lem :
    (n i : ℕ) (prev : ℕ → ℕ) (l : ℕ)
    → raise_prev n i prev l ≡ (if leb i l && ltb l (i + n) then head else prev l)
unfolding raise_prev
raise_prev_lem zero i prev l = ground arith
raise_prev_lem (suc n) i prev l = ground (arith, raise_prev_lem n (i + 1) (update prev i head) l)

-- The fuel that is enough, and the search of a key.
module _ {K : Type 0} (compare : K → K → Sign) (s : SkipList K) (key : K) (tall : Heights)
    (lo hi : List ℕ) (v : Inv compare tall (lo ++ hi) s) (below : Below compare s.key key lo)
    (above : NotBelow compare s.key key hi) where
  lo_tall : All (λ n. 1 ≤ tall n) lo
  lo_tall =
      All-left (λ n. 1 ≤ tall n) lo hi
        (All-other (λ n. (1 ≤ tall n) × (tall n ≤ s.max_height)) (λ n. 1 ≤ tall n) (λ n. head ≢ n)
          (lo ++ hi) (λ n r p. p.0) v.apart.0 v.heights)

  hi_tall : All (λ n. 1 ≤ tall n) hi
  hi_tall =
      All-right (λ n. 1 ≤ tall n) lo hi
        (All-other (λ n. (1 ≤ tall n) × (tall n ≤ s.max_height)) (λ n. 1 ≤ tall n) (λ n. head ≢ n)
          (lo ++ hi) (λ n r p. p.0) v.apart.0 v.heights)

  pub find_lem :
      (f : ℕ) (prev : ℕ → ℕ)
      → length (lo ++ hi) + max_levels ≤ f
      → (prev' : ℕ → ℕ) × (find_greater_or_equal compare f key prev s ≡ some (first hi, prev'))
        × ((l : ℕ) → l < s.max_height → prev' l ≡ last_from head (at_level tall l lo))
  unfolding find_greater_or_equal
  find_lem f prev h =
      let (prev', r, found, rest) =
        find_loop_lem compare s key tall lo hi above hi_tall f (s.max_height - 1) head lo prev
          (record {
            linked = λ l p. v.linked l (omega (arith, v.at_least, v.at_most));
            last = λ l p. refl;
            lows = below;
            mid_tall = lo_tall;
          })
          (omega (arith, length-append lo hi, v.at_least, v.at_most)) in
      (prev', r, λ l p. found l (omega (arith, v.at_least)))
