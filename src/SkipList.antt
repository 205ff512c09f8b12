-- ===== src/SkipList.antt =====
-- leveldb/__detail/skip_list.h: the skip list, over any type of keys and comparator. A node is
-- a number, the address that the arena gave it, and `none` is the null pointer; the head is node 0.
-- Loads and stores of links are reads and writes, as one thread sees them.
pub mod Levels
pub mod Search
pub mod Links
pub mod Order
pub mod Middle
pub mod Find
pub mod Insert
pub mod Holds
pub mod Contains
pub mod Build
pub mod Iterator
use simple_leveldb.Base.{
  ℕ, zero, suc, ◌+◌, ◌-◌, Bool, true, false, Option, none, some, ltb, ◌==◌, ◌||◌, if◌then◌else◌,
  ◌>>=◌,
}
use simple_leveldb.Slice.{Sign, less, same, greater, is_same}
use simple_leveldb.Random.{new_random, one_in}

-- `kMaxHeight` and `kBranching`
abbrev pub max_levels : ℕ
max_levels = 12

abbrev pub branching : ℕ
branching = 4

abbrev pub head : ℕ
head = 0

-- The keys of the nodes and the links by level, `max_height_` and the seed of `rnd_`.
pub record SkipList (K : Type 0) : Type 0 where
  pub max_height : ℕ
  pub seed : ℕ
  pub key : ℕ → K
  pub next : ℕ → ℕ → Option ℕ

abbrev pub is_less : Sign → Bool
is_less less = true
is_less _ = false

-- A function with one value changed.
abbrev pub update {ℓ} : {A : Type ℓ} → (ℕ → A) → ℕ → A → ℕ → A
update f i v j = if j == i then v else f j

-- `while ( height < kMaxHeight && rnd_.one_in( kBranching ) )`, with the levels that are left.
unfoldable pub height_loop : ℕ → ℕ → ℕ → ℕ × ℕ
height_loop zero height seed = (height, seed)
height_loop (suc left) height seed =
    let (hit, seed') = one_in seed branching in
    let higher = height_loop left (height + 1) seed' in if hit then higher else (height, seed')

-- The height and the next seed.
unfoldable pub random_height : ℕ → ℕ × ℕ
unfolding height_loop
random_height seed = height_loop (max_levels - 1) 1 seed

-- `for ( int i = get_max_height(); i < height; i++ ) prev[ i ] = head_`
unfoldable pub raise_prev : ℕ → ℕ → (ℕ → ℕ) → ℕ → ℕ
raise_prev zero i prev = prev
raise_prev (suc n) i prev = raise_prev n (i + 1) (update prev i head)

-- The node of a pointer that is not null.
abbrev pub node_or : ℕ → Option ℕ → ℕ
node_or d none = d
node_or d (some n) = n

module _ {K : Type 0} where
  -- `node::set_next`
  unfoldable pub set_next : ℕ → ℕ → Option ℕ → SkipList K → SkipList K
  set_next n level x s = record s { next = update s.next n (update (s.next n) level x) }

  -- `new_node`, at the address that the arena returned.
  unfoldable pub new_node : ℕ → K → SkipList K → SkipList K
  new_node x key s = record s { key = update s.key x key }

  -- The loop of the constructor.
  unfoldable pub clear_links : ℕ → ℕ → SkipList K → SkipList K
  unfolding set_next
  clear_links zero i s = s
  clear_links (suc n) i s = clear_links n (i + 1) (set_next head i none s)

  -- The constructor; `any` is the key of the head, and `links` what its memory held.
  unfoldable pub new_skip_list : K → (ℕ → ℕ → Option ℕ) → SkipList K
  unfolding clear_links
  new_skip_list any links =
      clear_links max_levels 0
        (record { max_height = 1; seed = new_random 0xdeadbeef; key = λ n. any; next = links })

  -- The new node at one level: it points where `prev` did, and `prev` points to it.
  unfoldable pub link_level : ℕ → ℕ → ℕ → SkipList K → SkipList K
  unfolding set_next
  link_level x p i s = set_next p i (some x) (set_next x i (s.next p i) s)

  -- The last loop of `insert`.
  unfoldable pub link_loop : ℕ → ℕ → ℕ → (ℕ → ℕ) → SkipList K → SkipList K
  unfolding link_level
  link_loop zero i x prev s = s
  link_loop (suc n) i x prev s = link_loop n (i + 1) x prev (link_level x (prev i) i s)

  module _ (compare : K → K → Sign) where
    -- `key_is_after_node`; a null node is infinite.
    unfoldable pub key_is_after_node : K → Option ℕ → SkipList K → Bool
    key_is_after_node key none s = false
    key_is_after_node key (some n) s = is_less (compare (s.key n) key)

    -- The loop of `find_greater_or_equal`: the node that it returns, and `prev`.
    unfoldable pub find_loop : ℕ → K → ℕ → ℕ → (ℕ → ℕ) → SkipList K → Option (Option ℕ × (ℕ → ℕ))
    unfolding key_is_after_node
    find_loop zero key x level prev s = none
    find_loop (suc f) key x level prev s =
        let next = s.next x level in
        let ahead = find_loop f key (node_or x next) level prev s in
        let prev' = update prev level x in
        let lower = find_loop f key x (level - 1) prev' s in
        if key_is_after_node key next s
        then ahead
        else if level == 0
        then some (next, prev')
        else lower

    -- The fuel is for the steps along the levels, one at most for each node, and down.
    unfoldable pub find_greater_or_equal :
        ℕ → K → (ℕ → ℕ) → SkipList K → Option (Option ℕ × (ℕ → ℕ))
    unfolding find_loop
    find_greater_or_equal f key prev s = find_loop f key head (s.max_height - 1) prev s

    -- The assertion of `find_less_than`.
    unfoldable pub is_before : K → ℕ → SkipList K → Bool
    is_before key x s = x == head || is_less (compare (s.key x) key)

    -- The loop of `find_less_than`. `none` also means that the assertion failed.
    unfoldable pub less_loop : ℕ → K → ℕ → ℕ → SkipList K → Option ℕ
    unfolding key_is_after_node is_before
    less_loop zero key x level s = none
    less_loop (suc f) key x level s =
        let next = s.next x level in
        let ahead = less_loop f key (node_or x next) level s in
        let lower = less_loop f key x (level - 1) s in
        if is_before key x s
        then (if key_is_after_node key next s then ahead else if level == 0 then some x else lower)
        else none

    unfoldable pub find_less_than : ℕ → K → SkipList K → Option ℕ
    unfolding less_loop
    find_less_than f key s = less_loop f key head (s.max_height - 1) s

    -- `insert`, with the address of the new node; `prev` holds what the stack held.
    unfoldable pub insert : ℕ → ℕ → K → (ℕ → ℕ) → SkipList K → Option (SkipList K)
    unfolding find_greater_or_equal random_height raise_prev new_node link_loop
    insert f x key prev s = do
      (_, prev') ← find_greater_or_equal f key prev s
      let (height, seed) = random_height s.seed
      let raised = raise_prev (height - s.max_height) s.max_height prev'
      let higher = if ltb s.max_height height then height else s.max_height
      let s' = new_node x key (record s { max_height = higher; seed = seed })
      some (link_loop height 0 x raised s')

    unfoldable pub contains : ℕ → K → SkipList K → Option Bool
    unfolding find_greater_or_equal
    contains f key s = do
      (x, _) ← find_greater_or_equal f key (λ i. head) s
      some (elim x [ none ↦ false | some n ↦ is_same (compare key (s.key n)) ])

  -- The loop of `find_last`.
  unfoldable pub last_loop : ℕ → ℕ → ℕ → SkipList K → Option ℕ
  last_loop zero x level s = none
  last_loop (suc f) x level s =
      let lower = last_loop f x (level - 1) s in
      let ahead = last_loop f (node_or x (s.next x level)) level s in
      let down = if level == 0 then some x else lower in
      elim (s.next x level) [ none ↦ down | some n ↦ ahead ]

  unfoldable pub find_last : ℕ → SkipList K → Option ℕ
  unfolding last_loop
  find_last f s = last_loop f head (s.max_height - 1) s
