-- ===== src/Random.antt =====
-- util/random.h: the generator of pseudo-random numbers. A call gives its number and the next seed.
pub mod Next
use simple_leveldb.Base.{
  ℕ, ◌+◌, ◌-◌, ◌*◌, ◌/◌, ◌%◌, ◌^◌, Bool, ◌||◌, ltb, ◌==◌, if◌then◌else◌, bit_and, u32, u64, shr,
  shl,
}

-- The constructor: the seed of a new generator.
unfoldable pub new_random : ℕ → ℕ
new_random s =
    let seed = bit_and s 0x7fffffff in if seed == 0 || seed == 2147483647 then 1 else seed

-- `M` and `A`.
abbrev pub modulus : ℕ
modulus = 2147483647

abbrev pub multiplier : ℕ
multiplier = 16807

-- The number returned is the new seed.
unfoldable pub next : ℕ → ℕ
next seed =
    let product = u64 (seed * multiplier) in
    let reduced = u32 (shr product 31 + bit_and product modulus) in
    if ltb modulus reduced then reduced - modulus else reduced

unfoldable pub uniform : ℕ → ℕ → ℕ × ℕ
unfolding next
uniform seed n = let seed' = next seed in (seed' % n, seed')

unfoldable pub one_in : ℕ → ℕ → Bool × ℕ
unfolding next
one_in seed n = let seed' = next seed in (seed' % n == 0, seed')

-- `1 << uniform( max_log + 1 )`, and a number below it.
unfoldable pub skewed : ℕ → ℕ → ℕ × ℕ
unfolding uniform
skewed seed max_log = let (bits, seed') = uniform seed (max_log + 1) in uniform seed' (shl 1 bits)
