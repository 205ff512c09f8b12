-- ===== src/Random/Next.antt =====
-- random.h: the seeds and the ranges of the generator.
use simple_leveldb.Base.{ℕ, ◌+◌, ◌*◌, ◌%◌, ◌^◌, ◌<◌, ◌≤◌, ◌≡◌, arith}
use simple_leveldb.Base.Bits.{bit_and_mask}
use simple_leveldb.Random.{modulus, multiplier, next, new_random, uniform, skewed}
use native.Mathlib.Nat.{mod-lt, pow-le-pow_right, one-le-pow}

-- A seed as the constructor makes it, and as `next` keeps it.
abbrev pub IsSeed : ℕ → Type 0
IsSeed seed = (0 < seed) × (seed < modulus)

pub new_random-IsSeed : (s : ℕ) → IsSeed (new_random s)
unfolding new_random
new_random-IsSeed s = ground (arith, bit_and_mask 31 s)

next_of : (seed : ℕ) → IsSeed seed → (next seed ≡ seed * multiplier % modulus) × IsSeed (next seed)
unfolding next
next_of seed h = ground (arith, bit_and_mask 31 (seed * multiplier))

-- For a seed from 1 to M - 1, `next` is the seed times A modulo M, in spite of the shift, the mask and
-- the single subtraction, and is again such a seed; and the constructor makes such a seed of any
-- number `s`.
pub next_lem :
    (seed s : ℕ)
    → IsSeed seed
    → (next seed ≡ seed * multiplier % modulus) × IsSeed (next seed) × IsSeed (new_random s)
next_lem seed s h = let (value, good) = next_of seed h in (value, good, new_random-IsSeed s)

-- From a seed of the constructor and for `max_log` up to 30, `uniform` gives a number below `n` and
-- `skewed` a number below 2 to the power of `max_log`, with a good seed again.
pub skewed_bounds :
    (seed n max_log : ℕ)
    → IsSeed seed
    → 0 < n
    → max_log ≤ 30
    → ((uniform seed n).0 < n)
      × ((skewed seed max_log).0 < 2 ^ max_log)
      × IsSeed (skewed seed max_log).1
unfolding uniform skewed
skewed_bounds seed n max_log h k m =
    let good = (next_of seed h).1 in
    let bits = next seed % (max_log + 1) in
    let few : bits < max_log + 1 = mod-lt (next seed) (omega arith) in
    let some' = one-le-pow bits 2 (omega arith) in
    let grows : 2 ^ bits ≤ 2 ^ max_log = pow-le-pow_right (omega arith) (omega arith) in
    let lt : next (next seed) % (1 * 2 ^ bits) < 1 * 2 ^ bits =
      mod-lt (next (next seed)) (omega arith) in
    (mod-lt (next seed) k, omega arith, (next_of (next seed) good).1)
