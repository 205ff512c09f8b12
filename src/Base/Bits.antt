-- ===== src/Base/Bits.antt =====
-- `|` of disjoint fields, `|` and `&` cut to their low digits, and masks, at every width.
use Prim.Native.Nat.{
  ℕ, zero, suc, ◌+◌, ◌-◌, ◌*◌, ◌/◌, ◌%◌, ◌^◌, ◌≤◌, ◌<◌, min, max, bit_and, bit_or, digits, bitwise,
  bit_and-bitwise, bit_or-bitwise,
}
use mathlib.Core.Path.{◌≡◌, refl, ap, sym, ◌∙◌}
use mathlib.Core.Bool.{Bool, true, ◌&&◌}
use native.Mathlib.Nat.{pow-suc, one-le-pow, mod-lt, mod-one, div-add-mod'}
use native.Mathlib.Omega.{arith}
use native.Mathlib.Decide.{dec_lt}
use simple_leveldb.Base.Tests.{◌==◌, ==_iff}

-- Whether `p` holds of all numbers below a bound: a table that is evaluated once.
unfoldable pub every_below : (ℕ → Bool) → ℕ → Bool
every_below p zero = true
every_below p (suc bound) = every_below p bound && p bound

pub every_below→ :
    (p : ℕ → Bool) (bound x : ℕ) → x < bound → every_below p bound ≡ true → p x ≡ true
unfolding every_below
every_below→ p zero x lt h = absurd (omega arith)
every_below→ p (suc bound) x lt h = elim (dec_lt x bound) [
  | yes below ↦ every_below→ p bound x below (ground (arith, h))
  | no last ↦ let same : x ≡ bound = omega arith in rw same (ground (arith, h))
]

module _ (z : ℕ → ℕ) (f : ℕ → ℕ → ℕ) where
  one_more : (n a b : ℕ) → a ≤ n → digits z f (suc n) a b ≡ digits z f n a b
  one_more zero zero b h = refl
  one_more zero (suc a) b h = absurd (omega arith)
  one_more (suc n) zero b h = refl
  one_more (suc n) (suc a) b h = rw (one_more n (suc a / 2) (b / 2) (omega arith)) refl

  -- Fuel that the first operand does not need changes no digit.
  spare_fuel : (n m a b : ℕ) → a ≤ m → m ≤ n → digits z f n a b ≡ digits z f m a b
  spare_fuel zero m a b h k = let none_left : m ≡ 0 = omega arith in rw none_left refl
  spare_fuel (suc n) m a b h k = elim (dec_lt n m) [
    | yes full ↦ let whole : m ≡ suc n = omega arith in rw whole refl
    | no less ↦ one_more n a b (omega arith) ∙ spare_fuel n m a b h (omega arith)
  ]

  -- The lowest digit of an operation on digits whose rule for no digits agrees with that for zeros.
  pub bitwise_digit :
      ((b : ℕ) → z b ≡ z (b / 2) * 2 + f 0 (b % 2))
      → (a b : ℕ) → bitwise z f a b ≡ bitwise z f (a / 2) (b / 2) * 2 + f (a % 2) (b % 2)
  bitwise_digit agrees zero b = agrees b
  bitwise_digit agrees (suc a) b =
      rw (spare_fuel a (suc a / 2) (suc a / 2) (b / 2) (omega arith) (omega arith)) refl

pub or_digit : (a b : ℕ) → bit_or a b ≡ bit_or (a / 2) (b / 2) * 2 + max (a % 2) (b % 2)
or_digit a b =
    bit_or-bitwise a b
    ∙ bitwise_digit (λ y. y) max (λ y. omega arith) a b
    ∙ ap (λ (t : ℕ). t * 2 + max (a % 2) (b % 2)) (sym (bit_or-bitwise (a / 2) (b / 2)))

pub and_digit : (a b : ℕ) → bit_and a b ≡ bit_and (a / 2) (b / 2) * 2 + min (a % 2) (b % 2)
and_digit a b =
    bit_and-bitwise a b
    ∙ bitwise_digit (λ y. 0) min (λ y. omega arith) a b
    ∙ ap (λ (t : ℕ). t * 2 + min (a % 2) (b % 2)) (sym (bit_and-bitwise (a / 2) (b / 2)))

double_pow : (q k : ℕ) → q * 2 ^ suc k ≡ q * 2 ^ k * 2
double_pow q k = omega (arith, ap (λ (t : ℕ). q * t) (pow-suc 2 k))

-- A field put above `k` bits of another is added.
pub bit_or_above : (k a b : ℕ) → a < 2 ^ k → bit_or a (b * 2 ^ k) ≡ a + b * 2 ^ k
bit_or_above zero a b h =
    let none_left : a ≡ 0 = omega arith in rw none_left (omega (arith, bit_or-bitwise 0 (b * 1)))
bit_or_above (suc k) a b h = ground (
  arith,
  or_digit a (b * 2 ^ suc k),
  double_pow b k,
  pow-suc 2 k,
  bit_or_above k (a / 2) b (omega (arith, pow-suc 2 k)),
)

-- `&` with no bits, for operands that fit `k`.
and_none : (k a : ℕ) → a < 2 ^ k → bit_and a 0 ≡ 0
and_none zero a h = let nothing : a ≡ 0 = omega arith in rw nothing refl
and_none (suc k) a h =
    omega (arith, and_digit a 0, pow-suc 2 k, and_none k (a / 2) (omega (arith, pow-suc 2 k)))

pub below_two_pow : (n : ℕ) → n < 2 ^ n
below_two_pow zero = omega arith
below_two_pow (suc n) = omega (arith, below_two_pow n, pow-suc 2 n)

-- A remainder is known from a quotient that fits.
pub mod_of_parts : (q r a m : ℕ) → r < m → a ≡ q * m + r → a % m ≡ r
mod_of_parts q r a m h e = rw e (mul-add-mod q r m h)
  where
    mul-add-mod : (q r m : ℕ) → r < m → (q * m + r) % m ≡ r
    mul-add-mod q r m h = grind arith

twice_mod : (q r a p : ℕ) → r < p → a / 2 ≡ q * p + r → a % (p * 2) ≡ r * 2 + a % 2
twice_mod q r a p h e =
    mod_of_parts q (r * 2 + a % 2) a (p * 2) (omega arith) (omega (arith, ap (λ (t : ℕ). t * 2) e))

-- The low digits of a number: those of its half, and its last digit.
pub mod_two_pow-suc : (k a : ℕ) → a % 2 ^ suc k ≡ a / 2 % 2 ^ k * 2 + a % 2
mod_two_pow-suc k a = rw (pow-suc 2 k) (
    twice_mod (a / 2 / 2 ^ k) (a / 2 % 2 ^ k) a (2 ^ k)
      (mod-lt (a / 2) (one-le-pow k 2 (omega arith))) (omega (arith, div-add-mod' (a / 2) (2 ^ k))))

-- A mask of `k` ones keeps the low `k` bits.
pub bit_and_mask : (k a : ℕ) → bit_and a (2 ^ k - 1) ≡ a % 2 ^ k
bit_and_mask zero a = omega (arith, and_none a a (below_two_pow a))
bit_and_mask (suc k) a = ground (
  arith,
  and_digit a (2 ^ suc k - 1),
  pow-suc 2 k,
  one-le-pow k 2 (omega arith),
  mod_two_pow-suc k a,
  bit_and_mask k (a / 2),
)

-- The low digits of `a | b` are those of `a` and of `b`.
pub bit_or-mod : (k a b : ℕ) → bit_or a b % 2 ^ k ≡ bit_or (a % 2 ^ k) (b % 2 ^ k)
bit_or-mod zero a b = mod-one (bit_or a b) ∙ sym (rw (mod-one a, mod-one b) (bit_or-bitwise 0 0))
bit_or-mod (suc k) a b = ground (
  arith,
  mod_two_pow-suc k (bit_or a b),
  mod_two_pow-suc k a,
  mod_two_pow-suc k b,
  or_digit a b,
  or_digit (a % 2 ^ suc k) (b % 2 ^ suc k),
  bit_or-mod k (a / 2) (b / 2),
)

pub bit_or-lt : (k a b : ℕ) → a < 2 ^ k → b < 2 ^ k → bit_or a b < 2 ^ k
bit_or-lt zero a b p q =
    let ea : a ≡ 0 = omega arith in
    let eb : b ≡ 0 = omega arith in rw (ea, eb) (omega (arith, bit_or-bitwise 0 0))
bit_or-lt (suc k) a b p q = omega (
  arith,
  pow-suc 2 k,
  or_digit a b,
  bit_or-lt k (a / 2) (b / 2) (omega (arith, pow-suc 2 k)) (omega (arith, pow-suc 2 k)),
)

-- A byte has its top bit set exactly when it is at least 128.
top_bit_table : every_below (λ b. bit_and b 128 == b / 128 * 128) 256 ≡ true
unfolding every_below
top_bit_table = refl

pub bit_and_top : (b : ℕ) → b < 256 → bit_and b 128 ≡ b / 128 * 128
bit_and_top b h =
    (==_iff (bit_and b 128) (b / 128 * 128)).0
      (every_below→ (λ c. bit_and c 128 == c / 128 * 128) 256 b h top_bit_table)

-- `(uint8_t)(v | 128)`
or_top_table : every_below (λ b. bit_or b 128 == b % 128 + 128) 256 ≡ true
unfolding every_below
or_top_table = refl

pub bit_or_top : (v : ℕ) → bit_or v 128 % 2 ^ 8 ≡ v % 128 + 128
bit_or_top v =
    let w = v % 256 in
    omega (
      arith,
      bit_or-mod 8 v 128,
      (==_iff (bit_or w 128) (w % 128 + 128)).0
          (every_below→ (λ b. bit_or b 128 == b % 128 + 128) 256 w (omega arith) or_top_table),
    )

bit_or_comm_below : (k a b : ℕ) → a < 2 ^ k → b < 2 ^ k → bit_or a b ≡ bit_or b a
bit_or_comm_below zero a b p q =
    let ea : a ≡ 0 = omega arith in let eb : b ≡ 0 = omega arith in rw (ea, eb) refl
bit_or_comm_below (suc k) a b p q = omega (
  arith,
  or_digit a b,
  or_digit b a,
  pow-suc 2 k,
  bit_or_comm_below k (a / 2) (b / 2) (omega (arith, pow-suc 2 k)) (omega (arith, pow-suc 2 k)),
)

pub bit_or_comm : (a b : ℕ) → bit_or a b ≡ bit_or b a
bit_or_comm a b =
    bit_or_comm_below (a + b) a b (omega (arith, below_two_pow (a + b)))
      (omega (arith, below_two_pow (a + b)))

bit_and-le_below : (k a b : ℕ) → a < 2 ^ k → b < 2 ^ k → bit_and a b ≤ b
bit_and-le_below zero a b p q =
    let ea : a ≡ 0 = omega arith in let eb : b ≡ 0 = omega arith in rw (ea, eb) (omega arith)
bit_and-le_below (suc k) a b p q = omega (
  arith,
  and_digit a b,
  pow-suc 2 k,
  bit_and-le_below k (a / 2) (b / 2) (omega (arith, pow-suc 2 k)) (omega (arith, pow-suc 2 k)),
)

-- A mask bounds what it leaves.
pub bit_and-le : (a b : ℕ) → bit_and a b ≤ b
bit_and-le a b =
    bit_and-le_below (a + b) a b (omega (arith, below_two_pow (a + b)))
      (omega (arith, below_two_pow (a + b)))
