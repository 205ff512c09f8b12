-- ===== src/Base/Xor.antt =====
-- `^` digit by digit.
use Prim.Native.Nat.{ℕ, zero, suc, ◌+◌, ◌*◌, ◌/◌, ◌%◌, ◌^◌, ◌<◌, bit_xor, bit_xor-bitwise, differ}
use mathlib.Core.Path.{◌≡◌, refl, ap, sym, ◌∙◌}
use native.Mathlib.Nat.{pow-suc}
use native.Mathlib.Omega.{arith}
use simple_leveldb.Base.Bits.{bitwise_digit, below_two_pow}

differ_digits : (x y : ℕ) → x < 2 → y < 2 → differ x y ≡ (x + y) % 2
differ_digits zero y p q = omega arith
differ_digits (suc zero) zero p q = refl
differ_digits (suc zero) (suc zero) p q = refl
differ_digits (suc zero) (suc (suc y)) p q = absurd (omega arith)
differ_digits (suc (suc x)) y p q = absurd (omega arith)

pub xor_digit : (a b : ℕ) → bit_xor a b ≡ bit_xor (a / 2) (b / 2) * 2 + (a % 2 + b % 2) % 2
xor_digit a b =
    bit_xor-bitwise a b
    ∙ bitwise_digit (λ y. y) differ (λ y. omega arith) a b
    ∙ ap (λ (t : ℕ). t * 2 + differ (a % 2) (b % 2)) (sym (bit_xor-bitwise (a / 2) (b / 2)))
    ∙ ap (λ (t : ℕ). bit_xor (a / 2) (b / 2) * 2 + t)
        (differ_digits (a % 2) (b % 2) (omega arith) (omega arith))

pub bit_xor-lt : (k a b : ℕ) → a < 2 ^ k → b < 2 ^ k → bit_xor a b < 2 ^ k
bit_xor-lt zero a b p q =
    let ea : a ≡ 0 = omega arith in
    let eb : b ≡ 0 = omega arith in rw (ea, eb) (omega (arith, bit_xor-bitwise 0 0))
bit_xor-lt (suc k) a b p q = omega (
  arith,
  xor_digit a b,
  pow-suc 2 k,
  bit_xor-lt k (a / 2) (b / 2) (omega (arith, pow-suc 2 k)) (omega (arith, pow-suc 2 k)),
)

xor_twice_below : (k a b : ℕ) → a < 2 ^ k → b < 2 ^ k → bit_xor (bit_xor a b) b ≡ a
xor_twice_below zero a b p q =
    let ea : a ≡ 0 = omega arith in let eb : b ≡ 0 = omega arith in rw (ea, eb) refl
xor_twice_below (suc k) a b p q = omega (
  arith,
  xor_digit a b,
  xor_digit (bit_xor a b) b,
  pow-suc 2 k,
  half,
  xor_twice_below k (a / 2) (b / 2) (omega (arith, pow-suc 2 k)) (omega (arith, pow-suc 2 k)),
)
  where
    half : bit_xor (bit_xor a b / 2) (b / 2) ≡ bit_xor (bit_xor (a / 2) (b / 2)) (b / 2)
    half = ap (λ t. bit_xor t (b / 2)) (omega (arith, xor_digit a b))

-- A second `^` with the same number undoes the first.
pub xor_twice : (a b : ℕ) → bit_xor (bit_xor a b) b ≡ a
xor_twice a b =
    xor_twice_below (a + b) a b (omega (arith, below_two_pow (a + b)))
      (omega (arith, below_two_pow (a + b)))

pub xor_half : (a b : ℕ) → bit_xor a b / 2 ≡ bit_xor (a / 2) (b / 2)
xor_half a b = omega (arith, xor_digit a b)

xor_comm_below : (k a b : ℕ) → a < 2 ^ k → b < 2 ^ k → bit_xor a b ≡ bit_xor b a
xor_comm_below zero a b p q =
    let ea : a ≡ 0 = omega arith in let eb : b ≡ 0 = omega arith in rw (ea, eb) refl
xor_comm_below (suc k) a b p q = omega (
  arith,
  xor_digit a b,
  xor_digit b a,
  pow-suc 2 k,
  xor_comm_below k (a / 2) (b / 2) (omega (arith, pow-suc 2 k)) (omega (arith, pow-suc 2 k)),
)

pub xor_comm : (a b : ℕ) → bit_xor a b ≡ bit_xor b a
xor_comm a b =
    xor_comm_below (a + b) a b (omega (arith, below_two_pow (a + b)))
      (omega (arith, below_two_pow (a + b)))

xor_assoc_below :
    (k a b c : ℕ)
    → a < 2 ^ k
    → b < 2 ^ k
    → c < 2 ^ k
    → bit_xor (bit_xor a b) c ≡ bit_xor a (bit_xor b c)
xor_assoc_below zero a b c p q r =
    let ea : a ≡ 0 = omega arith in
    let eb : b ≡ 0 = omega arith in let ec : c ≡ 0 = omega arith in rw (ea, eb, ec) refl
xor_assoc_below (suc k) a b c p q r = omega (
  arith,
  xor_digit a b,
  xor_digit b c,
  xor_digit (bit_xor a b) c,
  xor_digit a (bit_xor b c),
  ap (λ t. bit_xor t (c / 2)) (xor_half a b),
  ap (λ t. bit_xor (a / 2) t) (xor_half b c),
  pow-suc 2 k,
  xor_assoc_below k (a / 2) (b / 2) (c / 2) (omega (arith, pow-suc 2 k))
      (omega (arith, pow-suc 2 k)) (omega (arith, pow-suc 2 k)),
)

pub xor_assoc : (a b c : ℕ) → bit_xor (bit_xor a b) c ≡ bit_xor a (bit_xor b c)
xor_assoc a b c =
    let big = below_two_pow (a + b + c) in
    xor_assoc_below (a + b + c) a b c (omega arith) (omega arith) (omega arith)

pub xor_interchange :
    (a b c d : ℕ) → bit_xor (bit_xor a b) (bit_xor c d) ≡ bit_xor (bit_xor a c) (bit_xor b d)
xor_interchange a b c d =
    xor_assoc a b (bit_xor c d)
    ∙ ap (bit_xor a)
        (sym (xor_assoc b c d) ∙ ap (λ t. bit_xor t d) (xor_comm b c) ∙ xor_assoc c b d)
    ∙ sym (xor_assoc a c (bit_xor b d))

-- `^` of disjoint fields is their sum.
pub xor_above : (k a b : ℕ) → a < 2 ^ k → bit_xor a (b * 2 ^ k) ≡ a + b * 2 ^ k
xor_above zero a b h =
    let nothing : a ≡ 0 = omega arith in rw nothing (omega (arith, bit_xor-bitwise 0 (b * 1)))
xor_above (suc k) a b h = ground (
  arith,
  xor_digit a (b * 2 ^ suc k),
  pow-suc 2 k,
  double b k,
  xor_above k (a / 2) b (omega (arith, pow-suc 2 k)),
)
  where
    double : (b k : ℕ) → b * 2 ^ suc k ≡ b * 2 ^ k * 2
    double b k = omega (arith, ap (λ (t : ℕ). b * t) (pow-suc 2 k))

pub xor_zero : (a : ℕ) → bit_xor 0 a ≡ a
xor_zero a = bit_xor-bitwise 0 a
