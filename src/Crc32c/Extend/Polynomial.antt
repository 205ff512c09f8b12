-- ===== src/Crc32c/Extend/Polynomial.antt =====
-- The checksum bit by bit, by its polynomial, and the tables as many bits at a time.
use simple_leveldb.Base.{
  ℕ, zero, suc, ◌+◌, ◌*◌, ◌/◌, ◌%◌, ◌^◌, ◌<◌, ◌==◌, ==_iff, arith, true, bit_xor, bit_and, IsByte,
  IsU32, ◌≡◌, refl, sym, ap, ◌∙◌,
}
use simple_leveldb.Base.Bits.{every_below, every_below→, bit_and_mask}
use simple_leveldb.Base.Xor.{
  bit_xor-lt, xor_digit, xor_half, xor_comm, xor_assoc, xor_interchange, xor_above, xor_zero,
}
use simple_leveldb.Crc32c.Extend.{byte_entry, step1, word_step}
use native.Mathlib.Nat.{pow-suc}

-- The polynomial of CRC-32C, lowest power in the top bit.
abbrev poly : ℕ
poly = 0x82f63b78

-- One bit of zero is appended.
unfoldable pub bit_step : ℕ → ℕ
bit_step x = bit_xor (x / 2) (x % 2 * poly)

unfoldable pub advance : ℕ → ℕ → ℕ
advance zero x = x
advance (suc n) x = advance n (bit_step x)

pub advance-add : (n k x : ℕ) → advance (n + k) x ≡ advance k (advance n x)
unfolding advance
advance-add zero k x = let same : 0 + k ≡ k = omega arith in ap (λ m. advance m x) same
advance-add (suc n) k x = ap (λ m. advance m x) next ∙ advance-add n k (bit_step x)
  where
    next : suc n + k ≡ suc (n + k)
    next = omega arith

poly_digits : (x y : ℕ) → x < 2 → y < 2 → (x + y) % 2 * poly ≡ bit_xor (x * poly) (y * poly)
poly_digits zero zero p q = refl
poly_digits zero (suc zero) p q = refl
poly_digits (suc zero) zero p q = refl
poly_digits (suc zero) (suc zero) p q = refl
poly_digits zero (suc (suc y)) p q = absurd (omega arith)
poly_digits (suc zero) (suc (suc y)) p q = absurd (omega arith)
poly_digits (suc (suc x)) y p q = absurd (omega arith)

bit_step-xor : (a b : ℕ) → bit_step (bit_xor a b) ≡ bit_xor (bit_step a) (bit_step b)
unfolding bit_step
bit_step-xor a b =
    ap (λ t. bit_xor t (bit_xor a b % 2 * poly)) (xor_half a b)
    ∙ ap (λ (t : ℕ). bit_xor (bit_xor (a / 2) (b / 2)) (t * poly)) last
    ∙ ap (bit_xor (bit_xor (a / 2) (b / 2)))
        (poly_digits (a % 2) (b % 2) (omega arith) (omega arith))
    ∙ xor_interchange (a / 2) (b / 2) (a % 2 * poly) (b % 2 * poly)
  where
    last : bit_xor a b % 2 ≡ (a % 2 + b % 2) % 2
    last = omega (arith, xor_digit a b)

pub advance-xor : (n a b : ℕ) → advance n (bit_xor a b) ≡ bit_xor (advance n a) (advance n b)
unfolding advance
advance-xor zero a b = refl
advance-xor (suc n) a b =
    ap (advance n) (bit_step-xor a b) ∙ advance-xor n (bit_step a) (bit_step b)

-- Bits above the ones that are taken move down.
pub advance-above : (n h : ℕ) → advance n (h * 2 ^ n) ≡ h
unfolding advance bit_step
advance-above zero h = omega arith
advance-above (suc n) h = ap (advance n) down ∙ advance-above n h
  where
    down : bit_xor (h * 2 ^ suc n / 2) (h * 2 ^ suc n % 2 * poly) ≡ h * 2 ^ n
    down =
        let twice : h * 2 ^ suc n ≡ h * 2 ^ n * 2 =
          omega (arith, ap (λ (t : ℕ). h * t) (pow-suc 2 n)) in
        let half : h * 2 ^ suc n / 2 ≡ h * 2 ^ n = omega arith in
        let even : h * 2 ^ suc n % 2 * poly ≡ 0 = omega arith in
        rw (half, even) (xor_comm (h * 2 ^ n) 0 ∙ xor_zero (h * 2 ^ n))

pub advance-IsU32 : (n x : ℕ) → IsU32 x → IsU32 (advance n x)
unfolding advance bit_step
advance-IsU32 zero x h = h
advance-IsU32 (suc n) x h =
    advance-IsU32 n _ (bit_xor-lt 32 (x / 2) (x % 2 * poly) (omega arith) (omega arith))

-- The table of bytes takes eight bits.
byte_table : every_below (λ c. byte_entry c == advance 8 c) 256 ≡ true
unfolding every_below byte_entry advance bit_step
byte_table = refl

byte_entry-advance : (c : ℕ) → IsByte c → byte_entry c ≡ advance 8 c
byte_entry-advance c h =
    (==_iff (byte_entry c) (advance 8 c)).0
      (every_below→ (λ c. byte_entry c == advance 8 c) 256 c h byte_table)

parts : (l : ℕ) → bit_xor (l % 256) (l / 256 * 2 ^ 8) ≡ l
parts l = xor_above 8 (l % 256) (l / 256) (omega arith) ∙ omega arith

-- `STEP1` takes the eight bits of a byte.
pub step1-advance : (l b : ℕ) → IsByte b → step1 l b ≡ advance 8 (bit_xor l b)
unfolding step1
step1-advance l b h =
    ap (λ t. bit_xor (byte_entry (bit_xor t b)) (l / 256)) (bit_and_mask 8 l)
    ∙ ap (λ t. bit_xor t (l / 256))
        (byte_entry-advance low (bit_xor-lt 8 (l % 256) b (omega arith) h))
    ∙ ap (bit_xor (advance 8 low)) (sym (advance-above 8 (l / 256)))
    ∙ sym (advance-xor 8 low (l / 256 * 2 ^ 8))
    ∙ ap (advance 8) whole
  where
    low : ℕ
    low = bit_xor (l % 256) b

    whole : bit_xor low (l / 256 * 2 ^ 8) ≡ bit_xor l b
    whole =
        xor_assoc (l % 256) b (l / 256 * 2 ^ 8)
        ∙ ap (bit_xor (l % 256)) (xor_comm b (l / 256 * 2 ^ 8))
        ∙ sym (xor_assoc (l % 256) (l / 256 * 2 ^ 8) b)
        ∙ ap (λ t. bit_xor t b) (parts l)

pub word_step-advance : (w : ℕ) → word_step w ≡ advance 8 w
unfolding word_step
word_step-advance w =
    xor_comm (w / 256) (byte_entry (bit_and w 255))
    ∙ ap (λ t. bit_xor (byte_entry t) (w / 256)) (bit_and_mask 8 w)
    ∙ ap (λ t. bit_xor t (w / 256)) (byte_entry-advance (w % 256) (omega arith))
    ∙ ap (bit_xor (advance 8 (w % 256))) (sym (advance-above 8 (w / 256)))
    ∙ sym (advance-xor 8 (w % 256) (w / 256 * 2 ^ 8))
    ∙ ap (advance 8) (parts w)
