-- ===== src/Filename/Decimal.antt =====
-- filename.cc: the digits that `snprintf` writes, and `consume_decimal_number` on them.
use simple_leveldb.Base.{
  ℕ, zero, suc, ◌+◌, ◌-◌, ◌*◌, ◌/◌, ◌≤◌, ◌<◌, arith, false, [], ◌∷◌, ◌++◌, Bytes, some, length,
  length-append, replicate, All, All-append, ◌≡◌, refl, ◌∙◌, IsU64, lt_wf,
}
use simple_leveldb.Filename.{decimal, decimal_06, decimal_loop, tenth-lt}
use simple_leveldb.Logging.{consume_decimal_number, isdigit}
use simple_leveldb.Logging.Decimal.{
  decimal_value, digits_prefix, after_digits, consume_decimal_number-decimal_value,
}
use mathlib.Core.Logic.{dif_pos, dif_neg}
use mathlib.Core.WellFounded.{Acc}
use native.Mathlib.Bridge.{le_prop}
use native.Mathlib.Decide.{dec_lt}

abbrev pub IsDigit : ℕ → Type 0
IsDigit c = (b'0' ≤ c) × (c ≤ b'9')

decimal_value-append :
    (v : ℕ) (xs : Bytes) (d : ℕ)
    → decimal_value v (xs ++ d ∷ []) ≡ decimal_value v xs * 10 + (d - b'0')
unfolding decimal_value
decimal_value-append v [] d = refl
decimal_value-append v (x ∷ xs) d = decimal_value-append (v * 10 + (x - b'0')) xs d

-- What `decimal` writes: digits, at least one, with the value of the number.
abbrev Writes : ℕ → Bytes → Type 0
Writes n ds = All IsDigit ds × (1 ≤ length ds) × (decimal_value 0 ds ≡ n)

decimal_loop-Writes : (k n : ℕ) (a : Acc ◌<◌ n) → n < k → Writes n (decimal_loop n a)
unfolding decimal_loop
decimal_loop-Writes zero n a h = absurd (omega arith)
decimal_loop-Writes (suc k) n (Acc.intro _ s) h = elim (dec_lt 9 n) [
  | yes p ↦ rw (dif_pos _ le_prop p) (
      let rest = s (n / 10) (tenth-lt n p) in
      let front = decimal_loop-Writes k (n / 10) rest (omega arith) in
      let ds = decimal_loop (n / 10) rest in
      (
        All-append IsDigit ds _ front.0 (omega arith),
        rw length-append (omega arith),
        decimal_value-append 0 ds _ ∙ omega (arith, front.2),
      ))
  | no p ↦ rw (dif_neg _ p) (unfold decimal_value in omega arith)
]

decimal-Writes : (n : ℕ) → Writes n (decimal n)
unfolding decimal
decimal-Writes n = decimal_loop-Writes (suc n) n (lt_wf.apply n) (omega arith)

zeros-Writes : (k n : ℕ) (ds : Bytes) → Writes n ds → Writes n (replicate k b'0' ++ ds)
unfolding decimal_value
zeros-Writes zero n ds w = w
zeros-Writes (suc k) n ds w =
    let (all, some_digit, value) = zeros-Writes k n ds w in ((omega arith, all), omega arith, value)

-- The padded form too is digits with the value of the number.
pub decimal_06-Writes :
    (n : ℕ)
    → All IsDigit (decimal_06 n)
      × (1 ≤ length (decimal_06 n))
      × (decimal_value 0 (decimal_06 n) ≡ n)
unfolding decimal_06
decimal_06-Writes n = zeros-Writes _ n (decimal n) (decimal-Writes n)

-- A rest that no digit begins.
abbrev pub EndsNumber : Bytes → Type 0
EndsNumber [] = Unit
EndsNumber (c ∷ rest) = isdigit c ≡ false

digits_prefix-append :
    (ds rest : Bytes)
    → All IsDigit ds
    → EndsNumber rest
    → (digits_prefix (ds ++ rest) ≡ ds) × (after_digits (ds ++ rest) ≡ rest)
unfolding digits_prefix after_digits
digits_prefix-append [] [] h e = (refl, refl)
digits_prefix-append [] (c ∷ rest) h e = ground arith
digits_prefix-append (d ∷ ds) rest h e =
    let (front, back) = digits_prefix-append ds rest h.1 e in ground arith

-- A 64-bit number in its padded form is read back up to the first byte that is no digit.
pub consume_decimal_number-decimal_06 :
    (n : ℕ) (rest : Bytes)
    → IsU64 n
    → EndsNumber rest
    → consume_decimal_number (decimal_06 n ++ rest) ≡ some (n, rest)
consume_decimal_number-decimal_06 n rest h e =
    let (all, some_digit, value) = decimal_06-Writes n in
    let (front, back) = digits_prefix-append (decimal_06 n) rest all e in
    ground (arith, consume_decimal_number-decimal_value (decimal_06 n ++ rest))
