-- ===== src/Logging/Decimal.antt =====
-- `consume_decimal_number` against the value of the longest run of digits.
use simple_leveldb.Base.{
  ℕ, ◌+◌, ◌-◌, ◌*◌, ◌^◌, ◌≤◌, ◌<◌, arith, ◌||◌, ltb, leb, ◌==◌, if◌then◌else◌, [], ◌∷◌, Bytes, none,
  some, length, ◌≡◌,
}
use simple_leveldb.Logging.{isdigit, consume_loop, consume_decimal_number}

-- The value of a run of digits behind the value read so far.
unfoldable pub decimal_value : ℕ → Bytes → ℕ
decimal_value value [] = value
decimal_value value (d ∷ ds) = decimal_value (value * 10 + (d - b'0')) ds

unfoldable pub digits_prefix : Bytes → Bytes
digits_prefix [] = []
digits_prefix (ch ∷ rest) = if isdigit ch then ch ∷ digits_prefix rest else []

unfoldable pub after_digits : Bytes → Bytes
after_digits [] = []
after_digits (ch ∷ rest) = if isdigit ch then after_digits rest else ch ∷ rest

decimal_value_grows : (value : ℕ) (ds : Bytes) → value ≤ decimal_value value ds
unfolding decimal_value
decimal_value_grows value [] = omega arith
decimal_value_grows value (d ∷ ds) = omega (arith, decimal_value_grows (value * 10 + (d - b'0')) ds)

consume_loop_value :
    (input : Bytes) (value n : ℕ)
    → value < 2 ^ 64
    → consume_loop value n input ≡ (
        if ltb (decimal_value value (digits_prefix input)) (2 ^ 64)
        then some (
          decimal_value value (digits_prefix input),
          n + length (digits_prefix input),
          after_digits input,
        )
        else none)
unfolding consume_loop decimal_value digits_prefix after_digits
consume_loop_value [] value n h = ground arith
consume_loop_value (ch ∷ rest) value n h = ground (
  arith,
  decimal_value_grows (value * 10 + (ch - b'0')) (digits_prefix rest),
  consume_loop_value rest (value * 10 + (ch - b'0')) (n + 1),
)

-- `consume_decimal_number` takes the longest run of digits at the front. It fails exactly when
-- that run is empty or its value does not fit 64 bits, and else returns the value and the rest.
pub consume_decimal_number-decimal_value :
    (input : Bytes)
    → consume_decimal_number input ≡ (
        if length (digits_prefix input) == 0 || leb (2 ^ 64) (decimal_value 0 (digits_prefix input))
        then none
        else some (decimal_value 0 (digits_prefix input), after_digits input))
unfolding consume_decimal_number
consume_decimal_number-decimal_value input =
    ground (arith, consume_loop_value input 0 0 (omega arith))
