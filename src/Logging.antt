-- ===== src/Logging.antt =====
-- util/logging.cc: reading a decimal number from the front of a slice.
pub mod Decimal
use simple_leveldb.Base.{
  ℕ, zero, suc, ◌+◌, ◌-◌, ◌*◌, ◌/◌, ◌%◌, ◌^◌, Bool, ◌&&◌, ◌||◌, ltb, leb, ◌==◌, if◌then◌else◌, [],
  ◌∷◌, Bytes, Option, none, some, u64,
}

-- The standard `isdigit`, in the "C" locale.
abbrev pub isdigit : ℕ → Bool
isdigit ch = leb b'0' ch && leb ch b'9'

abbrev pub max_uint64 : ℕ
max_uint64 = 2 ^ 64 - 1

abbrev pub last_digit_of_max_uint64 : ℕ
last_digit_of_max_uint64 = b'0' + max_uint64 % 10

abbrev pub would_overflow : ℕ → ℕ → Bool
would_overflow value ch =
    ltb (max_uint64 / 10) value || (value == max_uint64 / 10 && ltb last_digit_of_max_uint64 ch)

-- The loop over the bytes from `current` to `end`; `digits_consumed` is `current - start`. `none`
-- is the `return false` inside the loop.
unfoldable pub consume_loop : ℕ → ℕ → Bytes → Option (ℕ × ℕ × Bytes)
consume_loop value digits_consumed [] = some (value, digits_consumed, [])
consume_loop value digits_consumed (ch ∷ rest) =
    let further = consume_loop (u64 (value * 10 + (ch - b'0'))) (digits_consumed + 1) rest in
    if isdigit ch
    then (if would_overflow value ch then none else further)
    else some (value, digits_consumed, ch ∷ rest)

accept_digits : ℕ × ℕ × Bytes → Option (ℕ × Bytes)
accept_digits (value, digits_consumed, rest) =
    if digits_consumed == 0 then none else some (value, rest)

-- `none` is the result `false`, after which no caller reads the number or the slice.
unfoldable pub consume_decimal_number : Bytes → Option (ℕ × Bytes)
unfolding accept_digits
consume_decimal_number input = elim (consume_loop 0 0 input) [
  | none ↦ none
  | some r ↦ accept_digits r
]
