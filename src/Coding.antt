-- ===== src/Coding.antt =====
-- util/coding.cc and include/util/coding.h: fixed-width and variable-length integers and
-- length-prefixed strings. A buffer that is written is the list of the bytes written; an input
-- slice is the list of its bytes, and a reader returns what it leaves of it. `none` is the
-- null pointer or the `false` that a reader returns.
pub mod Fixed
pub mod Encode
pub mod Decode
pub mod RoundTrip
use simple_leveldb.Base.{
  ℕ, zero, suc, ◌+◌, ◌*◌, ◌/◌, ◌%◌, ◌^◌, ◌≤◌, ◌<◌, bit_and, bit_or, arith, Bool, ◌&&◌, ltb, leb,
  ◌==◌, if◌then◌else◌, Option, none, some, List, [], ◌∷◌, ◌++◌, Bytes, length, take, drop, u8, u32,
  u64, shl, shr, lt_wf, ◌≡◌,
}
use mathlib.Core.Logic.{dite}
use mathlib.Core.WellFounded.{Acc}
use native.Mathlib.Decide.{dec_lt}

unfoldable pub encode_fixed32 : ℕ → Bytes
encode_fixed32 value = u8 value ∷ u8 (shr value 8) ∷ u8 (shr value 16) ∷ u8 (shr value 24) ∷ []

unfoldable pub encode_fixed64 : ℕ → Bytes
encode_fixed64 value =
    u8 value
    ∷ u8 (shr value 8)
    ∷ u8 (shr value 16)
    ∷ u8 (shr value 24)
    ∷ u8 (shr value 32)
    ∷ u8 (shr value 40)
    ∷ u8 (shr value 48)
    ∷ u8 (shr value 56)
    ∷ []

-- A read past the end of the buffer, which C++ leaves undefined, is `none`.
unfoldable pub decode_fixed32 : Bytes → Option ℕ
decode_fixed32 (b₀ ∷ b₁ ∷ b₂ ∷ b₃ ∷ rest) =
    some (bit_or (bit_or (bit_or b₀ (u32 (shl b₁ 8))) (u32 (shl b₂ 16))) (u32 (shl b₃ 24)))
decode_fixed32 _ = none

unfoldable pub decode_fixed64 : Bytes → Option ℕ
decode_fixed64 (b₀ ∷ b₁ ∷ b₂ ∷ b₃ ∷ b₄ ∷ b₅ ∷ b₆ ∷ b₇ ∷ rest) =
    let low = bit_or (bit_or (bit_or b₀ (u64 (shl b₁ 8))) (u64 (shl b₂ 16))) (u64 (shl b₃ 24)) in
    let middle = bit_or (bit_or low (u64 (shl b₄ 32))) (u64 (shl b₅ 40)) in
    some (bit_or (bit_or middle (u64 (shl b₆ 48))) (u64 (shl b₇ 56)))
decode_fixed64 _ = none

unfoldable pub put_fixed32 : Bytes → ℕ → Bytes
put_fixed32 dst value = dst ++ encode_fixed32 value

unfoldable pub put_fixed64 : Bytes → ℕ → Bytes
put_fixed64 dst value = dst ++ encode_fixed64 value

-- `*( ptr++ ) = value | B`, cut to a byte by the store.
abbrev pub more : ℕ → ℕ
more value = u8 (bit_or value 128)

unfoldable pub encode_varint32 : ℕ → Bytes
encode_varint32 value =
    if ltb value (2 ^ 7)
    then u8 value ∷ []
    else if ltb value (2 ^ 14)
    then more value ∷ u8 (shr value 7) ∷ []
    else if ltb value (2 ^ 21)
    then more value ∷ more (shr value 7) ∷ u8 (shr value 14) ∷ []
    else if ltb value (2 ^ 28)
    then more value ∷ more (shr value 7) ∷ more (shr value 14) ∷ u8 (shr value 21) ∷ []
    else more value
      ∷ more (shr value 7)
      ∷ more (shr value 14)
      ∷ more (shr value 21)
      ∷ u8 (shr value 28)
      ∷ []

pub shr-lt : (v : ℕ) → 127 < v → shr v 7 < v
shr-lt v h = omega arith

-- `while ( v >= B )`, on the proof that `v` falls.
varint64_loop : (v : ℕ) → Acc ◌<◌ v → Bytes
varint64_loop v (Acc.intro _ smaller) =
    dite (dec_lt 127 v) (λ h. more v ∷ varint64_loop (shr v 7) (smaller (shr v 7) (shr-lt v h)))
      (λ _. u8 v ∷ [])

unfoldable pub encode_varint64 : ℕ → Bytes
unfolding varint64_loop lt_wf dec_lt
encode_varint64 v = varint64_loop v (lt_wf.apply v)

unfoldable pub put_varint32 : Bytes → ℕ → Bytes
put_varint32 dst value = dst ++ encode_varint32 value

unfoldable pub put_varint64 : Bytes → ℕ → Bytes
put_varint64 dst value = dst ++ encode_varint64 value

-- `for ( shift = 0; shift <= last && p < limit; shift += 7 )`, where the accumulator has
-- `width` bits. The list is what is left between `p` and `limit`.
unfoldable pub varint_loop : ℕ → ℕ → Bytes → ℕ → ℕ → Option (ℕ × Bytes)
varint_loop width last [] shift result = none
varint_loop width last (byte ∷ rest) shift result =
    let group = bit_or result (shl (bit_and byte 127) shift % 2 ^ width) in
    let whole = bit_or result (shl byte shift % 2 ^ width) in
    let further = varint_loop width last rest (shift + 7) group in
    if leb shift last then (if bit_and byte 128 == 0 then some (whole, rest) else further) else none

unfoldable pub get_varint64ptr : Bytes → Option (ℕ × Bytes)
unfolding varint_loop
get_varint64ptr input = varint_loop 64 63 input 0 0

unfoldable pub get_varint32ptr_fallback : Bytes → Option (ℕ × Bytes)
unfolding varint_loop
get_varint32ptr_fallback input = varint_loop 32 28 input 0 0

-- The fast path reads a value of one byte.
unfoldable pub get_varint32ptr : Bytes → Option (ℕ × Bytes)
unfolding get_varint32ptr_fallback
get_varint32ptr [] = get_varint32ptr_fallback []
get_varint32ptr (result ∷ rest) =
    if bit_and result 128 == 0
    then some (result, rest)
    else get_varint32ptr_fallback (result ∷ rest)

unfoldable pub get_varint32 : Bytes → Option (ℕ × Bytes)
unfolding get_varint32ptr
get_varint32 input = get_varint32ptr input

unfoldable pub get_varint64 : Bytes → Option (ℕ × Bytes)
unfolding get_varint64ptr
get_varint64 input = get_varint64ptr input

-- `value.size()` is passed on as a `uint32_t`.
unfoldable pub put_length_prefixed_slice : Bytes → Bytes → Bytes
unfolding put_varint32
put_length_prefixed_slice dst value = put_varint32 dst (u32 (length value)) ++ value

-- The prefix is consumed also when the string behind it is too short; the caller sees `false`
-- and the shortened input, here `fail`.
pub data Prefixed : Type 0 where
  found : Bytes → Bytes → Prefixed
  fail : Bytes → Prefixed

unfoldable pub split_at : ℕ × Bytes → Prefixed
split_at (len, rest) =
    if leb len (length rest) then found (take len rest) (drop len rest) else fail rest

-- `found` holds the string and what is left of the input.
unfoldable pub get_length_prefixed_slice : Bytes → Prefixed
get_length_prefixed_slice input = elim (get_varint32 input) [
  | some r ↦ split_at r
  | none ↦ fail input
]
