-- ===== src/Coding/RoundTrip.antt =====
-- coding.cc: the readers on what the writers put.
use simple_leveldb.Base.{
  ℕ, zero, suc, ◌+◌, ◌*◌, ◌/◌, ◌%◌, ◌^◌, ◌≤◌, ◌<◌, arith, [], ◌∷◌, ◌++◌, Bytes, length,
  append_assoc, length-append, take-length-append, drop-length-append, IsU32, IsU64, ◌≡◌, ap, ◌∙◌,
  bit_and, some,
}
use simple_leveldb.Base.Bits.{bit_and_mask, bit_and_top, bit_or_above}
use simple_leveldb.Coding.{
  varint_loop, get_varint32, get_varint64, get_varint32ptr_fallback, encode_varint32,
  encode_varint64, put_length_prefixed_slice, get_length_prefixed_slice, found, split_at,
}
use simple_leveldb.Coding.Encode.{encode_varint64_step, encode_varint32-eq-encode_varint64}
use simple_leveldb.Coding.Decode.{fast_path}
use native.Mathlib.Nat.{div-add-mod', mod-eq_of_lt}
use native.Mathlib.Numerals.{towards_suc}

-- A last byte, which has its top bit clear.
last_byte :
    (width last b shift result : ℕ) (rest : Bytes)
    → b < 128
    → shift ≤ last
    → result < 2 ^ shift
    → result + b * 2 ^ shift < 2 ^ width
    → varint_loop width last (b ∷ rest) shift result ≡ some (result + b * 2 ^ shift, rest)
unfolding varint_loop
last_byte width last b shift result rest hb hs hr fits =
    let whole : b * 2 ^ shift % 2 ^ width ≡ b * 2 ^ shift = mod-eq_of_lt (omega arith) in
    ground (arith, bit_and_top b, whole, bit_or_above shift result b)

-- A byte that is not the last, over the group `g`.
inner_byte :
    (width last g shift result : ℕ) (rest : Bytes)
    → g < 128
    → shift ≤ last
    → result < 2 ^ shift
    → result + g * 2 ^ shift < 2 ^ width
    → varint_loop width last ((g + 128) ∷ rest) shift result
      ≡ varint_loop width last rest (shift + 7) (result + g * 2 ^ shift)
unfolding varint_loop
inner_byte width last g shift result rest hg hs hr fits =
    let low : bit_and (g + 128) 127 ≡ g = bit_and_mask 7 (g + 128) ∙ omega arith in
    let whole : g * 2 ^ shift % 2 ^ width ≡ g * 2 ^ shift = mod-eq_of_lt (omega arith) in
    ground (arith, bit_and_top (g + 128), low, whole, bit_or_above shift result g)

pow_add_seven : (s : ℕ) → 2 ^ (s + 7) ≡ 128 * 2 ^ s
pow_add_seven s = simp towards_suc (omega arith)

lowest_group : (v s : ℕ) → v * 2 ^ s ≡ v % 128 * 2 ^ s + v / 128 * 2 ^ (s + 7)
lowest_group v s = omega (
  arith,
  ap (λ (t : ℕ). t * 2 ^ s) (div-add-mod' v 128),
  ap (λ (t : ℕ). v / 128 * t) (pow_add_seven s),
)

group_below : (g s result : ℕ) → g < 128 → result < 2 ^ s → result + g * 2 ^ s < 2 ^ (s + 7)
group_below g s result h k = rw (pow_add_seven s) (grind arith)

-- `v` is what is still to be read, and counts from bit `shift` on.
varint_loop-encode_varint64 :
    (width last k v shift result : ℕ) (rest : Bytes)
    → v < 128 ^ suc k
    → shift + 7 * k ≤ last
    → result < 2 ^ shift
    → result + v * 2 ^ shift < 2 ^ width
    → varint_loop width last (encode_varint64 v ++ rest) shift result
      ≡ some (result + v * 2 ^ shift, rest)
varint_loop-encode_varint64 width last zero v shift result rest hv hs hr fits =
    ground (arith, encode_varint64_step v, last_byte width last v shift result rest)
varint_loop-encode_varint64 width last (suc k) v shift result rest hv hs hr fits = ground (
  arith,
  encode_varint64_step v,
  last_byte width last v shift result rest,
  lowest_group v shift,
  group_below (v % 128) shift result,
  inner_byte width last (v % 128) shift result (encode_varint64 (v / 128) ++ rest),
  varint_loop-encode_varint64 width last k (v / 128) (shift + 7) (result + v % 128 * 2 ^ shift) rest
      (omega arith),
)

-- `get_varint64` reads back the 64-bit value that `encode_varint64` wrote, and leaves what follows.
pub get_varint64-encode_varint64 :
    (v : ℕ) (rest : Bytes) → IsU64 v → get_varint64 (encode_varint64 v ++ rest) ≡ some (v, rest)
unfolding get_varint64
get_varint64-encode_varint64 v rest h =
    ground (arith, varint_loop-encode_varint64 64 63 9 v 0 0 rest (omega arith))

-- `get_varint32` reads back the 32-bit value that `encode_varint32` wrote, and leaves what follows.
pub get_varint32-encode_varint32 :
    (v : ℕ) (rest : Bytes) → IsU32 v → get_varint32 (encode_varint32 v ++ rest) ≡ some (v, rest)
get_varint32-encode_varint32 v rest h = rw (encode_varint32-eq-encode_varint64 v h) (fast ∙ loop)
  where
    fast :
        get_varint32 (encode_varint64 v ++ rest)
        ≡ get_varint32ptr_fallback (encode_varint64 v ++ rest)
    fast =
        unfold get_varint32 in
        ground (
          arith,
          encode_varint64_step v,
          fast_path v rest,
          fast_path (v % 128 + 128) (encode_varint64 (v / 128) ++ rest),
        )

    loop : get_varint32ptr_fallback (encode_varint64 v ++ rest) ≡ some (v, rest)
    loop =
        unfold get_varint32ptr_fallback in
        ground (arith, varint_loop-encode_varint64 32 28 4 v 0 0 rest (omega arith))

pub put_length_prefixed_slice-eq :
    (dst value : Bytes)
    → IsU32 (length value)
    → put_length_prefixed_slice dst value ≡ dst ++ (encode_varint32 (length value) ++ value)
unfolding put_length_prefixed_slice
put_length_prefixed_slice-eq dst value h = rw (append_assoc, mod-eq_of_lt h)

split_at-append : (value rest : Bytes) → split_at (length value, value ++ rest) ≡ found value rest
unfolding split_at
split_at-append value rest =
    ground (
      arith,
      length-append value rest,
      take-length-append value rest,
      drop-length-append value rest,
    )

pub get_length_prefixed_slice_found :
    (input : Bytes) (len : ℕ) (rest : Bytes)
    → get_varint32 input ≡ some (len, rest)
    → get_length_prefixed_slice input ≡ split_at (len, rest)
unfolding get_length_prefixed_slice
get_length_prefixed_slice_found input len rest e = rw (e, get_length_prefixed_slice)

-- A string shorter than 2 ^ 32 is read back, with what follows it.
pub get_length_prefixed_slice-put_length_prefixed_slice :
    (value rest : Bytes)
    → IsU32 (length value)
    → get_length_prefixed_slice (put_length_prefixed_slice [] value ++ rest) ≡ found value rest
get_length_prefixed_slice-put_length_prefixed_slice value rest h =
    rw (put_length_prefixed_slice-eq [] value h, append_assoc, append_assoc)
      (get_length_prefixed_slice_found _ _ _
          (get_varint32-encode_varint32 (length value) (value ++ rest) h)
        ∙ split_at-append value rest)
