-- ===== src/Tests/Util.antt =====
-- util/ and the types of include/leveldb that need no file.
use simple_leveldb.Base.{
  ◌*◌, ◌%◌, ◌^◌, ◌≤◌, arith, true, some, [], ◌∷◌, ◌++◌, Bytes, All, length, codes, IsByte, Bool,
  true, ltb, ◌&&◌, ◌≡◌, refl, ◌↔◌, ◌-◌, replicate, ltb, ◌&&◌,
}
use simple_leveldb.Coding.{
  decode_fixed32, encode_varint32, encode_varint64, get_varint32, get_varint64, get_varint32ptr,
  get_varint32ptr_fallback, put_length_prefixed_slice, get_length_prefixed_slice, found,
}
use simple_leveldb.Coding.Encode.{encode_varint32-eq-encode_varint64, encode_varint_fits}
use simple_leveldb.Coding.Decode.{get_varint32ptr-eq-fallback}
use simple_leveldb.Coding.RoundTrip.{
  get_varint64-encode_varint64, get_varint32-encode_varint32,
  get_length_prefixed_slice-put_length_prefixed_slice,
}
use simple_leveldb.Slice.{same, compare, equal, starts_with}
use simple_leveldb.Slice.Order.{
  lexicographic, opposite, is_less, implies, compare-eq-lexicographic, compare_total_order,
}
use simple_leveldb.Slice.Prefix.{equal_iff, starts_with_iff}
use simple_leveldb.Logging.{consume_loop, consume_decimal_number}
use simple_leveldb.Logging.Decimal.{
  decimal_value, digits_prefix, after_digits, consume_decimal_number-decimal_value,
}
use simple_leveldb.Crc32c.{mask, unmask, unmask-mask}
use simple_leveldb.Crc32c.Extend.{extend, step1, step16}
use simple_leveldb.Crc32c.Extend.Reference.{extend_bytewise}
use simple_leveldb.Crc32c.Extend.Spec.{crc_by_bits, extend-eq-crc_by_bits}
use simple_leveldb.Random.{new_random, next, multiplier, modulus}
use simple_leveldb.Random.Next.{IsSeed, next_lem}
use simple_leveldb.Hash.{hash}

varint_300 : encode_varint64 300 ≡ 172 ∷ 2 ∷ []
unfolding encode_varint64
varint_300 = refl

get_varint64-encode_varint64_example :
    get_varint64 (encode_varint64 300 ++ (7 ∷ [])) ≡ some (300, 7 ∷ [])
get_varint64-encode_varint64_example = get_varint64-encode_varint64 300 (7 ∷ []) (omega arith)

get_varint32-encode_varint32_example :
    get_varint32 (encode_varint32 (2 ^ 32 - 1) ++ (7 ∷ [])) ≡ some (2 ^ 32 - 1, 7 ∷ [])
get_varint32-encode_varint32_example =
    get_varint32-encode_varint32 (2 ^ 32 - 1) (7 ∷ []) (omega arith)

get_length_prefixed_slice-put_length_prefixed_slice_example :
    get_length_prefixed_slice (put_length_prefixed_slice [] (codes "key") ++ (9 ∷ []))
    ≡ found (codes "key") (9 ∷ [])
get_length_prefixed_slice-put_length_prefixed_slice_example =
    get_length_prefixed_slice-put_length_prefixed_slice (codes "key") (9 ∷ []) (omega arith)

encode_varint32-eq-encode_varint64_example : encode_varint32 70000 ≡ encode_varint64 70000
encode_varint32-eq-encode_varint64_example = encode_varint32-eq-encode_varint64 70000 (omega arith)

encode_varint_fits_example :
    (All IsByte (encode_varint32 70000)
      × (1 ≤ length (encode_varint32 70000))
      × (length (encode_varint32 70000) ≤ 5))
    × (All IsByte (encode_varint64 (2 ^ 63))
        × (1 ≤ length (encode_varint64 (2 ^ 63)))
        × (length (encode_varint64 (2 ^ 63)) ≤ 10))
encode_varint_fits_example = encode_varint_fits 70000 (2 ^ 63) (omega arith) (omega arith)

get_varint32ptr-eq-fallback_example :
    get_varint32ptr (5 ∷ 6 ∷ []) ≡ get_varint32ptr_fallback (5 ∷ 6 ∷ [])
get_varint32ptr-eq-fallback_example =
    get_varint32ptr-eq-fallback (5 ∷ 6 ∷ []) (omega arith, (omega arith, tt))

abbrev three_hundred : Bytes
three_hundred = 172 ∷ 2 ∷ 7 ∷ []

abbrev seven : Bytes
seven = 7 ∷ []

compare-eq-lexicographic_example :
    compare (codes "ab") (codes "b") ≡ lexicographic (codes "ab") (codes "b")
compare-eq-lexicographic_example = compare-eq-lexicographic (codes "ab") (codes "b")

compare_total_order_example :
    (compare (codes "ab") (codes "a") ≡ opposite (compare (codes "a") (codes "ab")))
    × ((compare (codes "a") (codes "ab") ≡ same) ↔ (codes "a" ≡ codes "ab"))
    × (implies
          (is_less (compare (codes "a") (codes "ab")) && is_less (compare (codes "ab") (codes "b")))
          (is_less (compare (codes "a") (codes "b")))
        ≡ true)
compare_total_order_example = compare_total_order (codes "a") (codes "ab") (codes "b")

equal_iff_example : (equal (codes "ab") (codes "ab") ≡ true) ↔ (codes "ab" ≡ codes "ab")
equal_iff_example = equal_iff (codes "ab") (codes "ab")

starts_with_iff_example :
    (starts_with (codes "abc") (codes "ab") ≡ true)
    ↔ ((rest : Bytes) × (codes "abc" ≡ codes "ab" ++ rest))
starts_with_iff_example = starts_with_iff (codes "abc") (codes "ab")

consume_decimal_number_run : consume_decimal_number (codes "17.ldb") ≡ some (17, codes ".ldb")
unfolding consume_decimal_number consume_loop
consume_decimal_number_run = refl

consume_decimal_number-decimal_value_example :
    consume_decimal_number (codes "17.ldb") ≡ some (17, codes ".ldb")
unfolding decimal_value digits_prefix after_digits
consume_decimal_number-decimal_value_example = consume_decimal_number-decimal_value (codes "17.ldb")

unmask-mask_example : unmask (mask 3735928559) ≡ 3735928559
unmask-mask_example = unmask-mask 3735928559 (omega arith)

-- Bytes, by evaluation.
below_256 : Bytes → Bool
below_256 [] = true
below_256 (b ∷ bytes) = ltb b 256 && below_256 bytes

below_256→All : (bytes : Bytes) → below_256 bytes ≡ true → All IsByte bytes
unfolding below_256
below_256→All [] h = tt
below_256→All (b ∷ bytes) h = (ground (arith, h), below_256→All bytes (ground (arith, h)))

-- The check value of CRC-32C, and the strides at two alignments.
extend_check : extend 0 0 (codes "123456789") ≡ 0xe3069283
unfolding extend step1
extend_check = refl

extend_zeros : extend 0 0 (replicate 32 0) ≡ 0x8a9136aa
unfolding extend step16 decode_fixed32
extend_zeros = refl

extend_aligned_alike :
    extend 1 0 (codes "the quick brown fox jumps over the dog")
    ≡ extend_bytewise 0 (codes "the quick brown fox jumps over the dog")
unfolding extend extend_bytewise step1 step16 decode_fixed32
extend_aligned_alike = refl

extend-eq-crc_by_bits_example :
    extend 3 0 (codes "a write ahead log record of leveldb")
    ≡ crc_by_bits 0 (codes "a write ahead log record of leveldb")
unfolding below_256
extend-eq-crc_by_bits_example =
    extend-eq-crc_by_bits 3 0 (codes "a write ahead log record of leveldb") (omega arith)
      (below_256→All (codes "a write ahead log record of leveldb") refl)

next_run : next 1 ≡ 16807
unfolding next
next_run = refl

next_lem_example :
    (next 2147483646 ≡ 2147483646 * multiplier % modulus)
    × IsSeed (next 2147483646)
    × IsSeed (new_random 0)
next_lem_example = next_lem 2147483646 0 (omega arith, omega arith)

-- The empty key with the seed of the upstream test.
hash_empty : hash [] 0xbc9f1d34 ≡ 0xbc9f1d34
unfolding hash
hash_empty = refl
