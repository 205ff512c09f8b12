-- ===== src/DbFormat/Order.antt =====
-- The order of internal keys, and the keys that are put between them.
use simple_leveldb.Base.{
  ℕ, ◌+◌, ◌-◌, ◌*◌, ◌≤◌, arith, ltb, if◌then◌else◌, some, [], ◌++◌, Bytes, length, ◌≡◌, refl, sym,
  ap, ◌∙◌, length-append, take-length-append, drop-length-append, append-nil, IsU64, u64, shl,
}
use simple_leveldb.Base.Bits.{bit_or_above, bit_or_comm}
use simple_leveldb.Coding.{encode_fixed64, decode_fixed64}
use simple_leveldb.Coding.Fixed.{decode_fixed64-encode_fixed64}
use simple_leveldb.Slice.{Sign, less, same, greater, is_same}
use simple_leveldb.DbFormat.{
  ValueType, type_deletion, type_value, value_type_number, max_sequence_number,
  pack_sequence_and_type, extract_user_key, tag_of, Comparator, compare,
}

-- A user key with a tag behind it.
abbrev pub internal_key : Bytes → ℕ → Bytes
internal_key user_key n = user_key ++ encode_fixed64 n

pub length-encode_fixed64 : (n : ℕ) → length (encode_fixed64 n) ≡ 8
unfolding encode_fixed64
length-encode_fixed64 n = refl

user_length : (u : Bytes) (n : ℕ) → length (internal_key u n) - 8 ≡ length u
user_length u n = omega (arith, length-append u (encode_fixed64 n), length-encode_fixed64 n)

pub extract_user_key-internal_key : (u : Bytes) (n : ℕ) → extract_user_key (internal_key u n) ≡ u
unfolding extract_user_key
extract_user_key-internal_key u n = rw (user_length u n) (take-length-append u (encode_fixed64 n))

tag_of-internal_key : (u : Bytes) (n : ℕ) → IsU64 n → tag_of (internal_key u n) ≡ n
unfolding tag_of
tag_of-internal_key u n h =
    rw (user_length u n, drop-length-append u (encode_fixed64 n), tag_of) (rw stored refl)
  where
    stored : decode_fixed64 (encode_fixed64 n) ≡ some n
    stored = ap decode_fixed64 (sym (append-nil _)) ∙ decode_fixed64-encode_fixed64 n [] h

-- A sequence number of 56 bits and a type share 64 bits.
pub pack_lem :
    (seq : ℕ) (t : ValueType)
    → seq ≤ max_sequence_number
    → (pack_sequence_and_type seq t ≡ seq * 256 + value_type_number t)
      × IsU64 (pack_sequence_and_type seq t)
unfolding pack_sequence_and_type
pack_lem seq type_deletion h = ground (arith, bit_or_comm (u64 (shl seq 8)) 0, bit_or_above 8 0 seq)
pack_lem seq type_value h = ground (arith, bit_or_comm (u64 (shl seq 8)) 1, bit_or_above 8 1 seq)

-- Which of two keys with the same user key comes first: the one with the greater sequence number, and
-- of two with the same number a value before a deletion.
abbrev pub by_age : ℕ → ValueType → ℕ → ValueType → Sign
by_age seq t seq' t' =
    if ltb seq' seq
    then less
    else if ltb seq seq'
    then greater
    else if ltb (value_type_number t') (value_type_number t)
    then less
    else if ltb (value_type_number t) (value_type_number t')
    then greater
    else same

abbrev pub or_else : Sign → Sign → Sign
or_else less s = less
or_else same s = s
or_else greater s = greater

-- Internal keys with sequence numbers of at most 56 bits are ordered by the user's comparator, and for
-- equal user keys from the greatest sequence number to the least, a value before a deletion.
pub compare-eq-by_age :
    (user : Comparator) (a b : Bytes) (s s' : ℕ) (t t' : ValueType)
    → s ≤ max_sequence_number
    → s' ≤ max_sequence_number
    → compare user
        (internal_key a (pack_sequence_and_type s t))
        (internal_key b (pack_sequence_and_type s' t'))
      ≡ or_else (user.compare a b) (by_age s t s' t')
unfolding compare
compare-eq-by_age user a b s s' t t' h h' =
    let (p, u) = pack_lem s t h in
    let (p', u') = pack_lem s' t' h' in
    rw
      (
        extract_user_key-internal_key a _,
        extract_user_key-internal_key b _,
        tag_of-internal_key a _ u,
        tag_of-internal_key b _ u',
        p,
        p',
      )
      (go (user.compare a b) t t')
  where
    go :
        (x : Sign) (t t' : ValueType)
        → (let n = s * 256 + value_type_number t in
            let n' = s' * 256 + value_type_number t' in
            if is_same x then (if ltb n' n then less else if ltb n n' then greater else x) else x)
          ≡ or_else x (by_age s t s' t')
    go less t t' = refl
    go greater t t' = refl
    go same type_deletion type_deletion = ground arith
    go same type_deletion type_value = ground arith
    go same type_value type_deletion = ground arith
    go same type_value type_value = ground arith
