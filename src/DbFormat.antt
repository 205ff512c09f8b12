-- ===== src/DbFormat.antt =====
-- leveldb/__detail/db_format.h and db_format.cc: keys with a sequence number and a type. The comparator
-- and the filter policy of the user are parameters.
pub mod Order
pub mod Between
use simple_leveldb.Base.{
  ℕ, ◌+◌, ◌-◌, ◌*◌, ◌/◌, ◌%◌, ◌^◌, Bool, true, false, not, ◌&&◌, ltb, ◌==◌, if◌then◌else◌, bit_or,
  Option, none, some, List, [], ◌∷◌, ◌++◌, Bytes, length, take, drop, shl, u64,
}
use simple_leveldb.Coding.{decode_fixed64, put_fixed64}
use simple_leveldb.Slice.{Sign, less, same, greater, is_same}

pub data ValueType : Type 0 where
  type_deletion type_value : ValueType

abbrev pub value_type_number : ValueType → ℕ
value_type_number type_deletion = 0
value_type_number type_value = 1

abbrev pub value_type_for_seek : ValueType
value_type_for_seek = type_value

abbrev pub max_sequence_number : ℕ
max_sequence_number = 2 ^ 56 - 1

unfoldable pub pack_sequence_and_type : ℕ → ValueType → ℕ
pack_sequence_and_type seq t = bit_or (u64 (shl seq 8)) (value_type_number t)

-- The assertion asks for 8 bytes at least.
unfoldable pub extract_user_key : Bytes → Bytes
extract_user_key internal_key = take (length internal_key - 8) internal_key

-- The last 8 bytes of a key, as a number.
unfoldable pub tag_of : Bytes → ℕ
tag_of key = elim (decode_fixed64 (drop (length key - 8) key)) [ some n ↦ n | none ↦ 0 ]

-- leveldb/comparator.h: what the comparator of the user is asked.
pub record Comparator : Type 0 where
  pub compare : Bytes → Bytes → Sign
  pub find_shortest_separator : Bytes → Bytes → Bytes
  pub find_short_successor : Bytes → Bytes

pub is_less : Sign → Bool
is_less less = true
is_less same = false
is_less greater = false

module _ (user : Comparator) where
  -- `internal_key_comparator::compare`: a greater tag comes first.
  unfoldable pub compare : Bytes → Bytes → Sign
  unfolding extract_user_key tag_of
  compare akey bkey =
      let r = user.compare (extract_user_key akey) (extract_user_key bkey) in
      let anum = tag_of akey in
      let bnum = tag_of bkey in
      if is_same r
      then (if ltb bnum anum then less else if ltb anum bnum then greater else r)
      else r

  -- `start` as it is left.
  unfoldable pub find_shortest_separator : Bytes → Bytes → Bytes
  unfolding extract_user_key pack_sequence_and_type is_less
  find_shortest_separator start limit =
      let user_start = extract_user_key start in
      let user_limit = extract_user_key limit in
      let tmp = user.find_shortest_separator user_start user_limit in
      if ltb (length tmp) (length user_start) && is_less (user.compare user_start tmp)
      then put_fixed64 tmp (pack_sequence_and_type max_sequence_number value_type_for_seek)
      else start

  unfoldable pub find_short_successor : Bytes → Bytes
  unfolding extract_user_key pack_sequence_and_type is_less
  find_short_successor key =
      let user_key = extract_user_key key in
      let tmp = user.find_short_successor user_key in
      if ltb (length tmp) (length user_key) && is_less (user.compare user_key tmp)
      then put_fixed64 tmp (pack_sequence_and_type max_sequence_number value_type_for_seek)
      else key

-- leveldb/filter_policy.h.
pub record FilterPolicy : Type 0 where
  pub create_filter : List Bytes → Bytes → Bytes
  pub key_may_match : Bytes → Bytes → Bool

user_keys : List Bytes → List Bytes
unfolding extract_user_key
user_keys [] = []
user_keys (key ∷ keys) = extract_user_key key ∷ user_keys keys

module _ (policy : FilterPolicy) where
  -- The user's policy sees the user keys; they are also what the caller's array holds afterwards.
  unfoldable pub create_filter : List Bytes → Bytes → Bytes × List Bytes
  unfolding user_keys
  create_filter keys dst = (policy.create_filter (user_keys keys) dst, user_keys keys)

  unfoldable pub key_may_match : Bytes → Bytes → Bool
  unfolding extract_user_key
  key_may_match key filter = policy.key_may_match (extract_user_key key) filter

-- `internal_key::decode_from`: the key, and whether it is not empty.
unfoldable pub decode_from : Bytes → Bytes × Bool
decode_from s = (s, not (length s == 0))
