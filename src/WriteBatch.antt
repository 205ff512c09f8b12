-- ===== src/WriteBatch.antt =====
-- leveldb/write_batch.cc and leveldb/__detail/write_batch_internal.cc: a batch is the bytes of its
-- `rep_`. A read outside the buffer is `none`.
pub mod Header
pub mod Records
use simple_leveldb.Base.{
  ℕ, ◌+◌, ◌>>=◌, Option, none, some, List, [], ◌∷◌, ◌++◌, Bytes, length, take, drop, replicate,
}
use simple_leveldb.Coding.{
  decode_fixed32, decode_fixed64, encode_fixed32, encode_fixed64, put_length_prefixed_slice,
}
use simple_leveldb.DbFormat.{type_value, value_type_number}

abbrev pub k_header : ℕ
k_header = 12

-- A write of bytes at `&rep_[ at ]`.
abbrev pub overwrite : Bytes → ℕ → Bytes → Bytes
overwrite rep at bytes = take at rep ++ (bytes ++ drop (at + length bytes) rep)

-- `write_batch_internal::count`, with the 32 bits of the `int32_t`.
unfoldable pub count : Bytes → Option ℕ
count rep = decode_fixed32 (drop 8 rep)

unfoldable pub set_count : Bytes → ℕ → Bytes
set_count rep n = overwrite rep 8 (encode_fixed32 n)

unfoldable pub sequence : Bytes → Option ℕ
sequence rep = decode_fixed64 rep

unfoldable pub set_sequence : Bytes → ℕ → Bytes
set_sequence rep seq = overwrite rep 8 (encode_fixed64 seq)

-- `Clear()`, which the constructor calls.
abbrev pub cleared : Bytes
cleared = replicate k_header 0

unfoldable pub put : Bytes → Bytes → Bytes → Option Bytes
unfolding count set_count
put rep key value = do
  n ← count rep
  let counted = set_count rep n in
      some (
        put_length_prefixed_slice
          (put_length_prefixed_slice (counted ++ value_type_number type_value ∷ []) key) value)
