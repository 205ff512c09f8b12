-- ===== src/VersionEdit/Compact.antt =====
-- What becomes of a compact pointer: `encode_to` writes its key as a string, and `decode_from` reads a
-- file number there.
use simple_leveldb.Base.{
  ℕ, suc, ◌+◌, ◌<◌, arith, [], ◌∷◌, ◌++◌, Bytes, length, some, u32, codes, ◌≡◌, refl, append_assoc,
  IsU32,
}
use simple_leveldb.Base.Bits.{bit_and_top}
use simple_leveldb.Coding.{encode_varint32, put_varint32, get_varint32, get_varint32ptr}
use simple_leveldb.Coding.Encode.{encode_varint32-eq-encode_varint64}
use simple_leveldb.Coding.RoundTrip.{
  get_varint64-encode_varint64, get_varint32-encode_varint32, put_length_prefixed_slice-eq,
}
use simple_leveldb.VersionEdit.{
  VersionEdit, cleared, num_levels, put_number, put_comparator, put_compact_pointers, put_new_files,
  encode_to, set_compact_pointer, k_compact_pointer,
}
use simple_leveldb.VersionEdit.Decode.{
  failed, get_deleted_file, field_of, decode_field, decode_loop, decode_from, add_deleted_file,
  insert_file, corrupt,
}
use simple_leveldb.VersionEdit.Pieces.{prefixed, get_level-encode}

encode_to_pointer :
    (level : ℕ) (key : Bytes)
    → level < num_levels
    → IsU32 (length key)
    → encode_to (set_compact_pointer cleared level key) []
      ≡ encode_varint32 k_compact_pointer ++ (encode_varint32 level ++ prefixed key)
unfolding encode_to set_compact_pointer put_comparator put_number put_compact_pointers put_new_files
    put_varint32
encode_to_pointer level key low h =
    rw (u32_level, put_length_prefixed_slice-eq (encode_varint32 5 ++ encode_varint32 level) key h)
      (append_assoc (encode_varint32 5) _ _)
  where
    u32_level : u32 level ≡ level
    u32_level = omega arith

-- The length of the key is taken for the number of the file.
get_deleted_file_pointer :
    (level : ℕ) (key : Bytes)
    → level < num_levels
    → IsU32 (length key)
    → get_deleted_file (encode_varint32 level ++ prefixed key) ≡ some ((level, length key), key)
unfolding get_deleted_file
get_deleted_file_pointer level key low h =
    rw
      (
        get_level-encode level (prefixed key) low,
        encode_varint32-eq-encode_varint64 (length key) h,
        get_varint64-encode_varint64 (length key) key (omega arith),
      )
      refl

-- The first byte of the key is taken for a tag.
unknown_tag :
    (fuel b : ℕ) (key : Bytes) (e : VersionEdit)
    → 9 < b
    → b < 128
    → decode_loop (suc fuel) e (b ∷ key) ≡ some (corrupt (codes "unknown tag"), e)
unfolding decode_loop
unknown_tag fuel b key e h k = rw (tag, decode_loop, other) refl
  where
    tag : get_varint32 (b ∷ key) ≡ some (b, key)
    tag = unfold get_varint32 in unfold get_varint32ptr in ground (arith, bit_and_top b)

    other : decode_field e b key ≡ failed (codes "unknown tag")
    other = unfold decode_field in ground arith

-- An edit with a compact pointer whose key begins with a byte from 10 to 127 does not come back: what
-- `encode_to` writes is refused by `decode_from` with an unknown tag, and a deleted file with the
-- length of the key as its number is left in the edit.
pub decode_from_pointer :
    (level b : ℕ) (key : Bytes)
    → level < num_levels
    → IsU32 (length (b ∷ key))
    → 9 < b
    → b < 128
    → decode_from (encode_to (set_compact_pointer cleared level (b ∷ key)) [])
      ≡ some (
        corrupt (codes "unknown tag"),
        record cleared { deleted_files = (level, length (b ∷ key)) ∷ [] },
      )
unfolding decode_from decode_loop decode_field field_of add_deleted_file insert_file
decode_from_pointer level b key low h above below =
    let tail = encode_varint32 level ++ prefixed (b ∷ key) in
    rw
      (
        encode_to_pointer level (b ∷ key) low h,
        fuel,
        get_varint32-encode_varint32 5 tail (omega arith),
        decode_loop,
        get_deleted_file_pointer level (b ∷ key) low h,
      )
      (unknown_tag (length tail) b key _ above below)
  where
    fuel :
        length (encode_varint32 5 ++ (encode_varint32 level ++ prefixed (b ∷ key))) + 1
        ≡ suc (suc (length (encode_varint32 level ++ prefixed (b ∷ key))))
    fuel = unfold encode_varint32 in omega arith
