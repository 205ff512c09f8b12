-- ===== src/VersionEdit/Pieces.antt =====
-- The parts of an edit that were written, read back one by one.
use simple_leveldb.Base.{
  ℕ, ◌<◌, arith, [], ◌++◌, Bytes, length, some, ◌≡◌, refl, sym, ap, ◌∙◌, IsU32, IsU64,
}
use simple_leveldb.Coding.{encode_varint32, encode_varint64, get_length_prefixed_slice, found}
use simple_leveldb.Coding.RoundTrip.{
  get_varint64-encode_varint64, get_varint32-encode_varint32, put_length_prefixed_slice-eq,
  get_length_prefixed_slice-put_length_prefixed_slice,
}
use simple_leveldb.VersionEdit.{FileMetaData, file_meta_data, num_levels}
use simple_leveldb.VersionEdit.Decode.{read_slice, get_internal_key, get_level, get_new_file}

-- A length-prefixed string, and the bytes of a new file, on their own.
abbrev pub prefixed : Bytes → Bytes
prefixed s = encode_varint32 (length s) ++ s

abbrev pub IsKey : Bytes → Type 0
IsKey k = IsU32 (length k) × (0 < length k)

abbrev pub IsFile : ℕ × FileMetaData → Type 0
IsFile (level, f) =
    (level < num_levels)
    × IsU64 f.number
    × IsU64 f.file_size
    × IsKey f.smallest
    × IsKey f.largest
    × (f ≡ file_meta_data f.number f.file_size f.smallest f.largest)

-- The string of a slice that was written.
pub read_slice-prefixed :
    (s rest : Bytes) → IsU32 (length s) → read_slice (prefixed s ++ rest) ≡ some (s, rest)
unfolding read_slice
read_slice-prefixed s rest h = rw (found_again, read_slice) refl
  where
    found_again : get_length_prefixed_slice (prefixed s ++ rest) ≡ found s rest
    found_again =
        ap (λ b. get_length_prefixed_slice (b ++ rest)) (sym (put_length_prefixed_slice-eq [] s h))
        ∙ get_length_prefixed_slice-put_length_prefixed_slice s rest h

get_internal_key-prefixed :
    (k rest : Bytes) → IsKey k → get_internal_key (prefixed k ++ rest) ≡ some (k, rest)
unfolding get_internal_key
get_internal_key-prefixed k rest h = rw (read_slice-prefixed k rest h.0) (ground arith)

pub get_level-encode :
    (level : ℕ) (rest : Bytes)
    → level < num_levels
    → get_level (encode_varint32 level ++ rest) ≡ some (level, rest)
unfolding get_level
get_level-encode level rest h =
    rw (get_varint32-encode_varint32 level rest (omega arith)) (ground arith)

abbrev pub file_bytes : ℕ → FileMetaData → Bytes → Bytes
file_bytes level f rest =
    encode_varint32 level
    ++ (encode_varint64 f.number
        ++ (encode_varint64 f.file_size ++ (prefixed f.smallest ++ (prefixed f.largest ++ rest))))

pub get_new_file-file_bytes :
    (level : ℕ) (f : FileMetaData) (rest : Bytes)
    → IsFile (level, f)
    → get_new_file (file_bytes level f rest) ≡ some ((level, f), rest)
unfolding get_new_file
get_new_file-file_bytes level f rest (low, number, size, smallest, largest, whole) =
    rw
      (
        get_level-encode level _ low,
        get_varint64-encode_varint64 f.number _ number,
        get_varint64-encode_varint64 f.file_size _ size,
        get_internal_key-prefixed f.smallest _ smallest,
        get_internal_key-prefixed f.largest rest largest,
      )
      (ap (λ f. some ((level, f), rest)) (sym whole))
