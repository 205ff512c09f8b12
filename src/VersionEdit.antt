-- ===== src/VersionEdit.antt =====
-- leveldb/__detail/version_edit.h and version_edit.cc: the changes of a version, and their form in
-- the manifest. An `internal_key` is the bytes of its `rep_`.
pub mod Decode
pub mod Fields
pub mod Total
pub mod Pieces
pub mod Chain
pub mod RoundTrip
pub mod Compact
use simple_leveldb.Base.{
  ℕ, zero, suc, ◌+◌, ◌^◌, Bool, true, false, not, ◌&&◌, ◌||◌, ltb, ◌==◌, if◌then◌else◌, ◌>>=◌, List,
  [], ◌∷◌, ◌++◌, Bytes, length, Option, none, some, u32, codes,
}
use simple_leveldb.Coding.{
  put_varint32, put_varint64, put_length_prefixed_slice, get_varint32, get_varint64,
  get_length_prefixed_slice, Prefixed, found, fail,
}
use simple_leveldb.Status.{Status, ok, corruption}

abbrev pub num_levels : ℕ
num_levels = 7

pub record FileMetaData : Type 0 where
  pub refs : ℕ
  pub allowed_seeks : ℕ
  pub number : ℕ
  pub file_size : ℕ
  pub smallest : Bytes
  pub largest : Bytes

pub record VersionEdit : Type 0 where
  pub comparator : Bytes
  pub log_number : ℕ
  pub prev_log_number : ℕ
  pub next_file_number : ℕ
  pub last_sequence : ℕ
  pub has_comparator : Bool
  pub has_log_number : Bool
  pub has_prev_log_number : Bool
  pub has_next_file_number : Bool
  pub has_last_sequence : Bool
  pub compact_pointers : List (ℕ × Bytes)
  pub deleted_files : List (ℕ × ℕ)
  pub new_files : List (ℕ × FileMetaData)

-- `clear()`, which the constructor calls.
abbrev pub cleared : VersionEdit
cleared = record {
  comparator = [];
  log_number = 0;
  prev_log_number = 0;
  next_file_number = 0;
  last_sequence = 0;
  has_comparator = false;
  has_log_number = false;
  has_prev_log_number = false;
  has_next_file_number = false;
  has_last_sequence = false;
  compact_pointers = [];
  deleted_files = [];
  new_files = [];
}

unfoldable pub set_comparator_name : VersionEdit → Bytes → VersionEdit
set_comparator_name e name = record e { has_comparator = true; comparator = name }

unfoldable pub set_log_number : VersionEdit → ℕ → VersionEdit
set_log_number e num = record e { has_log_number = true; log_number = num }

unfoldable pub set_prev_log_number : VersionEdit → ℕ → VersionEdit
set_prev_log_number e num = record e { has_prev_log_number = true; prev_log_number = num }

unfoldable pub set_next_file : VersionEdit → ℕ → VersionEdit
set_next_file e num = record e { has_next_file_number = true; next_file_number = num }

unfoldable pub set_last_sequence : VersionEdit → ℕ → VersionEdit
set_last_sequence e seq = record e { has_last_sequence = true; last_sequence = seq }

unfoldable pub set_compact_pointer : VersionEdit → ℕ → Bytes → VersionEdit
set_compact_pointer e level key = record e {
  compact_pointers = e.compact_pointers ++ (level, key) ∷ [];
}

-- A `file_meta_data` as its constructor and the four assignments leave it.
abbrev pub file_meta_data : ℕ → ℕ → Bytes → Bytes → FileMetaData
file_meta_data file file_size smallest largest = record {
  refs = 0;
  allowed_seeks = 2 ^ 30;
  number = file;
  file_size = file_size;
  smallest = smallest;
  largest = largest;
}

unfoldable pub add_file : VersionEdit → ℕ → ℕ → ℕ → Bytes → Bytes → VersionEdit
add_file e level file file_size smallest largest = record e {
  new_files = e.new_files ++ (level, file_meta_data file file_size smallest largest) ∷ [];
}

-- The tags of the fields; `kDeletedFile`, 6, is used nowhere.
abbrev pub k_comparator : ℕ
k_comparator = 1

abbrev pub k_log_number : ℕ
k_log_number = 2

abbrev pub k_next_file_number : ℕ
k_next_file_number = 3

abbrev pub k_last_sequence : ℕ
k_last_sequence = 4

abbrev pub k_compact_pointer : ℕ
k_compact_pointer = 5

abbrev pub k_new_file : ℕ
k_new_file = 7

abbrev pub k_prev_log_number : ℕ
k_prev_log_number = 9

-- A tag and a number behind it, written if the edit has the field.
unfoldable pub put_number : Bool → ℕ → ℕ → Bytes → Bytes
put_number has tag n dst = if has then put_varint64 (put_varint32 dst tag) n else dst

unfoldable pub put_comparator : VersionEdit → Bytes → Bytes
put_comparator e dst =
    if e.has_comparator
    then put_length_prefixed_slice (put_varint32 dst k_comparator) e.comparator
    else dst

unfoldable pub put_compact_pointers : List (ℕ × Bytes) → Bytes → Bytes
put_compact_pointers [] dst = dst
put_compact_pointers ((level, key) ∷ pointers) dst =
    put_compact_pointers pointers (
      put_length_prefixed_slice (put_varint32 (put_varint32 dst k_compact_pointer) (u32 level)) key)

unfoldable pub put_new_file : ℕ → FileMetaData → Bytes → Bytes
put_new_file level file dst =
    put_length_prefixed_slice
      (put_length_prefixed_slice
        (put_varint64
          (put_varint64 (put_varint32 (put_varint32 dst k_new_file) (u32 level)) file.number)
          file.file_size)
        file.smallest)
      file.largest

unfoldable pub put_new_files : List (ℕ × FileMetaData) → Bytes → Bytes
put_new_files [] dst = dst
put_new_files ((level, file) ∷ files) dst = put_new_files files (put_new_file level file dst)

unfoldable pub encode_to : VersionEdit → Bytes → Bytes
encode_to e dst =
    let named = put_comparator e dst in
    let logged = put_number e.has_log_number k_log_number e.log_number named in
    let prev = put_number e.has_prev_log_number k_prev_log_number e.prev_log_number logged in
    let next = put_number e.has_next_file_number k_next_file_number e.next_file_number prev in
    let last = put_number e.has_last_sequence k_last_sequence e.last_sequence next in
    put_new_files e.new_files (put_compact_pointers e.compact_pointers last)
