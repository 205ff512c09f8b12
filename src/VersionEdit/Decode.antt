-- ===== src/VersionEdit/Decode.antt =====
-- version_edit.cc: `decode_from` and its helpers.
use simple_leveldb.Base.{
  ℕ, zero, suc, ◌+◌, ◌&&◌, ◌||◌, ltb, ◌==◌, if◌then◌else◌, ◌>>=◌, List, [], ◌∷◌, ◌++◌, Bytes,
  length, Option, none, some, codes,
}
use simple_leveldb.Coding.{get_varint32, get_varint64, get_length_prefixed_slice, found, fail}
use simple_leveldb.Status.{Status, ok, corruption}
use simple_leveldb.VersionEdit.{
  VersionEdit, FileMetaData, file_meta_data, cleared, num_levels, set_comparator_name,
  set_log_number, set_prev_log_number, set_next_file, set_last_sequence, k_comparator, k_log_number,
  k_prev_log_number, k_next_file_number, k_last_sequence, k_compact_pointer, k_new_file,
}

unfoldable pub read_slice : Bytes → Option (Bytes × Bytes)
read_slice input = elim (get_length_prefixed_slice input) [
  | found str rest ↦ some (str, rest)
  | fail rest ↦ none
]

unfoldable pub get_internal_key : Bytes → Option (Bytes × Bytes)
unfolding read_slice
get_internal_key input = do
  (str, rest) ← read_slice input
  if length str == 0 then none else some (str, rest)

unfoldable pub get_level : Bytes → Option (ℕ × Bytes)
get_level input = do
  (v, rest) ← get_varint32 input
  if ltb v num_levels then some (v, rest) else none

-- `deleted_files_.insert( { level, number } )` on a `std::set`, which is sorted.
unfoldable pub insert_file : ℕ → ℕ → List (ℕ × ℕ) → List (ℕ × ℕ)
insert_file level number [] = (level, number) ∷ []
insert_file level number ((level', number') ∷ files) =
    if ltb level level' || (level == level' && ltb number number')
    then (level, number) ∷ (level', number') ∷ files
    else if level == level' && number == number'
    then (level', number') ∷ files
    else (level', number') ∷ insert_file level number files

-- The fields of a new file, in the order in which they are read.
unfoldable pub get_new_file : Bytes → Option ((ℕ × FileMetaData) × Bytes)
unfolding get_internal_key get_level
get_new_file input = do
  (level, at_number) ← get_level input
  (number, at_size) ← get_varint64 at_number
  (size, at_smallest) ← get_varint64 at_size
  (smallest, at_largest) ← get_internal_key at_smallest
  (largest, rest) ← get_internal_key at_largest
  some ((level, file_meta_data number size smallest largest), rest)

-- What the `switch` does with the field behind a tag. After a failure only the message matters, and
-- the edit with the fields read so far.
pub data Field : Type 0 where
  parsed : VersionEdit → Bytes → Field
  failed : Bytes → Field

unfoldable pub field_of : {A : Type 0} → Option (A × Bytes) → (A → VersionEdit) → Bytes → Field
field_of none set_field msg = failed msg
field_of (some (a, rest)) set_field msg = parsed (set_field a) rest

-- The case `kCompactPointer`: a level and the number of a deleted file.
unfoldable pub get_deleted_file : Bytes → Option ((ℕ × ℕ) × Bytes)
unfolding get_level
get_deleted_file input = do
  (level, at_number) ← get_level input
  (number, rest) ← get_varint64 at_number
  some ((level, number), rest)

unfoldable pub add_deleted_file : VersionEdit → ℕ × ℕ → VersionEdit
unfolding insert_file
add_deleted_file e (level, number) = record e {
  deleted_files = insert_file level number e.deleted_files;
}

unfoldable pub add_new_file : VersionEdit → ℕ × FileMetaData → VersionEdit
add_new_file e file = record e { new_files = e.new_files ++ file ∷ [] }

unfoldable pub decode_field : VersionEdit → ℕ → Bytes → Field
unfolding field_of read_slice get_deleted_file get_new_file set_comparator_name set_log_number
    set_prev_log_number set_next_file set_last_sequence add_deleted_file add_new_file
decode_field e tag input =
    if tag == k_comparator
    then field_of (read_slice input) (set_comparator_name e) (codes "comparator name")
    else if tag == k_log_number
    then field_of (get_varint64 input) (set_log_number e) (codes "log number")
    else if tag == k_prev_log_number
    then field_of (get_varint64 input) (set_prev_log_number e) (codes "previous log number")
    else if tag == k_next_file_number
    then field_of (get_varint64 input) (set_next_file e) (codes "next file number")
    else if tag == k_last_sequence
    then field_of (get_varint64 input) (set_last_sequence e) (codes "last sequence number")
    else if tag == k_compact_pointer
    then field_of (get_deleted_file input) (add_deleted_file e) (codes "deleted file")
    else if tag == k_new_file
    then field_of (get_new_file input) (add_new_file e) (codes "new-file entry")
    else failed (codes "unknown tag")

-- `status::corruption( "version_edit", msg )`.
unfoldable pub corrupt : Bytes → Status
corrupt msg = corruption (codes "version_edit") msg

-- The `while` loop and the status; `none` is fuel that ran out.
unfoldable pub decode_loop : ℕ → VersionEdit → Bytes → Option (Status × VersionEdit)
unfolding decode_field corrupt
decode_loop zero e input = none
decode_loop (suc fuel) e input = elim (get_varint32 input) [
  | none ↦ some (if length input == 0 then (ok, e) else (corrupt (codes "invalid tag"), e))
  | some (tag, field) ↦ elim (decode_field e tag field) [
    | parsed e' rest ↦ decode_loop fuel e' rest
    | failed msg ↦ some (corrupt msg, e)
  ]
]

-- A tag takes a byte at least, so the fuel is enough.
unfoldable pub decode_from : Bytes → Option (Status × VersionEdit)
unfolding decode_loop
decode_from src = decode_loop (length src + 1) cleared src
