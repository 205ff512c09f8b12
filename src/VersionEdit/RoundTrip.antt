-- ===== src/VersionEdit/RoundTrip.antt =====
-- version_edit.cc: `decode_from` on what `encode_to` writes.
use simple_leveldb.Base.{
  ℕ, ◌+◌, arith, Bool, true, false, if◌then◌else◌, List, [], ◌∷◌, ◌++◌, Bytes, All, length, Option,
  some, u32, ◌≡◌, refl, sym, ap, ◌∙◌, append-nil, append_assoc, IsU32, IsU64,
}
use simple_leveldb.Coding.{encode_varint32, put_varint32, put_varint64, put_length_prefixed_slice}
use simple_leveldb.Coding.RoundTrip.{get_varint64-encode_varint64, put_length_prefixed_slice-eq}
use simple_leveldb.Status.{Status, ok}
use simple_leveldb.VersionEdit.{
  VersionEdit, FileMetaData, cleared, put_number, put_comparator, put_compact_pointers,
  put_new_file, put_new_files, encode_to, k_comparator, k_log_number, k_prev_log_number,
  k_next_file_number, k_last_sequence, k_new_file, set_comparator_name, set_log_number,
  set_prev_log_number, set_next_file, set_last_sequence,
}
use simple_leveldb.VersionEdit.Decode.{field_of, decode_field, decode_from}
use simple_leveldb.VersionEdit.Pieces.{file_bytes, IsFile, read_slice-prefixed}
use simple_leveldb.VersionEdit.Chain.{
  Decodes, number_bytes, files_bytes, comparator_bytes, Decodes-number, Decodes-files,
  Decodes-comparator,
}

-- What `encode_to` writes, from the end of the buffer on.
abbrev edit_bytes : VersionEdit → Bytes
edit_bytes e = comparator_bytes e.has_comparator e.comparator (
    number_bytes e.has_log_number k_log_number e.log_number (
      number_bytes e.has_prev_log_number k_prev_log_number e.prev_log_number (
        number_bytes e.has_next_file_number k_next_file_number e.next_file_number (
          number_bytes e.has_last_sequence k_last_sequence e.last_sequence
            (files_bytes e.new_files)))))

put_number-bytes :
    (has : Bool) (tag n : ℕ) (dst rest : Bytes)
    → put_number has tag n dst ++ rest ≡ dst ++ number_bytes has tag n rest
unfolding put_number put_varint32 put_varint64
put_number-bytes true tag n dst rest = simp append_assoc refl
put_number-bytes false tag n dst rest = refl

put_comparator-bytes :
    (e : VersionEdit) (dst rest : Bytes)
    → IsU32 (length e.comparator)
    → put_comparator e dst ++ rest ≡ dst ++ comparator_bytes e.has_comparator e.comparator rest
unfolding put_comparator put_varint32
put_comparator-bytes e dst rest h = go e.has_comparator
  where
    go :
        (has : Bool)
        → (if has
              then put_length_prefixed_slice (put_varint32 dst k_comparator) e.comparator
              else dst)
            ++ rest
          ≡ dst ++ comparator_bytes has e.comparator rest
    go true =
        rw (put_length_prefixed_slice-eq (dst ++ encode_varint32 1) e.comparator h)
          (simp append_assoc refl)
    go false = refl

put_new_file-bytes :
    (level : ℕ) (f : FileMetaData) (dst rest : Bytes)
    → IsFile (level, f)
    → put_new_file level f dst ++ rest
      ≡ dst ++ (encode_varint32 k_new_file ++ file_bytes level f rest)
unfolding put_new_file put_varint32 put_varint64
put_new_file-bytes level f dst rest (low, number, size, smallest, largest, whole) =
    rw
      (
        u32_level,
        put_length_prefixed_slice-eq _ f.largest largest.0,
        put_length_prefixed_slice-eq _ f.smallest smallest.0,
      )
      (simp append_assoc refl)
  where
    u32_level : u32 level ≡ level
    u32_level = omega arith

put_new_files-bytes :
    (files : List (ℕ × FileMetaData)) (dst : Bytes)
    → All IsFile files
    → put_new_files files dst ≡ dst ++ files_bytes files
unfolding put_new_files
put_new_files-bytes [] dst h = sym (append-nil dst)
put_new_files-bytes ((level, f) ∷ files) dst h =
    put_new_files-bytes files (put_new_file level f dst) h.1
    ∙ put_new_file-bytes level f dst (files_bytes files) h.0

-- An edit that `encode_to` can write and `decode_from` can read: without compact pointers and deleted
-- files, with the value of `clear` in each field that it has not, and numbers of 64 bits.
abbrev pub IsPlain : VersionEdit → Type 0
IsPlain e =
    IsU32 (length e.comparator)
    × IsU64 e.log_number
    × IsU64 e.prev_log_number
    × IsU64 e.next_file_number
    × IsU64 e.last_sequence
    × (e.has_comparator ≡ false → e.comparator ≡ [])
    × (e.has_log_number ≡ false → e.log_number ≡ 0)
    × (e.has_prev_log_number ≡ false → e.prev_log_number ≡ 0)
    × (e.has_next_file_number ≡ false → e.next_file_number ≡ 0)
    × (e.has_last_sequence ≡ false → e.last_sequence ≡ 0)
    × (e.compact_pointers ≡ [])
    × (e.deleted_files ≡ [])
    × All IsFile e.new_files

encode_to-edit_bytes :
    (e : VersionEdit) (dst : Bytes) → IsPlain e → encode_to e dst ≡ dst ++ edit_bytes e
unfolding encode_to put_compact_pointers
encode_to-edit_bytes e dst h = rw (h.10) (
    put_new_files-bytes e.new_files _ h.12
    ∙ put_number-bytes e.has_last_sequence k_last_sequence e.last_sequence _ _
    ∙ put_number-bytes e.has_next_file_number k_next_file_number e.next_file_number _ _
    ∙ put_number-bytes e.has_prev_log_number k_prev_log_number e.prev_log_number _ _
    ∙ put_number-bytes e.has_log_number k_log_number e.log_number _ _
    ∙ put_comparator-bytes (record e { compact_pointers = [] }) dst _ h.0)

-- The numbers of a plain edit, and its files, are read one after another.
edit_bytes-Decodes : (e : VersionEdit) → IsPlain e → Decodes cleared (edit_bytes e) e
unfolding decode_field field_of set_comparator_name set_log_number set_prev_log_number set_next_file
    set_last_sequence
edit_bytes-Decodes e h =
    Decodes-comparator e.has_comparator e.comparator cleared named e _
      (λ t. rw (t, read_slice-prefixed e.comparator _ h.0) refl) (λ f. rw (f, h.5 f) refl)
      (Decodes-number e.has_log_number k_log_number e.log_number named logged e _ (omega arith)
        (λ t. rw (t, get_varint64-encode_varint64 e.log_number _ h.1) refl)
        (λ f. rw (f, h.6 f) refl)
        (Decodes-number e.has_prev_log_number k_prev_log_number e.prev_log_number logged prev e _
          (omega arith) (λ t. rw (t, get_varint64-encode_varint64 e.prev_log_number _ h.2) refl)
          (λ f. rw (f, h.7 f) refl)
          (Decodes-number e.has_next_file_number k_next_file_number e.next_file_number prev next e _
            (omega arith) (λ t. rw (t, get_varint64-encode_varint64 e.next_file_number _ h.3) refl)
            (λ f. rw (f, h.8 f) refl)
            (Decodes-number e.has_last_sequence k_last_sequence e.last_sequence next last e _
              (omega arith) (λ t. rw (t, get_varint64-encode_varint64 e.last_sequence _ h.4) refl)
              (λ f. rw (f, h.9 f) refl)
              (λ fuel more. Decodes-files e.new_files last h.12 fuel more ∙ whole)))))
  where
    named : VersionEdit
    named = record cleared { has_comparator = e.has_comparator; comparator = e.comparator }

    logged : VersionEdit
    logged = record named { has_log_number = e.has_log_number; log_number = e.log_number }

    prev : VersionEdit
    prev = record logged {
      has_prev_log_number = e.has_prev_log_number;
      prev_log_number = e.prev_log_number;
    }

    next : VersionEdit
    next = record prev {
      has_next_file_number = e.has_next_file_number;
      next_file_number = e.next_file_number;
    }

    last : VersionEdit
    last = record next { has_last_sequence = e.has_last_sequence; last_sequence = e.last_sequence }

    done : VersionEdit → Option (Status × VersionEdit)
    done x = some (ok, x)

    whole : done (record last { new_files = e.new_files }) ≡ done e
    whole =
        ap (λ c. done (record e { compact_pointers = c; deleted_files = [] })) (sym h.10)
        ∙ ap (λ d. done (record e { deleted_files = d })) (sym h.11)

-- A plain edit comes back from its encoding: `decode_from` of what `encode_to` appends to an empty
-- string succeeds and gives all the fields and files of the edit.
pub decode_from-encode_to :
    (e : VersionEdit) → IsPlain e → decode_from (encode_to e []) ≡ some (ok, e)
unfolding decode_from
decode_from-encode_to e h =
    rw (encode_to-edit_bytes e [] h)
      (edit_bytes-Decodes e h (length (edit_bytes e) + 1) (omega arith))
