-- ===== src/VersionEdit/Chain.antt =====
-- The loop of `decode_from` on fields that were written, one after another.
use simple_leveldb.Base.{
  ℕ, zero, suc, ◌≤◌, ◌<◌, arith, Bool, true, false, if◌then◌else◌, List, [], ◌∷◌, ◌++◌, Bytes, All,
  length, none, some, ◌≡◌, refl, sym, ap, ◌∙◌, append-nil, append_assoc, IsU32,
}
use simple_leveldb.Coding.{encode_varint32, encode_varint64, get_varint32}
use simple_leveldb.Coding.Decode.{get_varint32_shrinks}
use simple_leveldb.Coding.RoundTrip.{get_varint32-encode_varint32}
use simple_leveldb.Status.{ok}
use simple_leveldb.VersionEdit.{VersionEdit, FileMetaData, k_comparator, k_new_file}
use simple_leveldb.VersionEdit.Decode.{parsed, field_of, decode_field, decode_loop, add_new_file}
use simple_leveldb.VersionEdit.Fields.{FieldLeaves, decode_field-Leaves}
use simple_leveldb.VersionEdit.Pieces.{prefixed, file_bytes, IsFile, get_new_file-file_bytes}

-- With enough fuel the loop reads `input` to its end, and leaves `result`.
abbrev pub Decodes : VersionEdit → Bytes → VersionEdit → Type 0
Decodes e input result =
    (fuel : ℕ) → length input < fuel → decode_loop fuel e input ≡ some (ok, result)

Decodes-field :
    (e e' result : VersionEdit) (tag : ℕ) (field rest : Bytes)
    → IsU32 tag
    → decode_field e tag field ≡ parsed e' rest
    → Decodes e' rest result
    → Decodes e (encode_varint32 tag ++ field) result
unfolding decode_loop
Decodes-field e e' result tag field rest small read next zero h = absurd (omega arith)
Decodes-field e e' result tag field rest small read next (suc fuel) h =
    let taken = get_varint32-encode_varint32 tag field small in
    let shrinks = get_varint32_shrinks _ tag field taken in
    let left : length rest ≤ length field = ap-leaves (decode_field-Leaves e tag field) in
    rw (taken, decode_loop, read) (next fuel (omega arith))
  where
    ap-leaves : FieldLeaves (length field) (decode_field e tag field) → length rest ≤ length field
    ap-leaves l = rw read at l

Decodes-end : (e : VersionEdit) → Decodes e [] e
unfolding decode_loop
Decodes-end e zero h = absurd (omega arith)
Decodes-end e (suc fuel) h = rw (nothing, decode_loop) refl
  where
    nothing : get_varint32 [] ≡ none
    nothing = unfold get_varint32 in refl

abbrev pub number_bytes : Bool → ℕ → ℕ → Bytes → Bytes
number_bytes has tag n rest =
    if has then encode_varint32 tag ++ (encode_varint64 n ++ rest) else rest

pub Decodes-number :
    (has : Bool) (tag n : ℕ) (e e' result : VersionEdit) (rest : Bytes)
    → IsU32 tag
    → (has ≡ true → decode_field e tag (encode_varint64 n ++ rest) ≡ parsed e' rest)
    → (has ≡ false → e ≡ e')
    → Decodes e' rest result
    → Decodes e (number_bytes has tag n rest) result
Decodes-number true tag n e e' result rest small read same next =
    Decodes-field e e' result tag (encode_varint64 n ++ rest) rest small (read refl) next
Decodes-number false tag n e e' result rest small read same next = rw (same refl) next

abbrev pub files_bytes : List (ℕ × FileMetaData) → Bytes
files_bytes [] = []
files_bytes ((level, f) ∷ files) =
    encode_varint32 k_new_file ++ file_bytes level f (files_bytes files)

pub Decodes-files :
    (files : List (ℕ × FileMetaData)) (e : VersionEdit)
    → All IsFile files
    → Decodes e (files_bytes files) (record e { new_files = e.new_files ++ files })
unfolding decode_field field_of add_new_file
Decodes-files [] e h = λ fuel more.
    Decodes-end e fuel more
    ∙ ap (λ fs. some (ok, record e { new_files = fs })) (sym (append-nil e.new_files))
Decodes-files ((level, f) ∷ files) e h =
    Decodes-field e (record e { new_files = e.new_files ++ (level, f) ∷ [] }) _ k_new_file
      (file_bytes level f (files_bytes files)) (files_bytes files) (omega arith)
      (rw (get_new_file-file_bytes level f (files_bytes files) h.0) refl)
      (λ fuel more.
        Decodes-files files _ h.1 fuel more
        ∙ ap (λ fs. some (ok, record e { new_files = fs }))
            (append_assoc e.new_files ((level, f) ∷ []) files))

abbrev pub comparator_bytes : Bool → Bytes → Bytes → Bytes
comparator_bytes has name rest =
    if has then encode_varint32 k_comparator ++ (prefixed name ++ rest) else rest

pub Decodes-comparator :
    (has : Bool) (name : Bytes) (e e' result : VersionEdit) (rest : Bytes)
    → (has ≡ true → decode_field e k_comparator (prefixed name ++ rest) ≡ parsed e' rest)
    → (has ≡ false → e ≡ e')
    → Decodes e' rest result
    → Decodes e (comparator_bytes has name rest) result
Decodes-comparator true name e e' result rest read same next =
    Decodes-field e e' result k_comparator (prefixed name ++ rest) rest (omega arith) (read refl)
      next
Decodes-comparator false name e e' result rest read same next = rw (same refl) next
