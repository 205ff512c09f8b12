-- ===== src/VersionEdit/Fields.antt =====
-- version_edit.cc: what one field takes from the input.
use simple_leveldb.Base.{
  ℕ, ◌≤◌, arith, Bool, true, false, ◌==◌, if◌then◌else◌, ◌>>=◌, Bytes, length, Option, none, some,
  length-drop, Option-cases, inl, inr,
}
use simple_leveldb.Coding.{get_varint32, get_varint64, get_length_prefixed_slice, split_at}
use simple_leveldb.Coding.Decode.{get_varint32_shrinks, get_varint64_takes}
use simple_leveldb.VersionEdit.{
  VersionEdit, k_comparator, k_log_number, k_prev_log_number, k_next_file_number, k_last_sequence,
  k_compact_pointer, k_new_file,
}
use simple_leveldb.VersionEdit.Decode.{
  Field, parsed, failed, read_slice, get_internal_key, get_level, get_new_file, get_deleted_file,
  field_of, decode_field,
}

-- An option that is some value leaves at most `n` bytes.
abbrev Leaves : {A : Type 0} → ℕ → Option (A × Bytes) → Type 0
Leaves n none = Unit
Leaves n (some (a, rest)) = length rest ≤ n

abbrev pub FieldLeaves : ℕ → Field → Type 0
FieldLeaves n (parsed e rest) = length rest ≤ n
FieldLeaves n (failed msg) = Unit

get_varint32-Leaves : (input : Bytes) → Leaves (length input) (get_varint32 input)
get_varint32-Leaves input = elim (Option-cases (get_varint32 input)) [
  | inl e ↦ rw e tt
  | inr (r, e) ↦ rw e (omega (arith, get_varint32_shrinks input r.0 r.1 e))
]

get_varint64-Leaves : (input : Bytes) → Leaves (length input) (get_varint64 input)
get_varint64-Leaves input = elim (Option-cases (get_varint64 input)) [
  | inl e ↦ rw e tt
  | inr (r, e) ↦ rw e (omega (arith, get_varint64_takes input r.0 r.1 e))
]

Leaves-mono : {A : Type 0} (n m : ℕ) (o : Option (A × Bytes)) → n ≤ m → Leaves n o → Leaves m o
Leaves-mono n m none h l = tt
Leaves-mono n m (some (a, rest)) h l = omega arith

-- A chain of readers leaves no more than its input.
Leaves-bind :
    {A B : Type 0} (n : ℕ) (o : Option (A × Bytes)) (k : A × Bytes → Option (B × Bytes))
    → Leaves n o
    → ((a : A) (rest : Bytes) → Leaves (length rest) (k (a, rest)))
    → Leaves n (o >>= k)
Leaves-bind n none k l h = tt
Leaves-bind n (some (a, rest)) k l h = Leaves-mono (length rest) n (k (a, rest)) l (h a rest)

read_slice-Leaves : (input : Bytes) → Leaves (length input) (read_slice input)
unfolding read_slice get_length_prefixed_slice split_at
read_slice-Leaves input = elim (Option-cases (get_varint32 input)) [
  | inl e ↦ rw (e, Leaves) tt
  | inr (r, e) ↦
      rw (e, Leaves) (ground (arith, length-drop r.0 r.1, get_varint32_shrinks input r.0 r.1 e))
]

get_internal_key-Leaves : (input : Bytes) → Leaves (length input) (get_internal_key input)
unfolding get_internal_key
get_internal_key-Leaves input =
    Leaves-bind _ (read_slice input) _ (read_slice-Leaves input) (λ str rest. ground arith)

get_level-Leaves : (input : Bytes) → Leaves (length input) (get_level input)
unfolding get_level
get_level-Leaves input =
    Leaves-bind _ (get_varint32 input) _ (get_varint32-Leaves input) (λ v rest. ground arith)

get_new_file-Leaves : (input : Bytes) → Leaves (length input) (get_new_file input)
unfolding get_new_file
get_new_file-Leaves input = Leaves-bind _ (get_level input) _ (get_level-Leaves input) (λ level r₁.
    Leaves-bind _ (get_varint64 r₁) _ (get_varint64-Leaves r₁) (λ n r₂.
      Leaves-bind _ (get_varint64 r₂) _ (get_varint64-Leaves r₂) (λ size r₃.
        Leaves-bind _ (get_internal_key r₃) _ (get_internal_key-Leaves r₃) (λ smallest r₄.
          Leaves-bind _ (get_internal_key r₄) _ (get_internal_key-Leaves r₄)
            (λ largest r₅. omega arith)))))

get_deleted_file-Leaves : (input : Bytes) → Leaves (length input) (get_deleted_file input)
unfolding get_deleted_file
get_deleted_file-Leaves input =
    Leaves-bind _ (get_level input) _ (get_level-Leaves input)
      (λ level r₁. Leaves-bind _ (get_varint64 r₁) _ (get_varint64-Leaves r₁) (λ n r₂. omega arith))

field_of-Leaves :
    {A : Type 0} (n : ℕ) (o : Option (A × Bytes)) (set_field : A → VersionEdit) (msg : Bytes)
    → Leaves n o
    → FieldLeaves n (field_of o set_field msg)
unfolding field_of
field_of-Leaves n none set_field msg l = tt
field_of-Leaves n (some (a, rest)) set_field msg l = l

-- No field takes more than the input.
pub decode_field-Leaves :
    (e : VersionEdit) (tag : ℕ) (input : Bytes)
    → FieldLeaves (length input) (decode_field e tag input)
unfolding decode_field
decode_field-Leaves e tag input =
    let name = read_slice-Leaves input in
    let number = get_varint64-Leaves input in
    let deleted = get_deleted_file-Leaves input in
    let file = get_new_file-Leaves input in
    if-FieldLeaves (tag == k_comparator) _ _ (field_of-Leaves _ _ _ _ name) (
      if-FieldLeaves (tag == k_log_number) _ _ (field_of-Leaves _ _ _ _ number) (
        if-FieldLeaves (tag == k_prev_log_number) _ _ (field_of-Leaves _ _ _ _ number) (
          if-FieldLeaves (tag == k_next_file_number) _ _ (field_of-Leaves _ _ _ _ number) (
            if-FieldLeaves (tag == k_last_sequence) _ _ (field_of-Leaves _ _ _ _ number) (
              if-FieldLeaves (tag == k_compact_pointer) _ _ (field_of-Leaves _ _ _ _ deleted)
                (if-FieldLeaves (tag == k_new_file) _ _ (field_of-Leaves _ _ _ _ file) tt))))))
  where
    if-FieldLeaves :
        (b : Bool) (x y : Field)
        → FieldLeaves (length input) x
        → FieldLeaves (length input) y
        → FieldLeaves (length input) (if b then x else y)
    if-FieldLeaves true x y l m = l
    if-FieldLeaves false x y l m = m
