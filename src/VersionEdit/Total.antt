-- ===== src/VersionEdit/Total.antt =====
-- version_edit.cc: the rounds of `decode_from` on any input.
use simple_leveldb.Base.{
  ℕ, zero, suc, ◌+◌, ◌≤◌, ◌<◌, arith, ◌==◌, if◌then◌else◌, Bytes, [], ◌∷◌, ◌≢◌, length, Option,
  none, some, codes, ◌≡◌, refl, Option-cases, inl, inr,
}
use simple_leveldb.Coding.{get_varint32}
use simple_leveldb.Coding.Decode.{get_varint32_shrinks}
use simple_leveldb.Status.{Status, ok}
use simple_leveldb.VersionEdit.{VersionEdit, cleared}
use simple_leveldb.VersionEdit.Decode.{
  Field, parsed, failed, corrupt, decode_field, decode_loop, decode_from,
}
use simple_leveldb.VersionEdit.Fields.{FieldLeaves, decode_field-Leaves}

-- The fields at the front of `input`, entered in `e` one after another, leave `e'` and `rest`.
pub data Reads (e' : VersionEdit) (rest : Bytes) : VersionEdit → Bytes → Type 0 where
  stop : Reads e' rest e' rest
  more :
      (e : VersionEdit) (input : Bytes) (tag : ℕ) (field : Bytes) (next : VersionEdit)
      (left : Bytes)
      → get_varint32 input ≡ some (tag, field)
      → decode_field e tag field ≡ parsed next left
      → Reads e' rest next left
      → Reads e' rest e input

-- Why no field follows in front of `rest`, and the status for it.
pub data Ends (e : VersionEdit) (rest : Bytes) (s : Status) : Type 0 where
  no_more : rest ≡ [] → s ≡ ok → Ends e rest s
  bad_tag : rest ≢ [] → get_varint32 rest ≡ none → s ≡ corrupt (codes "invalid tag") → Ends e rest s
  bad_field :
      (tag : ℕ) (field msg : Bytes)
      → get_varint32 rest ≡ some (tag, field)
      → decode_field e tag field ≡ failed msg
      → s ≡ corrupt msg
      → Ends e rest s

-- What the loop makes of an edit and an input.
abbrev Decoded : VersionEdit → Bytes → Option (Status × VersionEdit) → Type 0
Decoded e input x =
    (s : Status) × (e' : VersionEdit) × (rest : Bytes) × (x ≡ some (s, e'))
    × Reads e' rest e input
    × Ends e' rest s

-- After a field the loop goes on with a shorter input.
follow :
    (fuel : ℕ) (e : VersionEdit) (tag : ℕ) (input field : Bytes) (x : Field)
    → get_varint32 input ≡ some (tag, field)
    → decode_field e tag field ≡ x
    → ((e' : VersionEdit) (rest : Bytes)
        → length rest ≤ length field
        → Decoded e' rest (decode_loop fuel e' rest))
    → FieldLeaves (length field) x
    → Decoded e input
        (elim x [ parsed e' rest ↦ decode_loop fuel e' rest | failed msg ↦ some (corrupt msg, e) ])
follow fuel e tag input field (parsed next left) taken is again l =
    let (s, e', rest, r, reads, ends) = again next left l in
    (s, e', rest, r, more e input tag field next left taken is reads, ends)
follow fuel e tag input field (failed msg) taken is again l =
    (corrupt msg, e, input, refl, stop, bad_field tag field msg taken is refl)

no_tag :
    (e : VersionEdit) (input : Bytes)
    → get_varint32 input ≡ none
    → Decoded e input
        (some (if length input == 0 then (ok, e) else (corrupt (codes "invalid tag"), e)))
no_tag e [] absent = (ok, e, [], refl, stop, no_more refl refl)
no_tag e (b ∷ input) absent =
    (corrupt (codes "invalid tag"), e, b ∷ input, ground arith, stop, bad_tag (λ c. cc) absent refl)

decode_loop_total :
    (fuel : ℕ) (e : VersionEdit) (input : Bytes)
    → length input < fuel
    → Decoded e input (decode_loop fuel e input)
unfolding decode_loop
decode_loop_total zero e input h = absurd (omega arith)
decode_loop_total (suc fuel) e input h = elim (Option-cases (get_varint32 input)) [
  | inl none' ↦ rw (none', decode_loop) (no_tag e input none')
  | inr (r, taken) ↦
      let shrinks = get_varint32_shrinks input r.0 r.1 taken in
      rw (taken, decode_loop)
        (follow fuel e r.0 input r.1 (decode_field e r.0 r.1) taken refl
          (λ e' rest l. decode_loop_total fuel e' rest (omega arith))
          (decode_field-Leaves e r.0 r.1))
]

-- On every input `decode_from` ends. The edit it gives holds the fields read one after another from
-- the front of the input, with the status `ok` when they are the whole input, and otherwise, at the
-- first tag or field that cannot be read, a corruption that tells which.
pub decode_from_total :
    (src : Bytes)
    → (s : Status) × (e : VersionEdit) × (rest : Bytes) × (decode_from src ≡ some (s, e))
      × Reads e rest cleared src
      × Ends e rest s
unfolding decode_from
decode_from_total src = decode_loop_total (length src + 1) cleared src (omega arith)
