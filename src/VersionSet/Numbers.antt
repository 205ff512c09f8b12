-- ===== src/VersionSet/Numbers.antt =====
-- version_set.cc: what the numbers are after the edits of a manifest.
use simple_leveldb.Base.{
  ℕ, Bool, true, false, ◌&&◌, if◌then◌else◌, List, [], ◌∷◌, Bytes, Option, none, some, ◌≡◌, refl,
  Bool-cases, Option-cases, ◌∙◌, arith, inl, inr,
}
use simple_leveldb.DbFormat.{Comparator}
use simple_leveldb.Slice.{not_equal}
use simple_leveldb.Status.{ok}
use simple_leveldb.VersionEdit.{VersionEdit}
use simple_leveldb.VersionSet.Replay.{
  Replay, check_comparator, apply_if_ok, take_log_number, take_prev_log_number, take_next_file,
  take_last_sequence, take_edit,
}

-- The number of the last edit that has one.
abbrev pub last_set : (VersionEdit → Bool) → (VersionEdit → ℕ) → List VersionEdit → Option ℕ
last_set has num [] = none
last_set has num (e ∷ es) = elim (last_set has num es) [
  | some n ↦ some n
  | none ↦ if has e then some (num e) else none
]

-- The flag and the value of a variable that `found` sets.
abbrev pub is_set : Bool → Option ℕ → Bool
is_set have none = have
is_set have (some n) = true

abbrev pub set_to : ℕ → Option ℕ → ℕ
set_to old none = old
set_to old (some n) = n

-- The edit names no comparator or the one of the database.
abbrev pub Agrees : Bytes → VersionEdit → Type 0
Agrees name e = e.has_comparator && not_equal e.comparator name ≡ false

set_to-last_set :
    (has : VersionEdit → Bool) (num : VersionEdit → ℕ) (old : ℕ) (e : VersionEdit)
    (es : List VersionEdit)
    → set_to (if has e then num e else old) (last_set has num es)
      ≡ set_to old (last_set has num (e ∷ es))
set_to-last_set has num old e es = elim (Option-cases (last_set has num es)) [
  | inl none_set ↦ elim (Bool-cases (has e)) [
    | inl t ↦ rw (none_set, t) refl
    | inr f ↦ rw (none_set, f) refl
  ]
  | inr (n, found) ↦ rw found refl
]

is_set-last_set :
    (has : VersionEdit → Bool) (num : VersionEdit → ℕ) (have : Bool) (e : VersionEdit)
    (es : List VersionEdit)
    → is_set (if has e then true else have) (last_set has num es)
      ≡ is_set have (last_set has num (e ∷ es))
is_set-last_set has num have e es = elim (Option-cases (last_set has num es)) [
  | inl none_set ↦ elim (Bool-cases (has e)) [
    | inl t ↦ rw (none_set, t) refl
    | inr f ↦ rw (none_set, f) refl
  ]
  | inr (n, found) ↦ rw found refl
]

module _ (user : Comparator) (name : Bytes) where
  abbrev pub take_all : List VersionEdit → Replay → Replay
  take_all [] m = m
  take_all (e ∷ es) m = take_all es (take_edit user name ok e m)

  take_edit-next_file :
      (e : VersionEdit) (m : Replay)
      → ((take_edit user name ok e m).next_file
          ≡ (if e.has_next_file_number then e.next_file_number else m.next_file))
        × ((take_edit user name ok e m).have_next_file
            ≡ (if e.has_next_file_number then true else m.have_next_file))
  unfolding take_edit check_comparator apply_if_ok take_log_number take_prev_log_number
      take_next_file take_last_sequence
  take_edit-next_file e m = (ground arith, ground arith)

  take_edit-last_sequence :
      (e : VersionEdit) (m : Replay)
      → ((take_edit user name ok e m).last_sequence
          ≡ (if e.has_last_sequence then e.last_sequence else m.last_sequence))
        × ((take_edit user name ok e m).have_last_sequence
            ≡ (if e.has_last_sequence then true else m.have_last_sequence))
  unfolding take_edit check_comparator apply_if_ok take_log_number take_prev_log_number
      take_next_file take_last_sequence
  take_edit-last_sequence e m = (ground arith, ground arith)

  take_edit-log_number :
      (e : VersionEdit) (m : Replay)
      → ((take_edit user name ok e m).log_number
          ≡ (if e.has_log_number then e.log_number else m.log_number))
        × ((take_edit user name ok e m).have_log_number
            ≡ (if e.has_log_number then true else m.have_log_number))
  unfolding take_edit check_comparator apply_if_ok take_log_number take_prev_log_number
      take_next_file take_last_sequence
  take_edit-log_number e m = (ground arith, ground arith)

  take_edit-prev_log_number :
      (e : VersionEdit) (m : Replay)
      → ((take_edit user name ok e m).prev_log_number
          ≡ (if e.has_prev_log_number then e.prev_log_number else m.prev_log_number))
        × ((take_edit user name ok e m).have_prev_log_number
            ≡ (if e.has_prev_log_number then true else m.have_prev_log_number))
  unfolding take_edit check_comparator apply_if_ok take_log_number take_prev_log_number
      take_next_file take_last_sequence
  take_edit-prev_log_number e m = (ground arith, ground arith)

  pub take_edit-status :
      (e : VersionEdit) (m : Replay) → Agrees name e → (take_edit user name ok e m).status ≡ ok
  unfolding take_edit check_comparator apply_if_ok take_log_number take_prev_log_number
      take_next_file take_last_sequence
  take_edit-status e m agrees = ground arith

  -- A variable and its flag that each edit sets as it says are set by the last one that does.
  module _ (value : Replay → ℕ) (have : Replay → Bool) (has : VersionEdit → Bool)
      (num : VersionEdit → ℕ)
      (step : (e : VersionEdit) (m : Replay)
        → (value (take_edit user name ok e m) ≡ (if has e then num e else value m))
          × (have (take_edit user name ok e m) ≡ (if has e then true else have m))) where
    take_all-field :
        (es : List VersionEdit) (m : Replay)
        → (value (take_all es m) ≡ set_to (value m) (last_set has num es))
          × (have (take_all es m) ≡ is_set (have m) (last_set has num es))
    take_all-field [] m = (refl, refl)
    take_all-field (e ∷ es) m =
        let (values, flags) = take_all-field es (take_edit user name ok e m) in
        let (set, flagged) = step e m in
        (
          values ∙ (rw set refl ∙ set_to-last_set has num (value m) e es),
          flags ∙ (rw flagged refl ∙ is_set-last_set has num (have m) e es),
        )

  -- The four numbers after the edits, and whether there was one.
  pub take_all-numbers :
      (es : List VersionEdit) (m : Replay)
      → let m' = take_all es m in
        let next = last_set (λ e. e.has_next_file_number) (λ e. e.next_file_number) es in
        let last = last_set (λ e. e.has_last_sequence) (λ e. e.last_sequence) es in
        let log = last_set (λ e. e.has_log_number) (λ e. e.log_number) es in
        let prev = last_set (λ e. e.has_prev_log_number) (λ e. e.prev_log_number) es in
        ((m'.next_file ≡ set_to m.next_file next)
          × (m'.have_next_file ≡ is_set m.have_next_file next))
        × ((m'.last_sequence ≡ set_to m.last_sequence last)
            × (m'.have_last_sequence ≡ is_set m.have_last_sequence last))
        × ((m'.log_number ≡ set_to m.log_number log)
            × (m'.have_log_number ≡ is_set m.have_log_number log))
        × ((m'.prev_log_number ≡ set_to m.prev_log_number prev)
            × (m'.have_prev_log_number ≡ is_set m.have_prev_log_number prev))
  take_all-numbers es m = (
    take_all-field (λ m. m.next_file) (λ m. m.have_next_file) (λ e. e.has_next_file_number)
        (λ e. e.next_file_number) take_edit-next_file es m,
    take_all-field (λ m. m.last_sequence) (λ m. m.have_last_sequence) (λ e. e.has_last_sequence)
        (λ e. e.last_sequence) take_edit-last_sequence es m,
    take_all-field (λ m. m.log_number) (λ m. m.have_log_number) (λ e. e.has_log_number)
        (λ e. e.log_number) take_edit-log_number es m,
    take_all-field (λ m. m.prev_log_number) (λ m. m.have_prev_log_number)
        (λ e. e.has_prev_log_number) (λ e. e.prev_log_number) take_edit-prev_log_number es m,
  )
