-- ===== src/VersionSet/Reuse.antt =====
-- version_set.cc: `reuse_manifest`, over the options and the calls of the environment that it uses.
use simple_leveldb.Base.{
  ℕ, Bool, true, false, not, ◌||◌, leb, if◌then◌else◌, ◌≡◌, refl, ap, ◌∙◌, ◌⊎◌, inl, inr, Bytes,
  Option, none, some, Bool-cases, Option-cases,
}
use simple_leveldb.Crc32c.{Checksum}
use simple_leveldb.Filename.{
  FileType, log_file, db_lock_file, table_file, descriptor_file, current_file, temp_file,
  info_log_file, parse_file_name,
}
use simple_leveldb.Log.Writer.{Writer, new_writer}
use simple_leveldb.Status.{Status, is_ok}
use simple_leveldb.VersionSet.{VersionSet}

pub record Options : Type 0 where
  pub reuse_logs : Bool
  pub max_file_size : ℕ

-- `get_file_size` gives the size too, and `new_appendable_file` tells whether it set the pointer to
-- a file.
pub record ManifestEnv : Type 0 where
  pub get_file_size : Bytes → Status × ℕ
  pub new_appendable_file : Bytes → Status × Bool

unfoldable pub target_file_size : Options → ℕ
target_file_size o = o.max_file_size

pub is_descriptor : FileType → Bool
is_descriptor descriptor_file = true
is_descriptor log_file = false
is_descriptor db_lock_file = false
is_descriptor table_file = false
is_descriptor current_file = false
is_descriptor temp_file = false
is_descriptor info_log_file = false

pub has_log : Option Writer → Bool
has_log none = false
has_log (some w) = true

-- `garbage` is what the writer's table of checksums holds before it is set.
module _ (o : Options) (env : ManifestEnv) (crc : Checksum) (garbage : ℕ) (dscname : Bytes) where
  -- From the opening of the file on; `none` is a failed assertion.
  unfoldable pub append_manifest : ℕ → ℕ → VersionSet → Option (Bool × VersionSet)
  unfolding has_log
  append_manifest number size v =
      let (r, opened) = env.new_appendable_file dscname in
      if v.has_descriptor_file || has_log v.descriptor_log
      then none
      else if is_ok r
      then some (
        true,
        record v {
          has_descriptor_file = opened;
          descriptor_log = some (new_writer crc garbage size);
          manifest_file_number = number;
        },
      )
      else if opened
      then some (false, record v { has_descriptor_file = opened })
      else none

  -- The tests of the type and of the size behind `parse_file_name`.
  unfoldable pub reuse_named : ℕ → FileType → VersionSet → Option (Bool × VersionSet)
  unfolding append_manifest target_file_size is_descriptor
  reuse_named number type v =
      let (s, size) = env.get_file_size dscname in
      if not (is_descriptor type) || not (is_ok s) || leb (target_file_size o) size
      then some (false, v)
      else append_manifest number size v

  -- Whether the manifest is used again, and the set.
  unfoldable pub reuse_manifest : Bytes → VersionSet → Option (Bool × VersionSet)
  unfolding reuse_named
  reuse_manifest dscbase v =
      if not o.reuse_logs then some (false, v) else elim (parse_file_name dscbase) [
        | none ↦ some (false, v)
        | some (number, type) ↦ reuse_named number type v
      ]

  -- The set with the manifest of that number as its descriptor.
  abbrev pub reusing : ℕ → ℕ → VersionSet → VersionSet
  reusing number size v = record v {
    has_descriptor_file = (env.new_appendable_file dscname).1;
    descriptor_log = some (new_writer crc garbage size);
    manifest_file_number = number;
  }

  -- The manifest is not used again, or it is the descriptor with the number of its name.
  abbrev pub Reuses : Bytes → VersionSet → Option (Bool × VersionSet) → Type 0
  Reuses dscbase v x =
      (x ≡ some (false, v))
      ⊎ ((number : ℕ) × (o.reuse_logs ≡ true)
          × (parse_file_name dscbase ≡ some (number, descriptor_file))
          × (x ≡ some (true, reusing number (env.get_file_size dscname).1 v)))

  module _ (v : VersionSet) (free : v.has_descriptor_file ≡ false) (unset : v.descriptor_log ≡ none)
      (opens : is_ok (env.new_appendable_file dscname).0 ≡ true) where
    append_manifest_lem :
        (number size : ℕ) → append_manifest number size v ≡ some (true, reusing number size v)
    unfolding append_manifest has_log
    append_manifest_lem number size = rw (free, unset, opens) refl

    reuse_named_lem :
        (number : ℕ) (type : FileType)
        → (reuse_named number type v ≡ some (false, v))
          ⊎ ((type ≡ descriptor_file)
              × (reuse_named number type v
                  ≡ some (true, reusing number (env.get_file_size dscname).1 v)))
    unfolding reuse_named is_descriptor
    reuse_named_lem number descriptor_file =
        let (s, size) = env.get_file_size dscname in
        elim (Bool-cases (not (is_ok s) || leb (target_file_size o) size)) [
          | inl unfit ↦ inl (rw unfit refl)
          | inr fit ↦ inr (refl, rw fit (append_manifest_lem number size))
        ]
    reuse_named_lem number _ = inl refl

    pub reuse_manifest_lem : (dscbase : Bytes) → Reuses dscbase v (reuse_manifest dscbase v)
    unfolding reuse_manifest
    reuse_manifest_lem dscbase = elim (Bool-cases o.reuse_logs) [
      | inr off ↦ inl (rw off refl)
      | inl on ↦ elim (Option-cases (parse_file_name dscbase)) [
        | inl unnamed ↦ inl (rw (on, unnamed) refl)
        | inr ((number, type), named) ↦ elim (reuse_named_lem number type) [
          | inl unfit ↦ inl (rw (on, named) unfit)
          | inr (typed, fit) ↦ inr (
            number,
            on,
            named ∙ ap (λ (t : FileType). some (number, t)) typed,
            rw (on, named) fit,
          )
        ]
      ]
    ]
