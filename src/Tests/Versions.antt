-- ===== src/Tests/Versions.antt =====
-- The version set.
use simple_leveldb.Base.{
  false, none, ◌+◌, arith, true, some, List, [], ◌∷◌, Bytes, length, codes, ◌≡◌, refl,
}
use simple_leveldb.Coding.{
  encode_varint32, encode_varint64, put_varint32, put_varint64, put_length_prefixed_slice,
}
use simple_leveldb.Crc32c.Extend.Reference.{portable}
use simple_leveldb.DbFormat.{Comparator}
use simple_leveldb.Filename
use simple_leveldb.Logging
use simple_leveldb.Env.{memory_source}
use simple_leveldb.Log.Writer.{Writer, new_writer}
use simple_leveldb.Log.RoundTrip.{write_all, Fits}
use simple_leveldb.Slice.{not_equal, equal}
use simple_leveldb.Slice
use simple_leveldb.Status.{ok, is_ok, corruption}
use simple_leveldb.VersionEdit.{
  VersionEdit, cleared, encode_to, put_comparator, put_number, put_compact_pointers, put_new_files,
}
use simple_leveldb.VersionEdit.RoundTrip.{IsPlain}
use simple_leveldb.VersionSet.{
  VersionSet, new_version_set, new_file_number, set_last_sequence, mark_file_number_used,
}
use simple_leveldb.VersionSet.Replay.{recover_from}
use simple_leveldb.VersionSet.Recover.{encoded, AllGood}
use simple_leveldb.VersionSet.Finish.{first_missing}
use simple_leveldb.VersionSet.Reuse.{Options, ManifestEnv, reuse_manifest, reusing}
use simple_leveldb.VersionSet.Logged.{next_files, last_sequences, log_numbers}
use simple_leveldb.VersionSet.Manifest.{recover_from-incomplete}

abbrev bytewise : Comparator
bytewise = record {
  compare = simple_leveldb.Slice.compare;
  find_shortest_separator = λ start limit. start;
  find_short_successor = λ key. key;
}

abbrev first_edit : VersionEdit
first_edit = record cleared {
  comparator = codes "bytewise";
  has_comparator = true;
  log_number = 5;
  has_log_number = true;
  next_file_number = 8;
  has_next_file_number = true;
}

abbrev second_edit : VersionEdit
second_edit = record cleared {
  last_sequence = 700;
  has_last_sequence = true;
  next_file_number = 9;
  has_next_file_number = true;
}

first_edit-IsPlain : IsPlain first_edit
first_edit-IsPlain = (
  omega arith,
  omega arith,
  omega arith,
  omega arith,
  omega arith,
  λ e. absurd (ground arith),
  λ e. absurd (ground arith),
  λ e. refl,
  λ e. absurd (ground arith),
  λ e. refl,
  refl,
  refl,
  tt,
)

second_edit-IsPlain : IsPlain second_edit
second_edit-IsPlain = (
  omega arith,
  omega arith,
  omega arith,
  omega arith,
  omega arith,
  λ e. refl,
  λ e. refl,
  λ e. refl,
  λ e. absurd (ground arith),
  λ e. absurd (ground arith),
  refl,
  refl,
  tt,
)

abbrev edits : List VersionEdit
edits = first_edit ∷ second_edit ∷ []

edits-Fits : Fits 0 (encoded edits)
unfolding encode_to put_comparator put_number put_compact_pointers put_new_files
    put_length_prefixed_slice put_varint32 put_varint64 encode_varint32 encode_varint64
edits-Fits = (omega arith, (omega arith, tt))

edits-AllGood : AllGood (codes "bytewise") edits
unfolding not_equal equal
edits-AllGood = (first_edit-IsPlain, refl, (second_edit-IsPlain, refl, tt))

-- Logs are reused, and the manifest is a small file that can be opened.
abbrev options : Options
options = record { reuse_logs = true; max_file_size = 4096 }

abbrev manifest_env : ManifestEnv
manifest_env = record { get_file_size = λ name. (ok, 60); new_appendable_file = λ name. (ok, true) }

-- Without the edit that has the last sequence.
abbrev partial_edits : List VersionEdit
partial_edits = first_edit ∷ []

partial_edits-Fits : Fits 0 (encoded partial_edits)
partial_edits-Fits = (edits-Fits.0, tt)

recover_from-incomplete_example :
    (w : Writer) × (f : Bytes) × (v' : VersionSet) × (write_all portable
        (new_writer portable 9 0)
        []
        (encoded partial_edits)
      ≡ some (ok, w, f))
    × (recover_from bytewise
          (codes "bytewise")
          portable
          memory_source
          options
          manifest_env
          3
          (codes "db/MANIFEST-000004")
          (codes "MANIFEST-000004")
          (length partial_edits + 1)
          1
          f
          new_version_set
          false
        ≡ some (
          corruption
              (first_missing
                (next_files partial_edits)
                (log_numbers partial_edits)
                (last_sequences partial_edits))
              [],
          v',
          false,
        ))
    × (v'.manifest_file_number ≡ 0)
    × (v'.last_sequence ≡ 0)
    × (v'.log_number ≡ 0)
    × (v'.prev_log_number ≡ 0)
    × (v'.has_descriptor_file ≡ false)
    × (v'.descriptor_log ≡ none)
recover_from-incomplete_example =
    recover_from-incomplete bytewise (codes "bytewise") portable options manifest_env 3
      (codes "db/MANIFEST-000004") (codes "MANIFEST-000004") partial_edits 9 0 new_version_set false
      partial_edits-Fits (first_edit-IsPlain, edits-AllGood.1, tt) refl

-- The manifest of a database that reuses its logs is written on.
reuse_manifest_small :
    reuse_manifest options manifest_env portable 3
      (codes "db/MANIFEST-000004")
      (codes "MANIFEST-000004")
      new_version_set
    ≡ some (
      true,
      reusing options manifest_env portable 3 (codes "db/MANIFEST-000004") 4 60 new_version_set,
    )
unfolding reuse_manifest Filename.parse_file_name equal Slice.starts_with Filename.number_then
    Logging.consume_decimal_number Logging.consume_loop Filename.parse_descriptor is_ok
reuse_manifest_small = refl

-- The set of a new database hands out the numbers from 2 on.
new_file_number_twice : (new_file_number (new_file_number new_version_set).1).0 ≡ 3
unfolding new_file_number
new_file_number_twice = refl

mark_file_number_used_above : (mark_file_number_used new_version_set 7).next_file_number ≡ 8
unfolding mark_file_number_used
mark_file_number_used_above = refl

set_last_sequence_later :
    set_last_sequence new_version_set 4 ≡ some (record new_version_set { last_sequence = 4 })
unfolding set_last_sequence
set_last_sequence_later = refl
