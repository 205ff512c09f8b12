-- ===== src/VersionSet/Replay.antt =====
-- version_set.cc: `recover` from the opened manifest on, but for the version it installs.
use simple_leveldb.Base.{
  ℕ, zero, suc, ◌+◌, Bool, true, false, not, ◌&&◌, ◌>>=◌, if◌then◌else◌, List, [], ◌∷◌, ◌++◌, Bytes,
  length, drop, Option, none, some, u64, codes,
}
use simple_leveldb.Crc32c.{Checksum}
use simple_leveldb.DbFormat.{Comparator}
use simple_leveldb.Env.{SequentialFile}
use simple_leveldb.Log.Reader.{Reader, new_reader}
use simple_leveldb.Log.Reader.Scan.{read_record}
use simple_leveldb.Slice.{not_equal}
use simple_leveldb.Status.{Status, ok, is_ok, corruption, invalid_argument}
use simple_leveldb.VersionEdit.{VersionEdit}
use simple_leveldb.VersionEdit.Decode.{decode_from}
use simple_leveldb.VersionSet.Reuse.{Options, ManifestEnv, reuse_manifest}
use simple_leveldb.VersionSet.{VersionSet, LevelState, new_levels, apply, mark_file_number_used}

-- The variables of `recover`, the pointers of the set that the builder writes and its levels.
pub record Replay : Type 0 where
  pub status : Status
  pub have_log_number : Bool
  pub have_prev_log_number : Bool
  pub have_next_file : Bool
  pub have_last_sequence : Bool
  pub next_file : ℕ
  pub last_sequence : ℕ
  pub log_number : ℕ
  pub prev_log_number : ℕ
  pub pointers : List Bytes
  pub levels : List LevelState

abbrev pub new_replay : List Bytes → Replay
new_replay pointers = record {
  status = ok;
  have_log_number = false;
  have_prev_log_number = false;
  have_next_file = false;
  have_last_sequence = false;
  next_file = 0;
  last_sequence = 0;
  log_number = 0;
  prev_log_number = 0;
  pointers = pointers;
  levels = new_levels;
}

-- `log_reporter::corruption`, for what a call of the reader reports.
unfoldable pub note_reports : Status → List (ℕ × Status) → Status
note_reports s [] = s
note_reports s ((bytes, report) ∷ reports) = note_reports (if is_ok s then report else s) reports

-- The comparator of the database is `user`, called `name`.
module _ (user : Comparator) (name : Bytes) where
  unfoldable pub check_comparator : Status → VersionEdit → Status
  check_comparator s e =
      if is_ok s
      then (if e.has_comparator && not_equal e.comparator name
          then invalid_argument (e.comparator ++ codes " dose not match exsisting comparator ") name
          else s)
      else s

  unfoldable pub apply_if_ok : Status → VersionEdit → Replay → Replay
  unfolding apply
  apply_if_ok s e m =
      if is_ok s
      then (let (pointers, levels) = apply user e m.pointers m.levels in
          record m { status = s; pointers = pointers; levels = levels })
      else record m { status = s }

  unfoldable pub take_log_number : VersionEdit → Replay → Replay
  take_log_number e m =
      if e.has_log_number then record m { log_number = e.log_number; have_log_number = true } else m

  unfoldable pub take_prev_log_number : VersionEdit → Replay → Replay
  take_prev_log_number e m =
      if e.has_prev_log_number
      then record m { prev_log_number = e.prev_log_number; have_prev_log_number = true }
      else m

  unfoldable pub take_next_file : VersionEdit → Replay → Replay
  take_next_file e m =
      if e.has_next_file_number
      then record m { next_file = e.next_file_number; have_next_file = true }
      else m

  unfoldable pub take_last_sequence : VersionEdit → Replay → Replay
  take_last_sequence e m =
      if e.has_last_sequence
      then record m { last_sequence = e.last_sequence; have_last_sequence = true }
      else m

  -- The body of the loop behind `decode_from`, whose status is `s`.
  unfoldable pub take_edit : Status → VersionEdit → Replay → Replay
  unfolding check_comparator apply_if_ok take_log_number take_prev_log_number take_next_file
      take_last_sequence
  take_edit s e m = take_last_sequence e (
      take_next_file e
        (take_prev_log_number e (take_log_number e (apply_if_ok (check_comparator s e) e m))))

  -- Without the count of the records, which only a log message has. `rounds` bounds the records,
  -- `fuel` the physical records of one.
  unfoldable pub replay_loop :
      {F : Type 0}
      → Checksum
      → SequentialFile F
      → (rounds fuel : ℕ) → Reader
      → F
      → Replay
      → Option (Replay × Reader)
  unfolding note_reports take_edit
  replay_loop crc source zero fuel r f m = none
  replay_loop crc source (suc rounds) fuel r f m = elim (read_record crc source fuel r f [] []) [
    | none ↦ none
    | some x ↦
        let s = note_reports m.status (drop (length r.reports) x.reader.reports) in
        elim (x.success && is_ok s) [
          | true ↦ elim (decode_from x.content) [
            | none ↦ none
            | some (s', e) ↦
                replay_loop crc source rounds fuel x.reader x.file
                  (take_edit s' e (record m { status = s }))
          ]
          | false ↦ some (record m { status = s }, x.reader)
        ]
  ]

-- The entries that the descriptor must have.
unfoldable pub check_entries : Replay → Status
check_entries m =
    if is_ok m.status
    then (if not m.have_next_file
        then corruption (codes "no meta-nextfile entry in descriptor") []
        else if not m.have_log_number
        then corruption (codes "no meta-lognumber entry in descriptor") []
        else if not m.have_last_sequence
        then corruption (codes "no last-sequence-number entry in descriptor") []
        else m.status)
    else m.status

-- What follows the loop, for the numbers.
unfoldable pub finish : Replay → VersionSet → Status × VersionSet
unfolding check_entries mark_file_number_used
finish m v =
    let s = check_entries m in
    let prev = if not m.have_prev_log_number then 0 else m.prev_log_number in
    let pointed = record v { compact_pointers = m.pointers } in
    let marked = mark_file_number_used (mark_file_number_used pointed prev) m.log_number in
    if is_ok s
    then (
      s,
      record marked {
        manifest_file_number = m.next_file;
        next_file_number = u64 (m.next_file + 1);
        last_sequence = m.last_sequence;
        log_number = m.log_number;
        prev_log_number = prev;
      },
    )
    else (s, marked)

-- What follows for the manifest: whether it has to be saved, which is told by setting a flag.
unfoldable pub settle :
    Options
    → ManifestEnv
    → Checksum
    → ℕ
    → (dscname dscbase : Bytes) → Status
    → VersionSet
    → Bool
    → Option (Status × VersionSet × Bool)
unfolding reuse_manifest
settle o env crc garbage dscname dscbase s v save_manifest =
    if is_ok s
    then (do
      (reused, v') ← reuse_manifest o env crc garbage dscname dscbase v
      some (s, v', if reused then save_manifest else true))
    else some (s, v, save_manifest)

-- The manifest `dscname` is opened as `f`, and `dscbase` is its name without the directory. The reader
-- checks its checksums and starts at 0. `none` is fuel that ran out, or a failed assertion.
unfoldable pub recover_from :
    {F : Type 0}
    → Comparator
    → Bytes
    → Checksum
    → SequentialFile F
    → Options
    → ManifestEnv
    → ℕ
    → (dscname dscbase : Bytes) → (rounds fuel : ℕ) → F
    → VersionSet
    → Bool
    → Option (Status × VersionSet × Bool)
unfolding replay_loop finish settle
recover_from user name crc source o env garbage dscname dscbase rounds fuel f v save_manifest =
    elim (replay_loop user name crc source rounds fuel (new_reader true true 0) f
      (new_replay v.compact_pointers)) [
        | none ↦ none
        | some (m, r) ↦
            let (s, v') = finish m v in settle o env crc garbage dscname dscbase s v' save_manifest
      ]
