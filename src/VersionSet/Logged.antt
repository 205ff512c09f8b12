-- ===== src/VersionSet/Logged.antt =====
-- version_set.cc: manifests written as logs of edits, and what the loop of `recover` finds in them.
use simple_leveldb.Base.{ℕ, List, Bytes, [], Option, some, ◌≡◌, refl, subst}
use simple_leveldb.Crc32c.{Checksum}
use simple_leveldb.DbFormat.{Comparator}
use simple_leveldb.Log.RoundTrip.{write_all, image, Fits}
use simple_leveldb.Log.RoundTrip.Image.{write_all-image}
use simple_leveldb.Log.RoundTrip.Whole.{first-Fits}
use simple_leveldb.Log.Writer.{Writer, new_writer}
use simple_leveldb.Log.Writer.Memory.{new_writer-IsSetUp}
use simple_leveldb.Status.{ok}
use simple_leveldb.VersionEdit.{VersionEdit}
use simple_leveldb.VersionSet.{VersionSet}
use simple_leveldb.VersionSet.Replay.{Replay, new_replay}
use simple_leveldb.VersionSet.Numbers.{last_set, take_all-numbers}
use simple_leveldb.VersionSet.Recover.{encoded, AllGood, replayed, replayed-status}
use simple_leveldb.VersionSet.Finish.{Found}

abbrev pub next_files : List VersionEdit → Option ℕ
next_files = last_set (λ e. e.has_next_file_number) (λ e. e.next_file_number)

abbrev pub last_sequences : List VersionEdit → Option ℕ
last_sequences = last_set (λ e. e.has_last_sequence) (λ e. e.last_sequence)

abbrev pub log_numbers : List VersionEdit → Option ℕ
log_numbers = last_set (λ e. e.has_log_number) (λ e. e.log_number)

abbrev pub prev_log_numbers : List VersionEdit → Option ℕ
prev_log_numbers = last_set (λ e. e.has_prev_log_number) (λ e. e.prev_log_number)

pub Found-some :
    (next last log : ℕ) (a b c prev : Option ℕ) (m : Replay)
    → a ≡ some next
    → b ≡ some last
    → c ≡ some log
    → Found a b c prev m
    → Found (some next) (some last) (some log) prev m
Found-some next last log a b c prev m ea eb ec h =
    subst (λ a. Found a (some last) (some log) prev m) ea
      (subst (λ b. Found a b (some log) prev m) eb (subst (λ c. Found a b c prev m) ec h))

module _ (user : Comparator) (name : Bytes) (crc : Checksum) where
  pub replayed-Found :
      (es : List VersionEdit) (v : VersionSet)
      → AllGood name es
      → Found
          (next_files es)
          (last_sequences es)
          (log_numbers es)
          (prev_log_numbers es)
          (replayed user name crc es v)
  replayed-Found es v good =
      let m = new_replay v.compact_pointers in
      let h = take_all-numbers user name es m in
      (replayed-status user name crc es m good refl, h.0, h.1, h.2, h.3)

  pub write_all-encoded :
      (es : List VersionEdit) (garbage : ℕ)
      → Fits 0 (encoded es)
      → (w : Writer) × (write_all crc (new_writer crc garbage 0) [] (encoded es)
          ≡ some (ok, w, image crc 0 (encoded es)))
  unfolding new_writer
  write_all-encoded es garbage h =
      write_all-image crc (new_writer crc garbage 0) [] (encoded es)
        (first-Fits crc (encoded es) garbage h) (new_writer-IsSetUp crc garbage 0)
