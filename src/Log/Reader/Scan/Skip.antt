-- ===== src/Log/Reader/Scan/Skip.antt =====
-- `read_record` before the initial offset.
use simple_leveldb.Base.{
  ℕ, ◌+◌, ◌-◌, ◌%◌, ◌<◌, arith, if◌then◌else◌, u64, lt→ltb, true, false, Bool, Bytes, Option, none,
  some, List, [], ◌∷◌, zero, suc, replicate, ◌≡◌, refl, ltb,
}
use simple_leveldb.Crc32c.{Checksum}
use simple_leveldb.Env.{SequentialFile}
use simple_leveldb.Log.{block_size}
use simple_leveldb.Log.Reader.{Reader, new_reader}
use simple_leveldb.Log.Reader.Scan.{ReadResult, read_record, skip_to_initial_block}
use simple_leveldb.Status.{is_ok}

pub skip_to_initial_block_succeeds :
    {F : Type 0} (crc : Checksum) (file : SequentialFile F) (r : Reader) (f : F)
    → ((g : F) (n : ℕ) → is_ok (file.skip g n).0 ≡ true)
    → let p = skip_to_initial_block crc file r f in
      (p.0 ≡ true)
      × (p.1.last_record_offset ≡ r.last_record_offset)
      × (p.1.initial_offset ≡ r.initial_offset)
unfolding skip_to_initial_block
skip_to_initial_block_succeeds crc file r f skips =
    let offset_in_block = r.initial_offset % block_size in
    let block_start = r.initial_offset - offset_in_block in
    let start : ℕ =
      if ltb (block_size - 6) offset_in_block
      then u64 (block_start + block_size)
      else block_start in
    ground (arith, skips f start)

read_record_before :
    {F : Type 0} (crc : Checksum) (file : SequentialFile F) (fuel : ℕ) (r : Reader) (f : F)
    (content scratch : Bytes)
    → r.last_record_offset < r.initial_offset
    → ((g : F) (n : ℕ) → is_ok (file.skip g n).0 ≡ true)
    → (a : ReadResult F) × (read_record crc file fuel r f content scratch ≡ some a)
      × (a.success ≡ false)
      × (a.content ≡ content)
      × (a.scratch ≡ scratch)
      × (a.reader.last_record_offset < a.reader.initial_offset)
unfolding read_record
read_record_before crc file fuel r f content scratch before skips =
    let (ok', last, initial) = skip_to_initial_block_succeeds crc file r f skips in
    rw (lt→ltb _ _ before, ok') (_, refl, refl, refl, refl, omega arith)

-- What `n` calls of `read_record` return, one after another on the same strings.
unfoldable pub answers :
    {F : Type 0}
    → Checksum
    → SequentialFile F
    → (n fuel : ℕ) → Reader
    → F
    → Bytes
    → Bytes
    → Option (List Bool)
answers crc file zero fuel r f content scratch = some []
answers crc file (suc n) fuel r f content scratch =
    elim (read_record crc file fuel r f content scratch) [
      | none ↦ none
      | some x ↦ elim (answers crc file n fuel x.reader x.file x.content x.scratch) [
        | none ↦ none
        | some rest ↦ some (x.success ∷ rest)
      ]
    ]

answers_before :
    {F : Type 0} (crc : Checksum) (file : SequentialFile F) (n fuel : ℕ) (r : Reader) (f : F)
    (content scratch : Bytes)
    → r.last_record_offset < r.initial_offset
    → ((g : F) (k : ℕ) → is_ok (file.skip g k).0 ≡ true)
    → answers crc file n fuel r f content scratch ≡ some (replicate n false)
unfolding answers
answers_before crc file zero fuel r f content scratch before skips = refl
answers_before crc file (suc n) fuel r f content scratch before skips =
    let (x, e, failed, same, same', after) =
      read_record_before crc file fuel r f content scratch before skips in
    rw
      (
        e,
        answers,
        answers_before crc file n fuel x.reader x.file x.content x.scratch after skips,
        failed,
      )
      refl

-- A reader made with an initial offset above 0 never reads a record, whatever the file holds, if the
-- file can skip to every place: however often `read_record` is called, every call returns `false`.
pub answers-new_reader :
    {F : Type 0} (crc : Checksum) (file : SequentialFile F) (n fuel : ℕ) (reporting checksum : Bool)
    (initial_offset : ℕ) (f : F) (content scratch : Bytes)
    → 0 < initial_offset
    → ((g : F) (k : ℕ) → is_ok (file.skip g k).0 ≡ true)
    → answers crc file n fuel (new_reader reporting checksum initial_offset) f content scratch
      ≡ some (replicate n false)
unfolding new_reader
answers-new_reader crc file n fuel reporting checksum initial_offset f content scratch above skips =
    answers_before crc file n fuel (new_reader reporting checksum initial_offset) f content scratch
      above skips
