-- ===== src/Log/RoundTrip.antt =====
-- log_write.cc and log_reader.cc together, on files in memory.
pub mod Image
pub mod Reading
pub mod Whole
use simple_leveldb.Base.{
  ℕ, zero, suc, ◌+◌, ◌-◌, ◌*◌, ◌≤◌, ◌<◌, arith, Bool, true, false, ltb, if◌then◌else◌, List, [],
  ◌∷◌, ◌++◌, Bytes, length, Option, none, some, ◌≡◌, refl,
}
use simple_leveldb.Crc32c.{Checksum}
use simple_leveldb.Env.{memory_sink, memory_source}
use simple_leveldb.Log.{block_size}
use simple_leveldb.Log.Writer.{Writer, add_record}
use simple_leveldb.Log.Writer.Memory.{full_header, after_pad, padding}
use simple_leveldb.Log.Reader.{Reader}
use simple_leveldb.Log.Reader.Scan.{read_record}
use simple_leveldb.Status.{Status, ok, is_ok}

-- One `add_record` after another, as a client of the writer calls it that stops at the first status
-- that is not `ok`.
unfoldable pub write_all : Checksum → Writer → Bytes → List Bytes → Option (Status × Writer × Bytes)
unfolding is_ok
write_all crc w f [] = some (ok, w, f)
write_all crc w f (sle ∷ sles) = elim (add_record crc memory_sink w f sle) [
  | none ↦ none
  | some (s, w', f') ↦ elim (is_ok s) [ true ↦ write_all crc w' f' sles | false ↦ some (s, w', f') ]
]

-- The loop `while ( reader.read_record( &record, &scratch ) )` of the clients of the reader: the
-- records read, the reader after them, and whether a call was false within `rounds` calls.
unfoldable pub read_all :
    Checksum → (rounds fuel : ℕ) → Reader → Bytes → Option (List Bytes × Reader × Bool)
read_all crc zero fuel r f = some ([], r, false)
read_all crc (suc rounds) fuel r f = elim (read_record crc memory_source fuel r f [] []) [
  | none ↦ none
  | some x ↦ elim x.success [
    | true ↦ prepend x.content (read_all crc rounds fuel x.reader x.file)
    | false ↦ some ([], x.reader, true)
  ]
]
  where
    prepend : Bytes → Option (List Bytes × Reader × Bool) → Option (List Bytes × Reader × Bool)
    prepend sle none = none
    prepend sle (some (records, r', ended)) = some (sle ∷ records, r', ended)

-- The bytes of a log from the offset `o` of a block on, each record in one block.
abbrev pub image : Checksum → ℕ → List Bytes → Bytes
image crc o [] = []
image crc o (sle ∷ sles) =
    padding o ++ (full_header crc sle ++ (sle ++ image crc (after_pad o + (7 + length sle)) sles))

-- Each record has room in the block where its header is written.
abbrev pub Fits : ℕ → List Bytes → Type 0
Fits o [] = Unit
Fits o (sle ∷ sles) =
    (after_pad o + 7 + length sle ≤ block_size) × Fits (after_pad o + (7 + length sle)) sles
