-- ===== src/Tests/Logs.antt =====
-- The log, written and read.
use simple_leveldb.Base.{
  ℕ, ◌+◌, ◌≤◌, arith, true, false, some, List, [], ◌∷◌, ◌++◌, Bytes, length, codes, replicate, ◌≡◌,
  refl,
}
use simple_leveldb.Crc32c.Extend.Reference.{portable}
use simple_leveldb.Env.{memory_sink, memory_source}
use simple_leveldb.Status.{Status, ok, is_ok}
use simple_leveldb.Log.{block_size}
use simple_leveldb.Log.Writer.{Writer, new_writer, add_record}
use simple_leveldb.Log.Writer.Layout.{add_record_total}
use simple_leveldb.Log.Writer.Memory.{
  full_header, after_pad, padding, new_writer-IsSetUp, add_record_full,
}
use simple_leveldb.Log.Reader.{Reader, new_reader, returns, read_physical_record}
use simple_leveldb.Log.Reader.Physical.{read_physical_record_total}
use simple_leveldb.Log.Reader.Scan.{ReadResult, read_record}
use simple_leveldb.Log.Reader.Scan.Total.{read_record_total}
use simple_leveldb.Log.Reader.Scan.Skip.{answers, answers-new_reader}
use simple_leveldb.Log.RoundTrip.{write_all, read_all}
use simple_leveldb.Log.RoundTrip.Whole.{read_all-write_all}

-- A writer at the start of an empty file, whose unset table entry held 9.
abbrev writer : Writer
writer = new_writer portable 9 0

abbrev records : List Bytes
records = codes "first" ∷ [] ∷ codes "third" ∷ []

read_all-write_all_example :
    (w : Writer) × (f : Bytes) × (r : Reader) × (write_all portable writer [] records
      ≡ some (ok, w, f))
    × (read_all portable (length records + 1) 1 (new_reader true true 0) f
        ≡ some (records, r, true))
    × (r.reports ≡ [])
read_all-write_all_example =
    read_all-write_all portable records 9 0 true true
      (omega arith, (omega arith, (omega arith, tt)))

add_record_total_example :
    (r : Status × Writer × Bytes) × (add_record portable memory_sink writer [] (replicate 40000 7)
      ≡ some r)
    × (r.1.block_offset ≤ block_size)
add_record_total_example =
    add_record_total portable memory_sink writer [] (replicate 40000 7)
      (unfold new_writer in omega arith)

add_record_full_example :
    add_record portable memory_sink writer [] (codes "first")
    ≡ some (
      ok,
      record writer { block_offset = after_pad writer.block_offset + (7 + length (codes "first")) },
      []
          ++ (padding writer.block_offset
              ++ (full_header portable (codes "first") ++ codes "first")),
    )
add_record_full_example =
    add_record_full portable writer [] (codes "first") (unfold new_writer in omega arith)
      (new_writer-IsSetUp portable 9 0)

-- A file with too few bytes for a header.
read_physical_record_total_example :
    (type : ℕ) × (fragment : Bytes) × (r' : Reader) × (f' : Bytes) × (read_physical_record portable
        memory_source
        (new_reader true true 0)
        (1 ∷ 2 ∷ [])
        []
      ≡ returns type fragment r' f')
read_physical_record_total_example =
    read_physical_record_total portable memory_source (new_reader true true 0) (1 ∷ 2 ∷ []) []

read_record_total_example :
    (a : ReadResult Bytes) × (read_record portable memory_source 10
        (new_reader true true 0)
        (1 ∷ 2 ∷ [])
        []
        []
      ≡ some a)
read_record_total_example =
    read_record_total portable 10 (new_reader true true 0) (1 ∷ 2 ∷ []) [] []
      (unfold new_reader in omega arith)

answers-new_reader_example :
    answers portable memory_source 3 10
      (new_reader true true 100)
      (1 ∷ 2 ∷ [])
      (codes "c")
      (codes "s")
    ≡ some (replicate 3 false)
unfolding is_ok
answers-new_reader_example =
    answers-new_reader portable memory_source 3 10 true true 100 (1 ∷ 2 ∷ []) (codes "c")
      (codes "s") (omega arith) (λ g n. refl)
