-- ===== src/Env.antt =====
-- include/leveldb/env.h: the abstract files. Each is a record of its virtual functions over the
-- state `F` of the file, which a call gives back with its result.
use simple_leveldb.Base.{ℕ, Bytes, ◌++◌, take, drop}
use simple_leveldb.Status.{Status, ok}

pub record SequentialFile (F : Type 0) : Type 0 where
  -- `read( n, result, scratch )`: at most `n` bytes.
  pub read : F → ℕ → Status × Bytes × F
  pub skip : F → ℕ → Status × F

pub record WritableFile (F : Type 0) : Type 0 where
  pub append : F → Bytes → Status × F
  pub close : F → Status × F
  pub flush : F → Status × F
  pub sync : F → Status × F

-- A file whose operations all succeed: the bytes that are left to read, or those written.
abbrev pub memory_source : SequentialFile Bytes
memory_source = record { read = λ f n. (ok, take n f, drop n f); skip = λ f n. (ok, drop n f) }

abbrev pub memory_sink : WritableFile Bytes
memory_sink = record {
  append = λ f bytes. (ok, f ++ bytes);
  close = λ f. (ok, f);
  flush = λ f. (ok, f);
  sync = λ f. (ok, f);
}
