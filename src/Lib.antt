-- ===== src/Lib.antt =====
-- simple_leveldb: a key-value store after LevelDB. The parts below the database object: the log that
-- makes writes durable, the edits of the manifest, the keys and the batches, and the utilities they
-- stand on.
--
-- A write batch is the payload of a log record; a log is written by log::writer through a
-- writable_file and read by log::reader through a sequential_file; the manifest is such a log whose
-- records are version edits. All three use util/coding for integers and strings and util/crc32c for
-- checksums; the internal keys of db_format order what the batches insert; the arena holds the memory
-- table, whose entries the skip list keeps in order; the cache keeps tables and blocks, its shards
-- chosen by util/hash; the version set recovers its numbers by reading the manifest and decoding its
-- edits. Files and modules (paths from the repository's root):
--   Base        names shared by all: tests, lists over native numbers, words, laws of | & ^
--   Coding      src/util/coding.cc, include/util/coding.h
--   Slice       include/leveldb/slice.h
--   Status      src/leveldb/status.cc, include/leveldb/status.h
--   Logging     src/util/logging.cc (consume_decimal_number)
--   Filename    src/leveldb/__detail/filename.cc (but set_current_file)
--   Env         include/leveldb/env.h: the files, as records of their virtual functions
--   Crc32c      include/util/crc32c.h, src/util/crc32c.cc (the tables and the portable Extend)
--   Log         include/leveldb/__detail/log_format.h, with Log.Writer for log_write.cc and Log.Reader
--               for log_reader.cc; Log.RoundTrip puts the two together
--   VersionEdit src/leveldb/__detail/version_edit.cc and its header; VersionEdit.Decode for decode_from
--   DbFormat    src/leveldb/__detail/db_format.cc and its header, over the user's comparator
--   WriteBatch  src/leveldb/write_batch.cc, src/leveldb/__detail/write_batch_internal.cc
--   Arena       src/util/arena.cc, include/util/arena.h
--   Cache       src/leveldb/cache.cc: Cache.Table for handle_table, Cache.Shard for lru_cache, and
--               Cache.Sharded for sharded_lru_cache
--   Hash        src/util/hash.cc
--   Random      include/util/random.h
--   SkipList    include/leveldb/__detail/skip_list.h, with SkipList.Iterator for its iterator
--   VersionSet  src/leveldb/__detail/version_set.cc and its header: the numbers, builder::apply, and
--               VersionSet.Replay for recover from the opened manifest on, with VersionSet.Reuse for
--               reuse_manifest
--   Tests       runs at concrete inputs, and each theorem applied to one
--
-- Correspondence. A definition has the name of the function it models, in a module named for its
-- file. A buffer or a slice is the list of its bytes, an output argument is part of the result, and an
-- object is a record that an operation takes and gives back. `none` is the `false` or the null pointer
-- of a failed read. A machine word is a natural number with its wrap-around written out. A file is any
-- record of functions over its own state, so what a theorem says of all files covers every error that
-- a file can return; the checksum is any function with the two properties that its header documents,
-- and Crc32c.Extend.Reference gives one from the code. `new` and the user's comparator are parameters.
--
-- Fuel. add_record has fuel 2 n + 2 for a record of n bytes, since a round that writes no byte ends a
-- block; decode_from has n + 1 for n bytes, since a tag takes a byte; read_record takes its fuel as an
-- argument, and a physical record takes bytes from the file. The loops of Extend have the length of
-- the data. The hash table of the cache doubles its array at most 30 times, which reaches 2^31
-- entries; the loops that evict have one round more than there are entries. The searches of the skip
-- list take their fuel as an argument, and the number of nodes and 12 is enough: a round goes along a
-- level or down. The recovery of a manifest takes its fuel as an argument, and one round more than
-- there are edits is enough.
-- read_physical_record needs none: it goes round again only after it has filled the buffer.
--
-- Not modelled: of the version set the list of versions, with what installs and scores them, and the
-- files beside the manifest; the database object, the posix environment and the memory table;
-- options, ports and mutexes, which are data and glue; the hardware checksum, which is not in the
-- repository. The assertions of the source are hypotheses of the theorems, and results in the
-- cache, in find_less_than of the skip list, in set_last_sequence and in reuse_manifest: a failed one
-- gives `none`. The assertion of key() in the cache is not modelled: it asks that a handle is not the
-- head of an empty list, and the heads are no handles of the model.
pub mod Base
pub mod Coding
pub mod Slice
pub mod Status
pub mod Logging
pub mod Filename
pub mod Env
pub mod Crc32c
pub mod Log
pub mod VersionEdit
pub mod DbFormat
pub mod WriteBatch
pub mod Arena
pub mod Hash
pub mod Random
pub mod Cache
pub mod SkipList
pub mod VersionSet
pub mod Tests
