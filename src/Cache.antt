-- ===== src/Cache.antt =====
-- leveldb/cache.cc: the LRU cache, its entries and the test by which the hash table finds one.
pub mod Table
pub mod Shard
pub mod Sharded
use simple_leveldb.Base.{ℕ, ◌≡◌, ◌↔◌, arith, Bool, true, false, not, ◌||◌, ◌==◌, Bytes}
use simple_leveldb.Slice
use simple_leveldb.Slice.Prefix.{equal_iff}

-- `lru_handle`: its address `id` and the fields that `insert` sets and nothing changes later. The
-- reference count and `in_cache` are kept apart, and the links are the lists that it stands in.
pub record Handle : Type 0 where
  pub id : ℕ
  pub value : ℕ
  pub charge : ℕ
  pub hash : ℕ
  pub key : Bytes

-- The test that keeps the loop of `find_pointer` going.
unfoldable pub differs : Bytes → ℕ → Handle → Bool
unfolding Slice.not_equal
differs key hash h = not (h.hash == hash) || Slice.not_equal key h.key

pub differs_iff :
    (key : Bytes) (hash : ℕ) (h : Handle)
    → (differs key hash h ≡ false) ↔ ((h.hash ≡ hash) × (h.key ≡ key))
unfolding differs Slice.not_equal
differs_iff key hash h = ground (arith, equal_iff key h.key)
