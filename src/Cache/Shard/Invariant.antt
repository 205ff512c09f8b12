-- ===== src/Cache/Shard/Invariant.antt =====
-- leveldb/cache.cc: what `lru_cache` keeps between its calls.
use simple_leveldb.Base.{
  ℕ, ◌+◌, ◌-◌, ◌≤◌, ◌≡◌, ◌↔◌, Bool, true, false, ◌&&◌, Option, none, some, ◌==◌, if◌then◌else◌, u64,
}
use simple_leveldb.Cache.{Handle}
use simple_leveldb.Cache.Table
use simple_leveldb.Cache.Table.{Table}
use simple_leveldb.Cache.Table.Slots
use simple_leveldb.Cache.Shard.{Cell, Shard}
use simple_leveldb.Cache.Shard.Lists.{occ, total}

-- The references that clients hold: the count without that of the cache.
abbrev pub clients : Option Cell → ℕ
clients none = 0
clients (some cell) = cell.refs - (if cell.in_cache then 1 else 0)

abbrev pub cached : Option Cell → Bool
cached none = false
cached (some cell) = cell.in_cache

abbrev pub allocated : Option Cell → ℕ
allocated none = 0
allocated (some _) = 1

-- An entry in the cache stands in one list: in `lru` if only the cache refers to it. Any other
-- handle stands in none.
abbrev pub Placed : Option Cell → ℕ → ℕ → Type 0
Placed none a b = (a ≡ 0) × (b ≡ 0)
Placed (some cell) a b =
    (1 ≤ cell.refs)
    × (a + b ≡ (if cell.in_cache then 1 else 0))
    × (a ≡ (if cell.in_cache && cell.refs == 1 then 1 else 0))

-- `S` tells which handles the cache has.
pub record Inv (S : Handle → Type 0) (c : Shard) : Type 0 where
  pub table_valid : Slots.IsValid c.table
  pub placed : (e : Handle) → Placed (c.cells e) (occ e c.lru) (occ e c.in_use)
  pub charged : c.usage ≡ u64 (total c.lru + total c.in_use)
  pub indexed : (e : Handle) → (cached (c.cells e) ≡ true) ↔ S e

-- The handles that the hash table finds under their own keys.
abbrev pub Stored : Shard → Handle → Type 0
Stored c e = Table.look_up e.key e.hash c.table ≡ some e

-- Between two calls the cache has what its hash table finds.
abbrev pub IsValid : Shard → Type 0
IsValid c = Inv (Stored c) c

-- From one state to the next: `gained` and `lost` are the references that clients get and give
-- back, `made` the handles that are allocated. A handle leaves the store when its deleter is called.
pub record Moves (gained lost made : Handle → ℕ) (c c' : Shard) : Type 0 where
  pub held : (x : Handle) → clients (c'.cells x) + lost x ≡ clients (c.cells x) + gained x
  pub counted :
      (x : Handle)
      → occ x c'.deleted + allocated (c'.cells x) ≡ occ x c.deleted + allocated (c.cells x) + made x
  pub capacity : c'.capacity ≡ c.capacity

abbrev pub nobody : Handle → ℕ
nobody x = 0
