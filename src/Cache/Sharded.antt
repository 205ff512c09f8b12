-- ===== src/Cache/Sharded.antt =====
-- leveldb/cache.cc: `sharded_lru_cache`. A handle carries the hash of its key.
pub mod Insert
use simple_leveldb.Base.{
  ℕ, zero, suc, ◌+◌, ◌-◌, ◌/◌, ◌%◌, ◌^◌, Option, none, some, List, [], ◌∷◌, Bytes, get_or, set,
  length, ◌>>=◌, u64, shr,
}
use simple_leveldb.Hash
use simple_leveldb.Cache.{Handle}
use simple_leveldb.Cache.Shard
use simple_leveldb.Cache.Shard.{Shard}

abbrev pub num_shard_bits : ℕ
num_shard_bits = 4

abbrev pub num_shards : ℕ
num_shards = 2 ^ num_shard_bits

pub record Sharded : Type 0 where
  pub shards : List Shard
  pub last_id : ℕ

unfoldable pub hash_slice : Bytes → ℕ
hash_slice s = Hash.hash s 0

-- `hash >> ( 32 - kNumShardBits )`
unfoldable pub shard_of : ℕ → ℕ
shard_of hash = shr hash (32 - num_shard_bits)

-- The constructor of the array.
unfoldable pub new_shards : ℕ → ℕ → Option (List Shard)
new_shards zero per_shard = some []
new_shards (suc n) per_shard = do
  c ← Shard.new_shard per_shard
  rest ← new_shards n per_shard
  some (c ∷ rest)

unfoldable pub per_shard : ℕ → ℕ
per_shard capacity = u64 (capacity + (num_shards - 1)) / num_shards

unfoldable pub new_cache : ℕ → Option Sharded
unfolding new_shards per_shard
new_cache capacity = do
  shards ← new_shards num_shards (per_shard capacity)
  some (record { shards = shards; last_id = 0 })

-- `shard_[ i ]`; the index of a hash of 32 bits is below 16.
unfoldable pub shard_at : List Shard → ℕ → Option Shard
shard_at [] i = none
shard_at (c ∷ l) zero = some c
shard_at (c ∷ l) (suc i) = shard_at l i

-- A call on one shard.
unfoldable pub on_shard : ℕ → (Shard → Option Shard) → Sharded → Option Sharded
unfolding shard_at
on_shard i f s = do
  c ← shard_at s.shards i
  c' ← f c
  some (record s { shards = set s.shards i c' })

-- The address that `malloc` returns is `id`.
unfoldable pub insert : ℕ → Bytes → ℕ → ℕ → Sharded → Option (Sharded × Handle)
unfolding on_shard hash_slice shard_of
insert id key value charge s =
    let e : Handle = record {
      id = id;
      value = value;
      charge = charge;
      hash = hash_slice key;
      key = key;
    } in
    on_shard (shard_of (hash_slice key)) (Shard.insert e) s >>= (λ s'. some (s', e))

unfoldable pub look_up : Bytes → Sharded → Option (Sharded × Option Handle)
unfolding shard_at hash_slice shard_of
look_up key s = do
  let hash = hash_slice key
  c ← shard_at s.shards (shard_of hash)
  (c', found) ← Shard.look_up key hash c
  some (record s { shards = set s.shards (shard_of hash) c' }, found)

unfoldable pub release : Handle → Sharded → Option Sharded
unfolding on_shard shard_of
release h s = on_shard (shard_of h.hash) (Shard.release h) s

unfoldable pub erase : Bytes → Sharded → Option Sharded
unfolding on_shard hash_slice shard_of
erase key s =
    let hash = hash_slice key in
    on_shard (shard_of hash) (λ c. Shard.erase key hash c >>= λ r. some r.0) s

abbrev pub value : Handle → ℕ
value h = h.value

unfoldable pub new_id : Sharded → Sharded × ℕ
new_id s = let id = u64 (s.last_id + 1) in (record s { last_id = id }, id)

unfoldable pub prune_all : List Shard → Option (List Shard)
prune_all [] = some []
prune_all (c ∷ l) = do c' ← Shard.prune c; rest ← prune_all l; some (c' ∷ rest)

unfoldable pub prune : Sharded → Option Sharded
unfolding prune_all
prune s = prune_all s.shards >>= (λ l. some (record s { shards = l }))

-- The loop that adds the charges of the shards.
unfoldable pub sum_charges : List Shard → ℕ → ℕ
sum_charges [] total = total
sum_charges (c ∷ l) total = sum_charges l (u64 (total + c.usage))

unfoldable pub total_charge : Sharded → ℕ
unfolding sum_charges
total_charge s = sum_charges s.shards 0
