-- ===== src/Cache/Sharded/Insert.antt =====
-- leveldb/cache.cc: the calls of `sharded_lru_cache` that go to one shard, and `prune`.
use simple_leveldb.Base.{
  ℕ, zero, suc, ◌+◌, ◌^◌, ◌<◌, ◌≡◌, ◌≢◌, refl, ap, subst, arith, Option, none, some, List, [], ◌∷◌,
  Bytes, All, set, length,
}
use simple_leveldb.Hash.Bounds.{hash-IsU32}
use simple_leveldb.Cache.{Handle}
use simple_leveldb.Cache.Table
use simple_leveldb.Cache.Shard
use simple_leveldb.Cache.Shard.{Shard}
use simple_leveldb.Cache.Shard.Invariant.{clients, IsValid}
use simple_leveldb.Cache.Shard.Lists.{one_self}
use simple_leveldb.Cache.Shard.Insert.{insert_total}
use simple_leveldb.Cache.Sharded.{
  Sharded, num_shards, hash_slice, shard_of, shard_at, on_shard, insert,
}

-- Sixteen valid shards with room in their tables.
pub record IsReady (s : Sharded) : Type 0 where
  pub sixteen : length s.shards ≡ num_shards
  pub valid : All (λ c. IsValid c × (c.table.elems < 2 ^ 31)) s.shards

shard_of-lt : (key : Bytes) → shard_of (hash_slice key) < num_shards
unfolding shard_of hash_slice
shard_of-lt key = omega (arith, hash-IsU32 key 0)

shard_at-All {κ} :
    (P : Shard → Type κ) (l : List Shard) (i : ℕ)
    → i < length l
    → All P l
    → (c : Shard) × (shard_at l i ≡ some c) × P c
unfolding shard_at
shard_at-All P [] i h a = absurd (omega arith)
shard_at-All P (c ∷ l) zero h a = (c, refl, a.0)
shard_at-All P (c ∷ l) (suc i) h a = shard_at-All P l i (omega arith) a.1

shard_at-set : (l : List Shard) (i : ℕ) (c : Shard) → i < length l → shard_at (set l i c) i ≡ some c
unfolding shard_at
shard_at-set [] i c h = absurd (omega arith)
shard_at-set (d ∷ l) zero c h = refl
shard_at-set (d ∷ l) (suc i) c h = shard_at-set l i c (omega arith)

shard_at-set_ne :
    (l : List Shard) (i j : ℕ) (c : Shard) → j ≢ i → shard_at (set l i c) j ≡ shard_at l j
unfolding shard_at
shard_at-set_ne [] i j c h = refl
shard_at-set_ne (d ∷ l) zero zero c h = absurd (h refl)
shard_at-set_ne (d ∷ l) zero (suc j) c h = refl
shard_at-set_ne (d ∷ l) (suc i) zero c h = refl
shard_at-set_ne (d ∷ l) (suc i) (suc j) c h = shard_at-set_ne l i j c (λ p. h (ap suc p))

on_shard_lem :
    (i : ℕ) (f : Shard → Option Shard) (s : Sharded) (c c' : Shard)
    → shard_at s.shards i ≡ some c
    → f c ≡ some c'
    → on_shard i f s ≡ some (record s { shards = set s.shards i c' })
unfolding on_shard
on_shard_lem i f s c c' e r = rw (e, r) refl

-- The handle that `insert` makes.
abbrev pub made : ℕ → Bytes → ℕ → ℕ → Handle
made id key value charge = record {
  id = id;
  value = value;
  charge = charge;
  hash = hash_slice key;
  key = key;
}

-- Where a new handle lands: in the shard of its key's hash, with the others as they were.
abbrev pub Lands : Handle → Sharded → Sharded → Type 0
Lands e s s' =
    (c : Shard) × (c' : Shard) × (shard_at s.shards (shard_of e.hash) ≡ some c)
    × (shard_at s'.shards (shard_of e.hash) ≡ some c')
    × IsValid c'
    × (clients (c'.cells e) ≡ clients (c.cells e) + 1)
    × (0 < c.capacity → Table.look_up e.key e.hash c'.table ≡ some e)
    × ((j : ℕ) → j ≢ shard_of e.hash → shard_at s'.shards j ≡ shard_at s.shards j)

insert_on :
    (id : ℕ) (key : Bytes) (value charge : ℕ) (s s' : Sharded)
    → on_shard (shard_of (hash_slice key)) (Shard.insert (made id key value charge)) s ≡ some s'
    → insert id key value charge s ≡ some (s', made id key value charge)
unfolding insert
insert_on id key value charge s s' e = rw e refl

-- With sixteen valid shards that have room, and a handle that no shard has allocated, `insert` ends
-- and returns a handle that carries the hash of the key, by which `release` finds the same shard.
-- That shard is valid again and counts one client of the handle more, finds the handle by its key
-- if its capacity is above 0, and the other shards are as they were.
pub insert-Lands :
    (id : ℕ) (key : Bytes) (value charge : ℕ) (s : Sharded)
    → IsReady s
    → All (λ c. c.cells (made id key value charge) ≡ none) s.shards
    → (s' : Sharded) × (insert id key value charge s ≡ some (s', made id key value charge))
      × Lands (made id key value charge) s s'
insert-Lands id key value charge s r fresh =
    let e = made id key value charge in
    let i = shard_of (hash_slice key) in
    let within : i < length s.shards = omega (arith, shard_of-lt key, r.sixteen) in
    let (c, at, (v, few)) =
      shard_at-All (λ c. IsValid c × (c.table.elems < 2 ^ 31)) s.shards i within r.valid in
    let (d, at', new) = shard_at-All (λ c. c.cells e ≡ none) s.shards i within fresh in
    let same : d ≡ c = ground arith in
    let t = insert_total e c v (subst (λ (b : Shard). b.cells e ≡ none) same new) few in
    let s' : Sharded = record s { shards = set s.shards i t.state } in
    (
      s',
      insert_on id key value charge s s' (on_shard_lem i (Shard.insert e) s c t.state at t.returns),
      (
        c,
        t.state,
        at,
        shard_at-set s.shards i t.state within,
        t.valid,
        omega (arith, t.moves.held e, one_self e),
        t.found,
        λ j n. shard_at-set_ne s.shards i j t.state n,
      ),
    )
