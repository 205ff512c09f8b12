-- ===== src/Cache/Shard/Calls.antt =====
-- leveldb/cache.cc: the calls of `lru_cache` that its clients make on a valid shard.
use simple_leveldb.Base.{
  ℕ, suc, ◌^◌, ◌≤◌, ◌<◌, ◌≡◌, ◌⊎◌, inl, inr, refl, sym, ap, ◌∙◌, subst, arith, Option, none, some,
  [], Bytes, length, Option-cases,
}
use simple_leveldb.Cache.{Handle}
use simple_leveldb.Cache.Table
use simple_leveldb.Cache.Shard.{Cell, Shard, look_up, insert, release, prune, new_shard}
use simple_leveldb.Cache.Shard.Invariant.{clients, Inv, Stored, IsValid, Moves, nobody}
use simple_leveldb.Cache.Shard.Lists.{occ, one, total}
use simple_leveldb.Cache.Shard.Erase.{Inv-iff, look_up-Stored, cached-cell}
use simple_leveldb.Cache.Shard.Evict.{Evicts, prune_loop_lem}
use simple_leveldb.Cache.Shard.Insert.{insert_total}
use simple_leveldb.Cache.Shard.Clients.{ref_lem}
use simple_leveldb.Cache.Shard.Release.{un_ref_lem}
use simple_leveldb.Cache.Table.Resize.{new_table_lem}

same_table : (c c' : Shard) → c'.table ≡ c.table → Inv (Stored c) c' → IsValid c'
same_table c c' e v =
    Inv-iff (λ x. (λ s. rw e s, λ s. sym (ap (Table.look_up x.key x.hash) e) ∙ s)) v

-- A cell that counts a client.
held-cell :
    (cell : Option Cell) → 1 ≤ clients cell → (r : Cell) × (cell ≡ some r) × (1 ≤ clients (some r))
held-cell none p = absurd (omega arith)
held-cell (some r) p = (r, refl, p)

-- A client that holds a reference to a handle gives it back: no assertion fails, the shard is valid
-- again, and that client's reference alone is gone.
pub release_total :
    (e : Handle) (c : Shard)
    → IsValid c
    → 1 ≤ clients (c.cells e)
    → (c' : Shard) × (release e c ≡ some c')
      × IsValid c'
      × Moves nobody (λ x. one x e) nobody c c'
      × (c'.table ≡ c.table)
unfolding release
release_total e c v p =
    let (cell, here, q) = held-cell (c.cells e) p in
    let (c', r, w, m, t) = un_ref_lem c v e cell here q in (c', r, same_table c c' t w, m, t)

-- The handle that the hash table finds gets one more reference; where it finds none, nothing
-- changes.
pub look_up_total :
    (key : Bytes) (hash : ℕ) (c : Shard)
    → IsValid c
    → ((x : Handle) → clients (c.cells x) < 2 ^ 31)
    → ((Table.look_up key hash c.table ≡ none) × (look_up key hash c ≡ some (c, none)))
      ⊎ ((e : Handle) × (c' : Shard) × (Table.look_up key hash c.table ≡ some e)
          × (look_up key hash c ≡ some (c', some e))
          × IsValid c'
          × Moves (λ x. one x e) nobody nobody c c'
          × (c'.table ≡ c.table))
unfolding look_up
look_up_total key hash c v b = elim (Option-cases (Table.look_up key hash c.table)) [
  | inl absent ↦ inl (absent, rw (absent, look_up) refl)
  | inr (e, found) ↦
      let stored = (v.indexed e).1 (look_up-Stored key hash c e found) in
      let (cell, here, own) = cached-cell (c.cells e) stored in
      let few = b e in
      let (c', r, w, m, t) = ref_lem c v e cell here (ground (arith, few)) in
      inr (e, c', found, rw (found, look_up, r) refl, same_table c c' t w, m, t)
]

-- `prune` ends, and nothing is left to evict; what clients use stays.
pub prune_total :
    (c : Shard) → IsValid c → c.table.elems ≤ 2 ^ 31 → (r : Evicts c (prune c)) × (r.state.lru ≡ [])
unfolding prune
prune_total c v b = prune_loop_lem (suc (length c.lru)) c.lru c refl (omega arith) v b

-- The constructor makes a valid shard that holds nothing.
pub new_shard_total :
    (capacity : ℕ)
    → (c : Shard) × (new_shard capacity ≡ some c)
      × IsValid c
      × (c.capacity ≡ capacity)
      × (c.table.elems ≡ 0)
      × ((x : Handle) → c.cells x ≡ none)
unfolding new_shard occ total
new_shard_total capacity =
    let (t, e, v, z, f) = new_table_lem in
    (
      record {
        capacity = capacity;
        usage = 0;
        lru = [];
        in_use = [];
        table = t;
        cells = λ x. none;
        deleted = [];
      },
      rw e refl,
      record {
        table_valid = v;
        placed = λ x. (refl, refl);
        charged = refl;
        indexed = λ x. (λ h. cc, λ s. cc (f x.key x.hash));
      },
      refl,
      z,
      λ x. refl,
    )

pub new_shard-IsValid :
    (capacity : ℕ) (c : Shard) → new_shard capacity ≡ some c → IsValid c × (c.table.elems ≡ 0)
new_shard-IsValid capacity c e =
    let (c0, e0, v, k, z, f) = new_shard_total capacity in
    let same : c0 ≡ c = ground arith in
    subst (λ (s : Shard). IsValid s × (s.table.elems ≡ 0)) same (v, z)

pub insert-IsValid :
    (e : Handle) (c c' : Shard)
    → IsValid c
    → c.cells e ≡ none
    → c.table.elems < 2 ^ 31
    → insert e c ≡ some c'
    → IsValid c'
insert-IsValid e c c' v fresh b r =
    let t = insert_total e c v fresh b in
    let same : t.state ≡ c' = ground (arith, t.returns) in
    subst (λ (s : Shard). IsValid s) same t.valid

pub release-IsValid :
    (e : Handle) (c c' : Shard)
    → IsValid c
    → 1 ≤ clients (c.cells e)
    → release e c ≡ some c'
    → IsValid c'
release-IsValid e c c' v p r =
    let (d, r', w, m, t) = release_total e c v p in
    let same : d ≡ c' = ground arith in subst (λ (s : Shard). IsValid s) same w
