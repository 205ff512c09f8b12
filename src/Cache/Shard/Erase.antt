-- ===== src/Cache/Shard/Erase.antt =====
-- leveldb/cache.cc: `lru_cache::erase`, and the round of the loops that evict.
use simple_leveldb.Base.{
  ℕ, ◌^◌, ◌≤◌, ◌≡◌, ◌≢◌, ◌↔◌, refl, arith, Bool, true, false, Option, none, some, Bytes,
  Option-cases, inl, inr,
}
use simple_leveldb.Cache.{Handle}
use simple_leveldb.Cache.Table
use simple_leveldb.Cache.Table.{Table, chain}
use simple_leveldb.Cache.Table.Chains.{find_in_key, is_key_iff}
use simple_leveldb.Cache.Table.Slots
use simple_leveldb.Cache.Table.Laws.{removed, remove_lem}
use simple_leveldb.Cache.Shard.{Cell, Shard, erase, unlink}
use simple_leveldb.Cache.Shard.Invariant.{cached, Inv, Stored, IsValid, Moves, nobody}
use simple_leveldb.Cache.Shard.Leave.{gone, gone-Inv, gone-Moves, finish_erase-gone}

pub Inv-iff : {S T : Handle → Type 0} {c : Shard} → ((x : Handle) → S x ↔ T x) → Inv S c → Inv T c
Inv-iff f v = record {
  table_valid = v.table_valid;
  placed = v.placed;
  charged = v.charged;
  indexed = λ x. (λ h. (f x).0 ((v.indexed x).0 h), λ t. (v.indexed x).1 ((f x).1 t));
}

-- The table is another, and `S` stays.
pub with_table :
    {S : Handle → Type 0} (c : Shard) (t : Table)
    → Inv S c
    → Slots.IsValid t
    → Inv S (record c { table = t })
with_table c t v w = record {
  table_valid = w;
  placed = v.placed;
  charged = v.charged;
  indexed = v.indexed;
}

pub look_up_key :
    (key : Bytes) (hash : ℕ) (t : Table) (e : Handle)
    → Table.look_up key hash t ≡ some e
    → (e.hash ≡ hash) × (e.key ≡ key)
unfolding Table.look_up
look_up_key key hash t e h = find_in_key key hash (chain t.list hash) e h

-- What is found is found under its own key.
pub look_up-Stored :
    (key : Bytes) (hash : ℕ) (c : Shard) (e : Handle)
    → Table.look_up key hash c.table ≡ some e
    → Stored c e
look_up-Stored key hash c e h = let (p, q) = look_up_key key hash c.table e h in simp (p, q) h

-- The cell of an entry of the cache.
pub cached-cell :
    (cell : Option Cell) → cached cell ≡ true → (r : Cell) × (cell ≡ some r) × (r.in_cache ≡ true)
cached-cell none h = absurd (cc)
cached-cell (some r) h = (r, refl, h)

-- The handles found after a removal.
removed-Stored :
    (key : Bytes) (hash : ℕ) (c : Shard) (t : Table) (e : Handle)
    → ((k : Bytes) (n : ℕ) → Table.look_up k n t ≡ removed key hash k n (Table.look_up k n c.table))
    → Table.look_up key hash c.table ≡ some e
    → (x : Handle) → (Stored c x × (x ≢ e)) ↔ (Table.look_up x.key x.hash t ≡ some x)
removed-Stored key hash c t e f h x =
    ground
      (arith, f x.key x.hash, is_key_iff key hash x.key x.hash, look_up_key key hash c.table e h)

removed_absent :
    (key : Bytes) (hash : ℕ) (c : Shard) (t : Table)
    → ((k : Bytes) (n : ℕ) → Table.look_up k n t ≡ removed key hash k n (Table.look_up k n c.table))
    → Table.look_up key hash c.table ≡ none
    → (x : Handle) → Stored c x ↔ (Table.look_up x.key x.hash t ≡ some x)
removed_absent key hash c t f h x = ground (arith, f x.key x.hash, is_key_iff key hash x.key x.hash)

-- What `erase` promises of its result.
pub record Erases (c : Shard) (found : Option Handle) (r : Option (Shard × Bool)) : Type 0 where
  pub state : Shard
  pub done : Bool
  pub returns : r ≡ some (state, done)
  pub valid : IsValid state
  pub moves : Moves nobody nobody nobody c state
  pub fewer : state.table.elems ≤ c.table.elems
  pub is_done : (e : Handle) → found ≡ some e → done ≡ true
  pub lists :
      (e : Handle)
      → found ≡ some e
      → (state.lru ≡ unlink e c.lru) × (state.in_use ≡ unlink e c.in_use)

erase_absent :
    (key : Bytes) (hash : ℕ) (c : Shard) (t : Table) (found : Option Handle)
    → IsValid c
    → Table.remove key hash c.table ≡ (t, found)
    → Slots.IsValid t
    → found ≡ Table.look_up key hash c.table
    → t.elems ≤ c.table.elems
    → ((k : Bytes) (n : ℕ) → Table.look_up k n t ≡ removed key hash k n (Table.look_up k n c.table))
    → Table.look_up key hash c.table ≡ none
    → Erases c (Table.look_up key hash c.table) (erase key hash c)
unfolding erase
erase_absent key hash c t found v r w e b f absent = record {
  state = record c { table = t };
  done = false;
  returns = rw (r, e, absent) refl;
  valid = Inv-iff (removed_absent key hash c t f absent) (with_table c t v w);
  moves = record { held = λ x. refl; counted = λ x. omega arith; capacity = refl };
  fewer = b;
  is_done = λ h p. cc;
  lists = λ h p. cc;
}

erase_found :
    (key : Bytes) (hash : ℕ) (c : Shard) (t : Table) (found : Option Handle)
    → IsValid c
    → Table.remove key hash c.table ≡ (t, found)
    → Slots.IsValid t
    → found ≡ Table.look_up key hash c.table
    → t.elems ≤ c.table.elems
    → ((k : Bytes) (n : ℕ) → Table.look_up k n t ≡ removed key hash k n (Table.look_up k n c.table))
    → (h : Handle) → Table.look_up key hash c.table ≡ some h
    → (cell : Cell) → c.cells h ≡ some cell
    → cell.in_cache ≡ true
    → Erases c (Table.look_up key hash c.table) (erase key hash c)
unfolding erase gone
erase_found key hash c t found v r w e b f h here cell at own =
    let c1 = with_table c t v w in
    record {
      state = gone h cell (record c { table = t });
      done = true;
      returns = rw (r, e, here) (finish_erase-gone (record c { table = t }) c1 h cell at own);
      valid =
          Inv-iff (removed-Stored key hash c t h f here)
            (gone-Inv (record c { table = t }) c1 h cell at own);
      moves = moved (gone-Moves (record c { table = t }) c1 h cell at own);
      fewer = b;
      is_done = λ h' p. refl;
      lists = λ h' p. let q : h ≡ h' = cc in rw q (refl, refl);
    }
  where
    moved :
        {c' : Shard}
        → Moves nobody nobody nobody (record c { table = t }) c'
        → Moves nobody nobody nobody c c'
    moved m = record { held = m.held; counted = m.counted; capacity = m.capacity }

pub erase_lem :
    (key : Bytes) (hash : ℕ) (c : Shard)
    → IsValid c
    → c.table.elems ≤ 2 ^ 31
    → Erases c (Table.look_up key hash c.table) (erase key hash c)
erase_lem key hash c v b =
    let (e, w, less, f) = remove_lem key hash c.table v.table_valid b in
    elim (Option-cases (Table.look_up key hash c.table)) [
      | inl absent ↦
          erase_absent key hash c (Table.remove key hash c.table).0
            (Table.remove key hash c.table).1 v refl w e less f absent
      | inr (h, here) ↦
          let stored = (v.indexed h).1 (look_up-Stored key hash c h here) in
          let (cell, at, own) = cached-cell (c.cells h) stored in
          erase_found key hash c (Table.remove key hash c.table).0 (Table.remove key hash c.table).1
            v refl w e less f h here cell at own
    ]
