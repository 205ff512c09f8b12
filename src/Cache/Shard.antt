-- ===== src/Cache/Shard.antt =====
-- leveldb/cache.cc: `lru_cache`, one shard of the cache. The circular lists are sequences, the
-- oldest entry first; the fields of a handle that change are in a store, where a handle that is
-- not allocated has nothing. `none` means a failed assertion or a use of freed memory.
use native.Mathlib.Decide.{ℕ_discrete}
pub mod Lists
pub mod Invariant
pub mod Leave
pub mod Erase
pub mod Evict
pub mod Link
pub mod Insert
pub mod Clients
pub mod Release
pub mod Calls
pub mod History
pub mod Destroy
use simple_leveldb.Base.{
  ℕ, zero, suc, ◌+◌, ◌-◌, ◌%◌, ◌^◌, Bool, true, false, ◌&&◌, Option, none, some, List, [], ◌∷◌,
  ◌++◌, Bytes, length, ltb, ◌==◌, if◌then◌else◌, ◌>>=◌, u32, u64, sub64,
}
use simple_leveldb.Cache.{Handle}
use simple_leveldb.Cache.Table
use simple_leveldb.Cache.Table.{Table}

unfoldable pub Handle-discrete : Discrete Handle
unfolding ℕ_discrete
Handle-discrete = hlevel (ℕ_discrete)

pub record Cell : Type 0 where
  pub refs : ℕ
  pub in_cache : Bool

-- `deleted` is the calls of `deleter`, the last one first.
pub record Shard : Type 0 where
  pub capacity : ℕ
  pub usage : ℕ
  pub lru : List Handle
  pub in_use : List Handle
  pub table : Table
  pub cells : Handle → Option Cell
  pub deleted : List Handle

-- The store with one handle's fields written; `none` frees it.
unfoldable pub store : Handle → Option Cell → Shard → Shard
store e cell c = record c {
  cells = λ x. elim (Handle-discrete x e) [ yes _ ↦ cell | no _ ↦ c.cells x ];
}

-- A sequence without a handle.
unfoldable pub unlink : Handle → List Handle → List Handle
unlink e [] = []
unlink e (h ∷ l) = elim (Handle-discrete e h) [ yes _ ↦ l | no _ ↦ h ∷ unlink e l ]

-- From the list that it stands in, which the code does not ask for.
unfoldable pub lru_remove : Handle → Shard → Shard
unfolding unlink
lru_remove e c = record c { lru = unlink e c.lru; in_use = unlink e c.in_use }

-- `lru_append( &lru_, e )` and `lru_append( &in_use_, e )`: just before the head is the newest.
unfoldable pub append_lru : Handle → Shard → Shard
append_lru e c = record c { lru = c.lru ++ e ∷ [] }

unfoldable pub append_in_use : Handle → Shard → Shard
append_in_use e c = record c { in_use = c.in_use ++ e ∷ [] }

unfoldable pub ref : Handle → Shard → Option Shard
unfolding store lru_remove append_in_use
ref e c = do
  cell ← c.cells e
  let c' = if cell.refs == 1 && cell.in_cache then append_in_use e (lru_remove e c) else c
  some (store e (some (record cell { refs = u32 (cell.refs + 1) })) c')

-- `e->deleter( e->key(), e->value )` and `free( e )`
unfoldable pub deallocate : Handle → Shard → Shard
unfolding store
deallocate e c = store e none (record c { deleted = e ∷ c.deleted })

-- The tests of `un_ref` after the count went down.
unfoldable pub after_un_ref : Handle → Cell → Shard → Option Shard
unfolding deallocate lru_remove append_lru
after_un_ref e cell c =
    if cell.refs == 0
    then (if cell.in_cache then none else some (deallocate e c))
    else if cell.in_cache && cell.refs == 1
    then some (append_lru e (lru_remove e c))
    else some c

unfoldable pub un_ref : Handle → Shard → Option Shard
unfolding store after_un_ref
un_ref e c = do
  cell ← c.cells e
  let less = record cell { refs = cell.refs - 1 }
  if cell.refs == 0 then none else after_un_ref e less (store e (some less) c)

-- Whether there was a handle, and the shard.
unfoldable pub finish_erase : Option Handle → Shard → Option (Shard × Bool)
unfolding store lru_remove un_ref
finish_erase none c = some (c, false)
finish_erase (some e) c = do
  cell ← c.cells e
  let c' = store e (some (record cell { in_cache = false })) (lru_remove e c)
  let less = record c' { usage = sub64 c'.usage e.charge }
  if cell.in_cache then un_ref e less >>= (λ c''. some (c'', true)) else none

-- The constructor and `set_capacity`.
unfoldable pub new_shard : ℕ → Option Shard
new_shard capacity = do
  table ← Table.new_table
  some (record {
    capacity = capacity;
    usage = 0;
    lru = [];
    in_use = [];
    table = table;
    cells = λ e. none;
    deleted = [];
  })

-- The handle found, or nothing.
unfoldable pub look_up : Bytes → ℕ → Shard → Option (Shard × Option Handle)
unfolding ref
look_up key hash c = elim (Table.look_up key hash c.table) [
  | none ↦ some (c, none)
  | some e ↦ do c' ← ref e c; some (c', some e)
]

unfoldable pub release : Handle → Shard → Option Shard
unfolding un_ref
release e c = un_ref e c

unfoldable pub erase : Bytes → ℕ → Shard → Option (Shard × Bool)
unfolding finish_erase
erase key hash c =
    let (t, found) = Table.remove key hash c.table in finish_erase found (record c { table = t })

-- One round of the loops of `insert` and `prune`, on the oldest entry.
unfoldable pub evict : Handle → Shard → Option Shard
unfolding erase
evict old c = do
  cell ← c.cells old
  (c', erased) ← erase old.key old.hash c
  if cell.refs == 1 && erased then some c' else none

-- `while ( usage_ > capacity_ && lru_.next != &lru_ )`; the fuel is spent by the entries.
unfoldable pub evict_loop : ℕ → Shard → Option Shard
unfolding evict
evict_loop zero c = none
evict_loop (suc f) c = elim c.lru [
  | [] ↦ some c
  | old ∷ _ ↦
      let rest = evict old c >>= evict_loop f in if ltb c.capacity c.usage then rest else some c
]

-- The entry enters the cache, unless a capacity of 0 turns it off. An entry that had its key
-- leaves.
unfoldable pub enter : Handle → Shard → Option Shard
unfolding store append_in_use finish_erase
enter e c =
    let c' = append_in_use e (store e (some (record { refs = 2; in_cache = true })) c) in
    let linked = record c' { usage = u64 (c'.usage + e.charge) } in
    if ltb 0 c.capacity
    then (do
      (t, old) ← Table.insert e c.table
      (c'', _) ← finish_erase old (record linked { table = t })
      some c'')
    else some (store e (some (record { refs = 1; in_cache = false })) c)

-- `insert( key, hash, value, charge, deleter )`, with the address that `malloc` returned in `e`.
unfoldable pub insert : Handle → Shard → Option Shard
unfolding enter evict_loop
insert e c = do c' ← enter e c; evict_loop (suc (length c'.lru)) c'

-- `while ( lru_.next != &lru_ )`
unfoldable pub prune_loop : ℕ → Shard → Option Shard
unfolding evict
prune_loop zero c = none
prune_loop (suc f) c = elim c.lru [ [] ↦ some c | old ∷ _ ↦ evict old c >>= prune_loop f ]

unfoldable pub prune : Shard → Option Shard
unfolding prune_loop
prune c = prune_loop (suc (length c.lru)) c

-- The loop of the destructor over the entries of `lru`.
unfoldable pub destroy_loop : List Handle → Shard → Option Shard
unfolding store un_ref
destroy_loop [] c = some c
destroy_loop (e ∷ l) c = do
  cell ← c.cells e
  c' ←
      (if cell.in_cache && cell.refs == 1
        then un_ref e (store e (some (record cell { in_cache = false })) c)
        else none)
  destroy_loop l c'

unfoldable pub destroy : Shard → Option Shard
unfolding destroy_loop
destroy c = elim c.in_use [ [] ↦ destroy_loop c.lru c | _ ∷ _ ↦ none ]
