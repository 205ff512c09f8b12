-- ===== src/Cache/Table/Refines.antt =====
-- leveldb/cache.cc: sequences of calls of `handle_table`, beside the same calls on a function from
-- keys with their hashes to handles.
use mathlib.Core.Path.{fun_ext}
use simple_leveldb.Base.{
  ℕ, ◌+◌, ◌^◌, ◌≤◌, ◌≡◌, refl, subst, arith, Option, none, some, List, [], ◌∷◌, Bytes, length,
  ◌>>=◌,
}
use simple_leveldb.Cache.{Handle}
use simple_leveldb.Cache.Table
use simple_leveldb.Cache.Table.{Table}
use simple_leveldb.Cache.Table.Slots.{IsValid, size}
use simple_leveldb.Cache.Table.Resize.{new_table_lem}
use simple_leveldb.Cache.Table.Laws.{entered, removed, insert_lem, remove_lem}

pub data Op : Type 0 where
  insert : Handle → Op
  remove look_up : Bytes → ℕ → Op

abbrev pub Results : Type 0
Results = List (Option Handle)

-- The table that the calls leave, and what they return.
pub run : List Op → Table → Option (Table × Results)
run [] t = some (t, [])
run (insert h ∷ ops) t = do
  (t', old) ← Table.insert h t
  (t'', rest) ← run ops t'
  some (t'', old ∷ rest)
run (remove key hash ∷ ops) t = do
  (t'', rest) ← run ops (Table.remove key hash t).0
  some (t'', (Table.remove key hash t).1 ∷ rest)
run (look_up key hash ∷ ops) t = do
  (t', rest) ← run ops t
  some (t', Table.look_up key hash t ∷ rest)

abbrev pub Map : Type 0
Map = Bytes → ℕ → Option Handle

pub replay : List Op → Map → Map × Results
replay [] m = (m, [])
replay (insert h ∷ ops) m =
    let (m', rest) = replay ops (λ k n. entered h k n (m k n)) in (m', m h.key h.hash ∷ rest)
replay (remove key hash ∷ ops) m =
    let (m', rest) = replay ops (λ k n. removed key hash k n (m k n)) in (m', m key hash ∷ rest)
replay (look_up key hash ∷ ops) m = let (m', rest) = replay ops m in (m', m key hash ∷ rest)

abbrev pub read : Table → Map
read t k n = Table.look_up k n t

-- The run ends, returns what the replay returns and leaves a table that reads as its map.
abbrev pub Refines : List Op → Table → Map → Type 0
Refines ops t m =
    (t' : Table) × (run ops t ≡ some (t', (replay ops m).1))
    × IsValid t'
    × ((k : Bytes) (n : ℕ) → Table.look_up k n t' ≡ (replay ops m).0 k n)

insert-Refines :
    (h : Handle) (ops : List Op) (t t' : Table) (m : Map)
    → Table.insert h t ≡ some (t', read t h.key h.hash)
    → Refines ops t' (λ k n. entered h k n (read t k n))
    → Refines (insert h ∷ ops) t (read t)
unfolding run replay
insert-Refines h ops t t' m e (t'', r, v, f) = (t'', rw (e, r) refl, v, f)

remove-Refines :
    (key : Bytes) (hash : ℕ) (ops : List Op) (t : Table)
    → (Table.remove key hash t).1 ≡ read t key hash
    → Refines ops (Table.remove key hash t).0 (λ k n. removed key hash k n (read t k n))
    → Refines (remove key hash ∷ ops) t (read t)
unfolding run replay
remove-Refines key hash ops t e (t'', r, v, f) = (t'', rw (r, e) refl, v, f)

look_up-Refines :
    (key : Bytes) (hash : ℕ) (ops : List Op) (t : Table)
    → Refines ops t (read t)
    → Refines (look_up key hash ∷ ops) t (read t)
unfolding run replay
look_up-Refines key hash ops t (t', r, v, f) = (t', rw r refl, v, f)

pub run-Refines :
    (ops : List Op) (t : Table) → IsValid t → t.elems + length ops ≤ 2 ^ 31 → Refines ops t (read t)
run-Refines [] t v b = (t, unfold run replay in refl, v, λ k n. unfold replay in refl)
run-Refines (insert h ∷ ops) t v b =
    let (t', e, v', c, f) = insert_lem h t v (omega arith) in
    insert-Refines h ops t t' (read t) e (
      subst (Refines ops t') (fun_ext λ k. fun_ext λ n. f k n)
        (run-Refines ops t' v' (omega arith)))
run-Refines (remove key hash ∷ ops) t v b =
    let (e, v', c, f) = remove_lem key hash t v (omega arith) in
    remove-Refines key hash ops t e (
      subst (Refines ops (Table.remove key hash t).0) (fun_ext λ k. fun_ext λ n. f k n)
        (run-Refines ops (Table.remove key hash t).0 v' (omega arith)))
run-Refines (look_up key hash ∷ ops) t v b =
    look_up-Refines key hash ops t (run-Refines ops t v (omega arith))

-- For any sequence of up to 2^31 calls of `insert`, `remove` and `look_up`, on the table that the
-- constructor makes: every call ends, the assertion of `resize` holds, each returns what the same
-- call returns on a function from keys with their hashes to handles, and the table that is left
-- reads as that function and has no fewer buckets than handles.
pub run-new_refines :
    (ops : List Op)
    → length ops ≤ 2 ^ 31
    → (t : Table) × ((Table.new_table >>= run ops) ≡ some (t, (replay ops (λ k n. none)).1))
      × ((k : Bytes) (n : ℕ) → Table.look_up k n t ≡ (replay ops (λ k' n'. none)).0 k n)
      × (size t.list ≤ length t.list)
run-new_refines ops b =
    let (t, e, v, z, f) = new_table_lem in
    let empty : read t ≡ (λ k n. none) = fun_ext λ k. fun_ext λ n. f k n in
    let (t', r, v', g) = subst (Refines ops t) empty (run-Refines ops t v (omega arith)) in
    (t', rw (e, r) refl, g, omega (arith, v'.counted, v'.roomy))
