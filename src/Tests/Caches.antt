-- ===== src/Tests/Caches.antt =====
-- The cache: its hash table, a shard and the sixteen shards.
use simple_leveldb.Base.{
  ℕ, ◌+◌, ◌^◌, ◌<◌, ◌≤◌, ◌≡◌, refl, arith, Option, none, some, List, [], ◌∷◌, Bytes, length, take,
  drop, subst, sym, ap, ◌∙◌, codes, ◌>>=◌, replicate,
}
use simple_leveldb.Cache.{Handle, differs}
use simple_leveldb.Slice
use simple_leveldb.Cache.Table
use simple_leveldb.Cache.Table.{Table}
use simple_leveldb.Cache.Table.Slots.{size}
use simple_leveldb.Cache.Table.Refines
use simple_leveldb.Cache.Table.Refines.{Op, run-new_refines}
use simple_leveldb.Cache.Shard
use simple_leveldb.Cache.Shard.{Shard}
use simple_leveldb.Cache.Shard.Invariant.{clients, IsValid}
use simple_leveldb.Cache.Shard.Lists.{occ, one}
use simple_leveldb.Cache.Shard.Calls.{new_shard-IsValid, insert-IsValid, release-IsValid}
use simple_leveldb.Cache.Shard.Insert.{Inserts, insert_total}
use simple_leveldb.Cache.Shard.History.{
  Call, insert, look_up, release, erase, prune, Ledger, gain, step, run, Allowed, Legal, run_safe,
}
use simple_leveldb.Cache.Shard.Destroy.{destroy_total}
use simple_leveldb.Cache.Sharded
use simple_leveldb.Cache.Sharded.{Sharded, num_shards}
use simple_leveldb.Cache.Sharded.Insert.{IsReady, made, Lands, insert-Lands}

-- A handle at an address, for a key with its hash.
abbrev handle : ℕ → ℕ → Handle
handle id hash = record { id = id; value = 7; charge = 3; hash = hash; key = hash ∷ [] }

-- Six handles, so that the table grows from four buckets to eight, and the first one once more.
abbrev ops : List Op
ops =
    Op.insert (handle 0 0)
    ∷ Op.insert (handle 1 4)
    ∷ Op.insert (handle 2 8)
    ∷ Op.insert (handle 3 1)
    ∷ Op.insert (handle 4 2)
    ∷ Op.insert (handle 5 3)
    ∷ Op.insert (handle 6 0)
    ∷ Op.look_up (4 ∷ []) 4
    ∷ Op.remove (4 ∷ []) 4
    ∷ Op.look_up (4 ∷ []) 4
    ∷ []

run-new_refines_example :
    (t : Table) × ((Table.new_table >>= Refines.run ops)
      ≡ some (t, (Refines.replay ops (λ k n. none)).1))
    × ((k : Bytes) (n : ℕ) → Table.look_up k n t ≡ (Refines.replay ops (λ k' n'. none)).0 k n)
    × (size t.list ≤ length t.list)
run-new_refines_example = run-new_refines ops (omega arith)

abbrev empty_table : Table
empty_table = record { elems = 0; list = replicate 4 [] }

abbrev empty_shard : Shard
empty_shard = record {
  capacity = 10;
  usage = 0;
  lru = [];
  in_use = [];
  table = empty_table;
  cells = λ e. none;
  deleted = [];
}

empty_shard-IsValid : IsValid empty_shard
unfolding Shard.new_shard Table.new_table
empty_shard-IsValid = (new_shard-IsValid 10 empty_shard refl).0

insert_total_example : Inserts (handle 0 5) empty_shard (Shard.insert (handle 0 5) empty_shard)
insert_total_example = insert_total (handle 0 5) empty_shard empty_shard-IsValid refl (omega arith)

-- An entry enters, is looked up, and is given back by both clients, then erased.
abbrev calls : List Call
calls =
    insert (handle 0 5)
    ∷ look_up (5 ∷ []) 5
    ∷ release (handle 0 5)
    ∷ release (handle 0 5)
    ∷ erase (5 ∷ []) 5
    ∷ prune
    ∷ []

abbrev state_after : Option (Shard × Ledger) → Shard × Ledger
state_after none = (empty_shard, λ x. 0)
state_after (some p) = p

-- The state before the call `n` of the calls.
abbrev before : ℕ → Shard × Ledger
before n = state_after (run (take n calls) empty_shard (λ x. 0))

Legal-cons :
    (k : Call) (rest : List Call) (p q : Shard × Ledger)
    → Allowed k p.0 p.1
    → step k p.0 p.1 ≡ some q
    → Legal rest q.0 q.1
    → Legal (k ∷ rest) p.0 p.1
Legal-cons k rest p q a e l = (
  a,
  λ c' holds' e'.
      subst (λ (r : Shard × Ledger). Legal rest r.0 r.1) (ap state_after (sym e ∙ e')) l,
)

few_held : (x : Handle) → gain (λ y. 0) (handle 0 5) x < 2 ^ 31
unfolding one
few_held x = ground arith

calls-Legal : Legal calls empty_shard (λ x. 0)
unfolding run step Shard.insert Shard.look_up Shard.release Shard.erase Table.insert Table.look_up
    Table.remove Shard.Handle-discrete one differs Slice.not_equal Shard.prune
calls-Legal = Legal-cons (insert (handle 0 5)) (drop 1 calls) (before 0) (before 1) refl refl (
    Legal-cons (look_up (5 ∷ []) 5) (drop 2 calls) (before 1) (before 2) few_held refl (
      Legal-cons (release (handle 0 5)) (drop 3 calls) (before 2) (before 3) (omega arith) refl (
        Legal-cons (release (handle 0 5)) (drop 4 calls) (before 3) (before 4) (omega arith) refl (
          Legal-cons (erase (5 ∷ []) 5) (drop 5 calls) (before 4) (before 5) tt refl
            (Legal-cons prune [] (before 5) (before 6) tt refl tt)))))

run_safe_example :
    (c' : Shard) × (holds : Handle → ℕ) × (run calls empty_shard (λ x. 0) ≡ some (c', holds))
    × IsValid c'
    × ((x : Handle) → clients (c'.cells x) ≡ holds x)
unfolding Shard.new_shard Table.new_table
run_safe_example = run_safe 10 calls empty_shard refl (omega arith) calls-Legal

abbrev or_empty : Option Shard → Shard
or_empty none = empty_shard
or_empty (some c) = c

-- A shard with one entry that a client holds, and the shard after it gave the entry back.
abbrev used_shard : Shard
used_shard = or_empty (Shard.insert (handle 0 5) empty_shard)

abbrev resting_shard : Shard
resting_shard = or_empty (Shard.release (handle 0 5) used_shard)

resting_shard-IsValid : IsValid resting_shard
unfolding Shard.insert Shard.release Table.insert Shard.Handle-discrete
resting_shard-IsValid =
    release-IsValid (handle 0 5) used_shard resting_shard
      (insert-IsValid (handle 0 5) empty_shard used_shard empty_shard-IsValid refl (omega arith)
        refl)
      (omega arith) refl

destroy_total_example :
    (c' : Shard) × (Shard.destroy resting_shard ≡ some c')
    × ((x : Handle) → occ x c'.deleted ≡ occ x resting_shard.deleted + occ x resting_shard.lru)
unfolding Shard.insert Shard.release Table.insert Shard.Handle-discrete
destroy_total_example = destroy_total resting_shard resting_shard-IsValid refl

abbrev sixteen : Sharded
sixteen = record { shards = replicate 16 empty_shard; last_id = 0 }

sixteen-IsReady : IsReady sixteen
sixteen-IsReady =
    let v : IsValid empty_shard × (empty_shard.table.elems < 2 ^ 31) =
      (empty_shard-IsValid, omega arith) in
    record {
      sixteen = refl;
      valid = (v, (v, (v, (v, (v, (v, (v, (v, (v, (v, (v, (v, (v, (v, (v, (v, tt))))))))))))))));
    }

insert-Lands_example :
    (s' : Sharded) × (Sharded.insert 1 (codes "key") 7 3 sixteen
      ≡ some (s', made 1 (codes "key") 7 3))
    × Lands (made 1 (codes "key") 7 3) sixteen s'
insert-Lands_example = insert-Lands 1 (codes "key") 7 3 sixteen sixteen-IsReady (
  refl,
  (
    refl,
    (
      refl,
      (
        refl,
        (
          refl,
          (
            refl,
            (refl, (refl, (refl, (refl, (refl, (refl, (refl, (refl, (refl, (refl, tt)))))))))),
          ),
        ),
      ),
    ),
  ),
)
