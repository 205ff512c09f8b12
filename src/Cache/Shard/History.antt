-- ===== src/Cache/Shard/History.antt =====
-- leveldb/cache.cc: sequences of calls of `lru_cache`, with a ledger of the references that clients
-- hold.
use simple_leveldb.Base.{
  ℕ, suc, ◌+◌, ◌-◌, ◌^◌, ◌≤◌, ◌<◌, ◌≡◌, inl, inr, refl, ap, subst, arith, Option, none, some, List,
  [], ◌∷◌, Bytes, length, ◌>>=◌,
}
use simple_leveldb.Cache.{Handle}
use simple_leveldb.Cache.Table.{Table}
use simple_leveldb.Cache.Shard
use simple_leveldb.Cache.Shard.{Shard}
use simple_leveldb.Cache.Shard.Invariant.{clients, IsValid}
use simple_leveldb.Cache.Shard.Lists.{one}
use simple_leveldb.Cache.Shard.Erase.{erase_lem}
use simple_leveldb.Cache.Shard.Insert.{insert_total}
use simple_leveldb.Cache.Shard.Calls.{release_total, look_up_total, prune_total, new_shard_total}

pub data Call : Type 0 where
  insert : Handle → Call
  look_up : Bytes → ℕ → Call
  release : Handle → Call
  erase : Bytes → ℕ → Call
  prune : Call

-- How many references to a handle the clients hold.
abbrev pub Ledger : Type 0
Ledger = Handle → ℕ

abbrev pub gain : Ledger → Handle → Ledger
gain holds e x = holds x + one x e

abbrev pub lose : Ledger → Handle → Ledger
lose holds e x = holds x - one x e

-- What a client learns from a look-up.
abbrev pub note : Ledger → Option Handle → Ledger
note holds none = holds
note holds (some e) = gain holds e

-- A call, and the ledger that its result leaves.
unfoldable pub step : Call → Shard → Ledger → Option (Shard × Ledger)
step (insert e) c holds = do c' ← Shard.insert e c; some (c', gain holds e)
step (look_up key hash) c holds = do
  (c', found) ← Shard.look_up key hash c
  some (c', note holds found)
step (release e) c holds = do c' ← Shard.release e c; some (c', lose holds e)
step (erase key hash) c holds = do (c', _) ← Shard.erase key hash c; some (c', holds)
step prune c holds = do c' ← Shard.prune c; some (c', holds)

-- What is asked of a client, and of `malloc`: an address that is new, fewer than 2^31 references to
-- any handle, and a release only of a reference that is held.
abbrev pub Allowed : Call → Shard → Ledger → Type 0
Allowed (insert e) c holds = c.cells e ≡ none
Allowed (look_up key hash) c holds = (x : Handle) → holds x < 2 ^ 31
Allowed (release e) c holds = 1 ≤ holds e
Allowed (erase key hash) c holds = Unit
Allowed prune c holds = Unit

unfoldable pub run : List Call → Shard → Ledger → Option (Shard × Ledger)
run [] c holds = some (c, holds)
run (k ∷ calls) c holds = step k c holds >>= λ (c', holds'). run calls c' holds'

abbrev pub Legal : List Call → Shard → Ledger → Type 0
Legal [] c holds = Unit
Legal (k ∷ calls) c holds =
    Allowed k c holds
    × ((c' : Shard) (holds' : Ledger) → step k c holds ≡ some (c', holds') → Legal calls c' holds')

-- The counts of the shard agree with the ledger.
pub record Tracks (n : ℕ) (c : Shard) (holds : Ledger) : Type 0 where
  pub valid : IsValid c
  pub agree : (x : Handle) → clients (c.cells x) ≡ holds x
  pub few : c.table.elems ≤ n

Next : ℕ → Option (Shard × Ledger) → Type 0
Next n r = (c' : Shard) × (holds' : Ledger) × (r ≡ some (c', holds')) × Tracks n c' holds'

step-Tracks :
    (k : Call) (n : ℕ) (c : Shard) (holds : Ledger)
    → Tracks n c holds
    → n < 2 ^ 31
    → Allowed k c holds
    → Next (suc n) (step k c holds)
unfolding step Next
step-Tracks (insert e) n c holds t b a =
    let r = insert_total e c t.valid a (omega (arith, t.few)) in
    (
      r.state,
      gain holds e,
      rw r.returns refl,
      record {
        valid = r.valid;
        agree = λ x. omega (arith, r.moves.held x, t.agree x);
        few = omega (arith, r.more, t.few);
      },
    )
step-Tracks (release e) n c holds t b a =
    let (c', r, v, m, s) = release_total e c t.valid (omega (arith, t.agree e)) in
    (
      c',
      lose holds e,
      rw r refl,
      record {
        valid = v;
        agree = λ x. omega (arith, m.held x, t.agree x);
        few = omega (arith, ap (λ (w : Table). w.elems) s, t.few);
      },
    )
step-Tracks (erase key hash) n c holds t b a =
    let r = erase_lem key hash c t.valid (omega (arith, t.few)) in
    (
      r.state,
      holds,
      rw r.returns refl,
      record {
        valid = r.valid;
        agree = λ x. omega (arith, r.moves.held x, t.agree x);
        few = omega (arith, r.fewer, t.few);
      },
    )
step-Tracks prune n c holds t b a =
    let (r, empty) = prune_total c t.valid (omega (arith, t.few)) in
    (
      r.state,
      holds,
      rw r.returns refl,
      record {
        valid = r.valid;
        agree = λ x. omega (arith, r.moves.held x, t.agree x);
        few = omega (arith, r.fewer, t.few);
      },
    )
step-Tracks (look_up key hash) n c holds t b a =
    elim (look_up_total key hash c t.valid (λ x. rw (t.agree x) (a x))) [
      | inl (absent, r) ↦ (
        c,
        holds,
        rw r refl,
        record { valid = t.valid; agree = t.agree; few = omega (arith, t.few) },
      )
      | inr (e, c', found, r, v, m, s) ↦ (
        c',
        gain holds e,
        rw r refl,
        record {
          valid = v;
          agree = λ x. omega (arith, m.held x, t.agree x);
          few = omega (arith, ap (λ (w : Table). w.elems) s, t.few);
        },
      )
    ]

run-Tracks :
    (calls : List Call) (n : ℕ) (c : Shard) (holds : Ledger)
    → Tracks n c holds
    → n + length calls ≤ 2 ^ 31
    → Legal calls c holds
    → (c' : Shard) × (holds' : Ledger) × (run calls c holds ≡ some (c', holds'))
      × Tracks (n + length calls) c' holds'
unfolding run Next
run-Tracks [] n c holds t b l =
    (c, holds, refl, subst (λ (m : ℕ). Tracks m c holds) (omega arith) t)
run-Tracks (k ∷ calls) n c holds t b l =
    let (c', holds', r, t') = step-Tracks k n c holds t (omega arith) l.0 in
    let (c'', holds'', s, t'') =
      run-Tracks calls (suc n) c' holds' t' (omega arith) (l.1 c' holds' r) in
    (c'', holds'', rw r s, subst (λ (m : ℕ). Tracks m c'' holds'') (omega arith) t'')

-- For any sequence of up to 2^31 calls on a new shard, in which clients release only references
-- that they hold, hold fewer than 2^31 to a handle at a look-up, and `malloc` gives new addresses:
-- every call ends, no assertion of a call and of the table's `resize` fails, and no freed handle is
-- used. (`key()` asserts that it is not asked of the head of an empty list, and no handle of the
-- calls is a head.) The shard that is left is valid,
-- and the reference count of each handle is what the clients hold, beside that of the cache; so
-- a handle that a client holds is not freed.
pub run_safe :
    (capacity : ℕ) (calls : List Call) (c : Shard)
    → Shard.new_shard capacity ≡ some c
    → length calls ≤ 2 ^ 31
    → Legal calls c (λ x. 0)
    → (c' : Shard) × (holds : Ledger) × (run calls c (λ x. 0) ≡ some (c', holds))
      × IsValid c'
      × ((x : Handle) → clients (c'.cells x) ≡ holds x)
run_safe capacity calls c e b l =
    let (c0, e0, v, k, z, f) = new_shard_total capacity in
    let same : c0 ≡ c = ground arith in
    let start : Tracks 0 c (λ x. 0) =
      subst (λ (s : Shard). Tracks 0 s (λ x. 0)) same
        (record { valid = v; agree = λ x. rw (f x) refl; few = omega arith }) in
    let (c', holds, r, t) = run-Tracks calls 0 c (λ x. 0) start (omega arith) l in
    (c', holds, r, t.valid, t.agree)
