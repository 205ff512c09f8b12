-- ===== src/Cache/Shard/Evict.antt =====
-- leveldb/cache.cc: the loops of `lru_cache` that evict, in `insert` and in `prune`.
use simple_leveldb.Base.{
  drop, ltb, ◌⊎◌, ℕ, zero, suc, ◌^◌, ◌≤◌, ◌<◌, ◌≡◌, refl, sym, ap, ◌∙◌, subst, arith, Bool, true,
  Option, none, some, List, [], ◌∷◌, length, ◌==◌, if◌then◌else◌, ◌>>=◌, inl, inr, Bool-cases,
}
use simple_leveldb.Cache.{Handle}
use simple_leveldb.Cache.Shard.{Cell, Shard, erase, evict, unlink, evict_loop, prune_loop}
use simple_leveldb.Cache.Shard.Invariant.{Placed, IsValid, Moves, nobody}
use simple_leveldb.Cache.Shard.Lists.{occ, unlink_absent}
use simple_leveldb.Cache.Shard.Erase.{erase_lem}

occ_oldest : (old : Handle) (l : List Handle) → occ old (old ∷ l) ≡ suc (occ old l)
unfolding occ
occ_oldest old l = ground arith

unlink_oldest : (old : Handle) (l : List Handle) → unlink old (old ∷ l) ≡ l
unfolding unlink
unlink_oldest old l = ground arith

-- What stands in `lru` is in the cache and has one reference.
Placed-oldest :
    (cell : Option Cell) (a b : ℕ)
    → Placed cell (suc a) b
    → (r : Cell) × (cell ≡ some r) × (r.in_cache ≡ true) × ((r.refs == 1) ≡ true) × (b ≡ 0)
Placed-oldest none a b p = absurd (omega arith)
Placed-oldest (some r) a b p = (r, refl, ground arith, ground arith, ground arith)

evict-erase :
    (old : Handle) (c c' : Shard) (cell : Cell)
    → c.cells old ≡ some cell
    → (cell.refs == 1) ≡ true
    → erase old.key old.hash c ≡ some (c', true)
    → evict old c ≡ some c'
unfolding evict
evict-erase old c c' cell here single e = rw (here, e, single) refl

-- A round on the oldest entry: no assertion fails.
pub evict_lem :
    (old : Handle) (l : List Handle) (c : Shard)
    → c.lru ≡ old ∷ l
    → IsValid c
    → c.table.elems ≤ 2 ^ 31
    → (c' : Shard) × (evict old c ≡ some c')
      × IsValid c'
      × Moves nobody nobody nobody c c'
      × (c'.table.elems ≤ c.table.elems)
      × (c'.lru ≡ l)
      × (c'.in_use ≡ c.in_use)
evict_lem old l c e v b =
    let at : Placed (c.cells old) (suc (occ old l)) (occ old c.in_use) =
      subst (λ (n : ℕ). Placed (c.cells old) n (occ old c.in_use))
        (ap (occ old) e ∙ occ_oldest old l) (v.placed old) in
    let (cell, here, own, single, apart) =
      Placed-oldest (c.cells old) (occ old l) (occ old c.in_use) at in
    let stored = (v.indexed old).0 (rw here own) in
    let r = erase_lem old.key old.hash c v b in
    let (lists, lists') = r.lists old stored in
    (
      r.state,
      evict-erase old c r.state cell here single
          (r.returns ∙ ap (λ (d : Bool). some (r.state, d)) (r.is_done old stored)),
      r.valid,
      r.moves,
      r.fewer,
      lists ∙ ap (unlink old) e ∙ unlink_oldest old l,
      lists' ∙ unlink_absent old c.in_use apart,
    )

pub Moves-trans :
    {gained lost made : Handle → ℕ} {a b c : Shard}
    → Moves gained lost made a b
    → Moves nobody nobody nobody b c
    → Moves gained lost made a c
Moves-trans m n = record {
  held = λ x. omega (arith, m.held x, n.held x);
  counted = λ x. omega (arith, m.counted x, n.counted x);
  capacity = n.capacity ∙ m.capacity;
}

pub Moves-refl : (c : Shard) → Moves nobody nobody nobody c c
Moves-refl c = record { held = λ x. refl; counted = λ x. omega arith; capacity = refl }

-- What a loop over the oldest entries does: it takes some of them off.
pub record Evicts (c : Shard) (r : Option Shard) : Type 0 where
  pub state : Shard
  pub returns : r ≡ some state
  pub valid : IsValid state
  pub moves : Moves nobody nobody nobody c state
  pub fewer : state.table.elems ≤ c.table.elems
  pub taken : ℕ
  pub oldest : state.lru ≡ drop taken c.lru
  pub kept : state.in_use ≡ c.in_use

Evicts-refl : (c : Shard) → IsValid c → Evicts c (some c)
Evicts-refl c v = record {
  state = c;
  returns = refl;
  valid = v;
  moves = Moves-refl c;
  fewer = omega arith;
  taken = 0;
  oldest = refl;
  kept = refl;
}

-- A round, and then the rest of the loop.
Evicts-round :
    (old : Handle) (l : List Handle) (c c' : Shard) (r : Option Shard)
    → c.lru ≡ old ∷ l
    → Moves nobody nobody nobody c c'
    → c'.table.elems ≤ c.table.elems
    → c'.lru ≡ l
    → c'.in_use ≡ c.in_use
    → Evicts c' r
    → Evicts c r
Evicts-round old l c c' r e m b e' k s = record {
  state = s.state;
  returns = s.returns;
  valid = s.valid;
  moves = Moves-trans m s.moves;
  fewer = omega (arith, s.fewer);
  taken = suc s.taken;
  oldest = s.oldest ∙ ap (drop s.taken) e' ∙ sym (ap (drop (suc s.taken)) e);
  kept = s.kept ∙ k;
}

evict_loop_go :
    (f : ℕ) (c : Shard) (old : Handle) (l : List Handle)
    → c.lru ≡ old ∷ l
    → evict_loop (suc f) c
      ≡ (if ltb c.capacity c.usage then (evict old c >>= evict_loop f) else some c)
unfolding evict_loop
evict_loop_go f c old l e = rw e refl

evict_loop_end : (f : ℕ) (c : Shard) → c.lru ≡ [] → evict_loop (suc f) c ≡ some c
unfolding evict_loop
evict_loop_end f c e = rw e refl

-- The loop ends, at a usage within the capacity or with nothing left to evict.
pub evict_loop_lem :
    (f : ℕ) (l : List Handle) (c : Shard)
    → c.lru ≡ l
    → length l < f
    → IsValid c
    → c.table.elems ≤ 2 ^ 31
    → (r : Evicts c (evict_loop f c)) × ((r.state.usage ≤ r.state.capacity) ⊎ (r.state.lru ≡ []))
unfolding Evicts-refl Evicts-round
evict_loop_lem zero l c e h v b = absurd (omega arith)
evict_loop_lem (suc f) [] c e h v b = rw (evict_loop_end f c e) (Evicts-refl c v, inr e)
evict_loop_lem (suc f) (old ∷ l) c e h v b = elim (Bool-cases (ltb c.capacity c.usage)) [
  | inl over ↦
      let (c', r, v', m, less, e', k) = evict_lem old l c e v b in
      let (s, done) = evict_loop_lem f l c' e' (omega arith) v' (omega arith) in
      rw (evict_loop_go f c old l e, over, r)
        (Evicts-round old l c c' (evict_loop f c') e m less e' k s, done)
  | inr within ↦ rw (evict_loop_go f c old l e, within) (Evicts-refl c v, inl (ground arith))
]

prune_loop_go :
    (f : ℕ) (c : Shard) (old : Handle) (l : List Handle)
    → c.lru ≡ old ∷ l
    → prune_loop (suc f) c ≡ (evict old c >>= prune_loop f)
unfolding prune_loop
prune_loop_go f c old l e = rw e refl

prune_loop_end : (f : ℕ) (c : Shard) → c.lru ≡ [] → prune_loop (suc f) c ≡ some c
unfolding prune_loop
prune_loop_end f c e = rw e refl

pub prune_loop_lem :
    (f : ℕ) (l : List Handle) (c : Shard)
    → c.lru ≡ l
    → length l < f
    → IsValid c
    → c.table.elems ≤ 2 ^ 31
    → (r : Evicts c (prune_loop f c)) × (r.state.lru ≡ [])
unfolding Evicts-refl Evicts-round
prune_loop_lem zero l c e h v b = absurd (omega arith)
prune_loop_lem (suc f) [] c e h v b = rw (prune_loop_end f c e) (Evicts-refl c v, e)
prune_loop_lem (suc f) (old ∷ l) c e h v b =
    let (c', r, v', m, less, e', k) = evict_lem old l c e v b in
    let (s, done) = prune_loop_lem f l c' e' (omega arith) v' (omega arith) in
    rw (prune_loop_go f c old l e, r)
      (Evicts-round old l c c' (prune_loop f c') e m less e' k s, done)
