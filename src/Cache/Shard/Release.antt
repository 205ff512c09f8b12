-- ===== src/Cache/Shard/Release.antt =====
-- leveldb/cache.cc: a reference that a client gives back, `lru_cache::release`.
use simple_leveldb.Base.{
  ℕ, ◌+◌, ◌-◌, ◌≤◌, ◌≡◌, inl, inr, refl, ap, arith, true, false, ◌&&◌, Option, some, ◌==◌,
  Bool-cases,
}
use simple_leveldb.Cache.{Handle}
use simple_leveldb.Cache.Shard.{Cell, Shard, store, append_lru, lru_remove, un_ref, after_un_ref}
use simple_leveldb.Cache.Shard.Invariant.{clients, Inv, Moves, nobody}
use simple_leveldb.Cache.Shard.Lists.{occ, one}
use simple_leveldb.Cache.Shard.Leave.{un_ref-after, deallocate-store}
use simple_leveldb.Cache.Shard.Clients.{stay-Inv, to_lru, to_lru-Inv, freed, freed-Inv}

-- What `un_ref` promises.
abbrev pub Releases : (Handle → Type 0) → Handle → Shard → Option Shard → Type 0
Releases S e c r =
    (c' : Shard) × (r ≡ some c')
    × Inv S c'
    × Moves nobody (λ x. one x e) nobody c c'
    × (c'.table ≡ c.table)

module _ {S : Handle → Type 0} (c : Shard) (v : Inv S c) (e : Handle) (cell : Cell)
    (here : c.cells e ≡ some cell) where
  after_last :
      (less : Cell)
      → (less.refs == 0) ≡ true
      → less.in_cache ≡ false
      → after_un_ref e less (store e (some less) c) ≡ some (freed c v e cell here)
  unfolding after_un_ref freed
  after_last less z out = rw (z, out) (unfold store in ap some (deallocate-store e less c))

  after_move :
      (r : ℕ)
      → (r == 0) ≡ false
      → (cell.in_cache && r == 1) ≡ true
      → after_un_ref e (record cell { refs = r }) (store e (some (record cell { refs = r })) c)
        ≡ some (to_lru c v e cell here r)
  unfolding after_un_ref to_lru store append_lru lru_remove
  after_move r z m = rw (z, m) refl

  after_stay :
      (less : Cell)
      → (less.refs == 0) ≡ false
      → (less.in_cache && less.refs == 1) ≡ false
      → after_un_ref e less (store e (some less) c) ≡ some (store e (some less) c)
  unfolding after_un_ref
  after_stay less z m = rw (z, m) refl

  freed-Moves :
      cell.in_cache ≡ false
      → cell.refs ≡ 1
      → Moves nobody (λ x. one x e) nobody c (freed c v e cell here)
  unfolding freed one occ
  freed-Moves out last = record {
    held = λ x. ground (arith, here);
    counted = λ x. ground (arith, here);
    capacity = refl;
  }

  to_lru-Moves :
      (r : ℕ)
      → cell.refs ≡ r + 1
      → 1 ≤ r
      → Moves nobody (λ x. one x e) nobody c (to_lru c v e cell here r)
  unfolding to_lru one
  to_lru-Moves r q p = record {
    held = λ x. ground (arith, here);
    counted = λ x. ground (arith, here);
    capacity = refl;
  }

  stay-Moves :
      (r : ℕ)
      → cell.refs ≡ r + 1
      → 1 ≤ r
      → Moves nobody (λ x. one x e) nobody c (store e (some (record cell { refs = r })) c)
  unfolding store one
  stay-Moves r q p = record {
    held = λ x. ground (arith, here);
    counted = λ x. ground (arith, here);
    capacity = refl;
  }

  released :
      (r : ℕ)
      → cell.refs ≡ r + 1
      → 1 ≤ clients (some cell)
      → Releases S e c
          (after_un_ref e (record cell { refs = r }) (store e (some (record cell { refs = r })) c))
  unfolding freed to_lru store
  released r q p = elim (Bool-cases (r == 0)) [
    | inl z ↦
        let out : cell.in_cache ≡ false = ground arith in
        (
          freed c v e cell here,
          after_last (record cell { refs = r }) z out,
          freed-Inv c v e cell here out,
          freed-Moves out (ground arith),
          refl,
        )
    | inr more ↦ elim (Bool-cases (cell.in_cache && r == 1)) [
      | inl move ↦ (
        to_lru c v e cell here r,
        after_move r more move,
        to_lru-Inv c v e cell here r (ground arith) (ground arith) (ground arith),
        to_lru-Moves r q (ground arith),
        refl,
      )
      | inr stay ↦ (
        store e (some (record cell { refs = r })) c,
        after_stay (record cell { refs = r }) more stay,
        stay-Inv c v e cell here r (ground arith) (ground (arith, stay)),
        stay-Moves r q (ground arith),
        refl,
      )
    ]
  ]

  -- A reference given back by a client that has one: no assertion fails.
  pub un_ref_lem : 1 ≤ clients (some cell) → Releases S e c (un_ref e c)
  un_ref_lem p =
      rw (un_ref-after e cell c here (ground arith)) (released (cell.refs - 1) (ground arith) p)
