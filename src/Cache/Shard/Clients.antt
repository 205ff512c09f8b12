-- ===== src/Cache/Shard/Clients.antt =====
-- leveldb/cache.cc: the references of the clients, `lru_cache::look_up` and `lru_cache::release`.
use simple_leveldb.Base.{
  ℕ, ◌+◌, ◌^◌, ◌≤◌, ◌<◌, ◌≡◌, inl, inr, refl, ap, arith, Bool, true, false, ◌&&◌, Option, none,
  some, [], ◌∷◌, ◌++◌, ◌==◌, if◌then◌else◌, Bool-cases, u32,
}
use simple_leveldb.Cache.{Handle}
use simple_leveldb.Cache.Shard.{
  Handle-discrete, Cell, Shard, store, append_in_use, lru_remove, unlink, ref,
}
use simple_leveldb.Cache.Shard.Invariant.{Inv, Moves, nobody}
use simple_leveldb.Cache.Shard.Lists.{
  occ, one, occ-append, occ-unlink, total-append, total-unlink, unlink_absent, one_self, one_ne,
}

module _ {S : Handle → Type 0} (c : Shard) (v : Inv S c) (e : Handle) (cell : Cell)
    (here : c.cells e ≡ some cell) where
  -- One more reference to an entry that stays in its list.
  pub stay-Inv :
      (r : ℕ)
      → (1 ≤ r)
      → (cell.in_cache && r == 1) ≡ (cell.in_cache && cell.refs == 1)
      → Inv S (store e (some (record cell { refs = r })) c)
  unfolding store
  stay-Inv r p q = record {
    table_valid = v.table_valid;
    placed = λ x. ground (arith, v.placed x, v.placed e);
    charged = v.charged;
    indexed = λ x. ground (arith, v.indexed x, v.indexed e);
  }

  -- A reference to an entry that moves from `lru` to `in_use`.
  to_in_use : ℕ → Shard
  to_in_use r = record c {
    lru = unlink e c.lru;
    in_use = unlink e c.in_use ++ e ∷ [];
    cells = λ x. elim (Handle-discrete x e) [
      | yes _ ↦ some (record cell { refs = r })
      | no _ ↦ c.cells x
    ];
  }

  to_in_use-Inv :
      (r : ℕ) → r ≡ 2 → cell.in_cache ≡ true → (cell.refs == 1) ≡ true → Inv S (to_in_use r)
  unfolding to_in_use
  to_in_use-Inv r two own single =
      let listed : occ e c.lru ≡ 1 = ground (arith, v.placed e) in
      let apart : occ e c.in_use ≡ 0 = ground (arith, v.placed e) in
      record {
        table_valid = v.table_valid;
        placed = λ x. ground (
          arith,
          v.placed x,
          v.placed e,
          occ-unlink x e c.lru,
          occ-unlink x e c.in_use,
          occ-append x e (unlink e c.in_use),
          one_self e,
          one_ne x e,
        );
        charged =
            rw (unlink_absent e c.in_use apart) (
              omega
                (arith, v.charged, total-append e c.in_use, total-unlink e c.lru (omega arith)));
        indexed = λ x. ground (arith, v.indexed x, v.indexed e);
      }

  -- An entry that only the cache refers to any more moves to `lru`.
  unfoldable pub to_lru : ℕ → Shard
  to_lru r = record c {
    lru = unlink e c.lru ++ e ∷ [];
    in_use = unlink e c.in_use;
    cells = λ x. elim (Handle-discrete x e) [
      | yes _ ↦ some (record cell { refs = r })
      | no _ ↦ c.cells x
    ];
  }

  pub to_lru-Inv : (r : ℕ) → r ≡ 1 → cell.in_cache ≡ true → 2 ≤ cell.refs → Inv S (to_lru r)
  unfolding to_lru
  to_lru-Inv r last own more =
      let listed : occ e c.in_use ≡ 1 = ground (arith, v.placed e) in
      let apart : occ e c.lru ≡ 0 = ground (arith, v.placed e) in
      record {
        table_valid = v.table_valid;
        placed = λ x. ground (
          arith,
          v.placed x,
          v.placed e,
          occ-unlink x e c.lru,
          occ-unlink x e c.in_use,
          occ-append x e (unlink e c.lru),
          one_self e,
          one_ne x e,
        );
        charged =
            rw (unlink_absent e c.lru apart) (
              omega
                (arith, v.charged, total-append e c.lru, total-unlink e c.in_use (omega arith)));
        indexed = λ x. ground (arith, v.indexed x, v.indexed e);
      }

  -- The last reference to an entry that the cache does not have.
  unfoldable pub freed : Shard
  freed = record c {
    deleted = e ∷ c.deleted;
    cells = λ x. elim (Handle-discrete x e) [ yes _ ↦ none | no _ ↦ c.cells x ];
  }

  pub freed-Inv : cell.in_cache ≡ false → Inv S freed
  unfolding freed
  freed-Inv out = record {
    table_valid = v.table_valid;
    placed = λ x. ground (arith, v.placed x, v.placed e);
    charged = v.charged;
    indexed = λ x. ground (arith, v.indexed x, v.indexed e);
  }

  after_ref : Bool → Option Shard
  after_ref b =
      let c' = if b then append_in_use e (lru_remove e c) else c in
      some (store e (some (record cell { refs = u32 (cell.refs + 1) })) c')

  ref_move :
      (cell.refs == 1 && cell.in_cache) ≡ true → ref e c ≡ some (to_in_use (u32 (cell.refs + 1)))
  unfolding ref store lru_remove append_in_use to_in_use after_ref
  ref_move move = rw here (ap after_ref move)

  ref_stay :
      (cell.refs == 1 && cell.in_cache) ≡ false
      → ref e c ≡ some (store e (some (record cell { refs = u32 (cell.refs + 1) })) c)
  unfolding ref after_ref
  ref_stay stay = rw here (ap after_ref stay)

  to_in_use-Moves :
      cell.refs + 1 < 2 ^ 32
      → Moves (λ x. one x e) nobody nobody c (to_in_use (u32 (cell.refs + 1)))
  unfolding to_in_use one
  to_in_use-Moves b = record {
    held = λ x. ground (arith, here, v.placed e);
    counted = λ x. ground (arith, here);
    capacity = refl;
  }

  more-Moves :
      cell.refs + 1 < 2 ^ 32
      → Moves
          (λ x. one x e)
          nobody
          nobody
          c
          (store e (some (record cell { refs = u32 (cell.refs + 1) })) c)
  unfolding store one
  more-Moves b = record {
    held = λ x. ground (arith, here, v.placed e);
    counted = λ x. ground (arith, here);
    capacity = refl;
  }

  -- A reference taken: no assertion fails, and clients have one more.
  pub ref_lem :
      cell.refs + 1 < 2 ^ 32
      → (c' : Shard) × (ref e c ≡ some c')
        × Inv S c'
        × Moves (λ x. one x e) nobody nobody c c'
        × (c'.table ≡ c.table)
  unfolding to_in_use store
  ref_lem b = elim (Bool-cases (cell.refs == 1 && cell.in_cache)) [
    | inl move ↦ (
      to_in_use (u32 (cell.refs + 1)),
      ref_move move,
      to_in_use-Inv (u32 (cell.refs + 1)) (ground arith) (ground arith) (ground arith),
      to_in_use-Moves b,
      refl,
    )
    | inr stay ↦ (
      store e (some (record cell { refs = u32 (cell.refs + 1) })) c,
      ref_stay stay,
      stay-Inv (u32 (cell.refs + 1)) (ground (arith, v.placed e)) (ground (arith, v.placed e)),
      more-Moves b,
      refl,
    )
  ]
