-- ===== src/Cache/Shard/Link.antt =====
-- leveldb/cache.cc: the entry that `lru_cache::insert` links in.
use simple_leveldb.Base.{◌+◌, ◌≡◌, ◌≢◌, ◌↔◌, ◌⊎◌, refl, arith, true, none, some, [], ◌∷◌, ◌++◌, u64}
use simple_leveldb.Cache.{Handle}
use simple_leveldb.Cache.Shard.{Handle-discrete, Shard}
use simple_leveldb.Cache.Shard.Invariant.{cached, Placed, Inv, Stored, IsValid, Moves, nobody}
use simple_leveldb.Cache.Shard.Lists.{occ, one, occ-append, total-append, one_self, one_ne}

-- The entry in the in-use list, with the reference of the cache and that of the caller.
unfoldable pub linked : Handle → Shard → Shard
linked e c = record c {
  in_use = c.in_use ++ e ∷ [];
  usage = u64 (c.usage + e.charge);
  cells = λ x. elim (Handle-discrete x e) [
    | yes _ ↦ some (record { refs = 2; in_cache = true })
    | no _ ↦ c.cells x
  ];
}

module _ (e : Handle) (c : Shard) (v : IsValid c) (fresh : c.cells e ≡ none) where
  linked-Placed :
      (x : Handle) → Placed ((linked e c).cells x) (occ x c.lru) (occ x (c.in_use ++ e ∷ []))
  unfolding linked
  linked-Placed x =
      ground (arith, v.placed x, v.placed e, occ-append x e c.in_use, one_self e, one_ne x e)

  pub linked-Moves : Moves (λ x. one x e) nobody (λ x. one x e) c (linked e c)
  unfolding linked one
  linked-Moves = record {
    held = λ x. ground (arith, fresh);
    counted = λ x. ground (arith, fresh);
    capacity = refl;
  }

  linked-indexed : (x : Handle) → (cached ((linked e c).cells x) ≡ true) ↔ (Stored c x ⊎ (x ≡ e))
  unfolding linked
  linked-indexed x = ground (arith, v.indexed x, fresh)

  pub linked-Inv : Inv (λ x. Stored c x ⊎ (x ≡ e)) (linked e c)
  linked-Inv = record {
    table_valid = unfold linked in v.table_valid;
    placed = unfold linked in linked-Placed;
    charged = unfold linked in omega (arith, v.charged, total-append e c.in_use);
    indexed = linked-indexed;
  }

  fresh-ne : (x : Handle) → Stored c x → x ≢ e
  fresh-ne x s p = ground (arith, v.indexed x, fresh)
