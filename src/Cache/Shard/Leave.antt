-- ===== src/Cache/Shard/Leave.antt =====
-- leveldb/cache.cc: an entry that leaves `lru_cache`.
use mathlib.Core.Path.{fun_ext}
use simple_leveldb.Base.{
  ℕ, ◌+◌, ◌-◌, ◌≤◌, ◌≡◌, ◌≢◌, ◌↔◌, refl, sym, ap, ◌∙◌, arith, Bool, true, false, Option, none, some,
  ◌∷◌, ◌==◌, if◌then◌else◌, ◌>>=◌, u64, sub64, Bool-cases, inl, inr,
}
use simple_leveldb.Cache.{Handle}
use simple_leveldb.Cache.Shard.{
  Handle-discrete, Cell, Shard, store, unlink, lru_remove, deallocate, after_un_ref, un_ref,
  finish_erase,
}
use simple_leveldb.Cache.Shard.Lists.{
  occ, total, occ-unlink, one_self, one_ne, unlink_absent, total-unlink,
}
use simple_leveldb.Cache.Shard.Invariant.{cached, Placed, Inv, Moves, nobody}

pub store_self : (e : Handle) (cell : Option Cell) (c : Shard) → (store e cell c).cells e ≡ cell
unfolding store
store_self e cell c = ground arith

pub store_ne :
    (e : Handle) (cell : Option Cell) (c : Shard) (x : Handle)
    → x ≢ e
    → (store e cell c).cells x ≡ c.cells x
unfolding store
store_ne e cell c x n = ground arith

-- A second write to a handle hides the first.
pub store_twice :
    (e : Handle) (a b : Option Cell) (c : Shard) → store e b (store e a c) ≡ store e b c
unfolding store
store_twice e a b c =
    ap (λ (f : Handle → Option Cell). record c { cells = f }) (fun_ext λ x. ground arith)

pub un_ref-after :
    (e : Handle) (cell : Cell) (c : Shard)
    → c.cells e ≡ some cell
    → 1 ≤ cell.refs
    → un_ref e c
      ≡ after_un_ref e
          (record cell { refs = cell.refs - 1 })
          (store e (some (record cell { refs = cell.refs - 1 })) c)
unfolding un_ref
un_ref-after e cell c here p = rw here (ground arith)

pub deallocate-store :
    (e : Handle) (cell : Cell) (c : Shard)
    → deallocate e (store e (some cell) c) ≡ store e none (record c { deleted = e ∷ c.deleted })
unfolding deallocate store
deallocate-store e cell c = store_twice e (some cell) none (record c { deleted = e ∷ c.deleted })

-- The entry as it leaves: freed, or kept for its clients.
unfoldable pub left : Cell → Option Cell
left cell =
    if cell.refs == 1 then none else some (record { refs = cell.refs - 1; in_cache = false })

unfoldable pub gone : Handle → Cell → Shard → Shard
gone e cell c = record c {
  lru = unlink e c.lru;
  in_use = unlink e c.in_use;
  usage = sub64 c.usage e.charge;
  cells = λ x. elim (Handle-discrete x e) [ yes _ ↦ left cell | no _ ↦ c.cells x ];
  deleted = if cell.refs == 1 then e ∷ c.deleted else c.deleted;
}

pub left_freed : (r : ℕ) → (r == 1) ≡ true → left (record { refs = r; in_cache = false }) ≡ none
unfolding left
left_freed r last = rw last refl

left_kept :
    (r : ℕ)
    → (r == 1) ≡ false
    → left (record { refs = r; in_cache = false })
      ≡ some (record { refs = r - 1; in_cache = false })
unfolding left
left_kept r more = rw more refl

after_un_ref_last :
    (e : Handle) (cell : Cell) (c : Shard)
    → (cell.refs == 0) ≡ true
    → cell.in_cache ≡ false
    → after_un_ref e cell c ≡ some (deallocate e c)
unfolding after_un_ref
after_un_ref_last e cell c z o = rw (z, o) refl

after_un_ref_more :
    (e : Handle) (cell : Cell) (c : Shard)
    → (cell.refs == 0) ≡ false
    → cell.in_cache ≡ false
    → after_un_ref e cell c ≡ some c
unfolding after_un_ref
after_un_ref_more e cell c z o = rw (z, o) refl

-- The last reference of an entry out of the cache frees it.
pub un_ref_out :
    (e : Handle) (r : ℕ) (c : Shard)
    → 1 ≤ r
    → un_ref e (store e (some (record { refs = r; in_cache = false })) c)
      ≡ some (
          store e
            (left (record { refs = r; in_cache = false }))
            (record c { deleted = if r == 1 then e ∷ c.deleted else c.deleted }))
un_ref_out e r c p =
    un_ref-after e cell (store e (some cell) c) (store_self e (some cell) c) p
    ∙ ap (after_un_ref e less) (store_twice e (some cell) (some less) c)
    ∙ elim (Bool-cases (r == 1)) [
      | inl last ↦
          let z : (r - 1 == 0) ≡ true = ground arith in
          after_un_ref_last e less (store e (some less) c) z refl
          ∙ ap some (deallocate-store e less c)
          ∙ ap (λ (o : Option Cell). some (store e o (record c { deleted = e ∷ c.deleted })))
              (sym (left_freed r last))
          ∙ ap (λ (b : Bool). some (settled b)) (sym last)
      | inr more ↦
          let z : (r - 1 == 0) ≡ false = ground arith in
          after_un_ref_more e less (store e (some less) c) z refl
          ∙ ap (λ (o : Option Cell). some (store e o c)) (sym (left_kept r more))
          ∙ ap (λ (b : Bool). some (settled b)) (sym more)
    ]
  where
    cell : Cell
    cell = record { refs = r; in_cache = false }

    less : Cell
    less = record { refs = r - 1; in_cache = false }

    settled : Bool → Shard
    settled b = store e (left cell) (record c { deleted = if b then e ∷ c.deleted else c.deleted })

module _ {S : Handle → Type 0} (c : Shard) (v : Inv S c) (e : Handle) (cell : Cell)
    (here : c.cells e ≡ some cell) (own : cell.in_cache ≡ true) where
  gone-Placed :
      (x : Handle)
      → Placed ((gone e cell c).cells x) (occ x (unlink e c.lru)) (occ x (unlink e c.in_use))
  unfolding gone left
  gone-Placed x = ground (
    arith,
    v.placed x,
    v.placed e,
    occ-unlink x e c.lru,
    occ-unlink x e c.in_use,
    one_self e,
    one_ne x e,
  )

  gone-charged : sub64 c.usage e.charge ≡ u64 (total (unlink e c.lru) + total (unlink e c.in_use))
  gone-charged = elim (Bool-cases (cell.refs == 1)) [
    | inl one' ↦
        let out : occ e c.in_use ≡ 0 = ground (arith, v.placed e) in
        let drop' = total-unlink e c.lru (ground (arith, v.placed e)) in
        rw (unlink_absent e c.in_use out) (omega (arith, v.charged))
    | inr more ↦
        let out : occ e c.lru ≡ 0 = ground (arith, v.placed e) in
        let drop' = total-unlink e c.in_use (ground (arith, v.placed e)) in
        rw (unlink_absent e c.lru out) (omega (arith, v.charged))
  ]

  pub gone-Moves : Moves nobody nobody nobody c (gone e cell c)
  unfolding gone left occ
  gone-Moves = record {
    held = λ x. ground (arith, v.placed e);
    counted = λ x. ground (arith, v.placed e);
    capacity = refl;
  }

  gone-cached_self : (x : Handle) → x ≡ e → cached ((gone e cell c).cells x) ≡ false
  unfolding gone left
  gone-cached_self x p = ground arith

  gone-cached_ne : (x : Handle) → x ≢ e → cached ((gone e cell c).cells x) ≡ cached (c.cells x)
  unfolding gone left
  gone-cached_ne x n = ground arith

  gone-indexed : (x : Handle) → (cached ((gone e cell c).cells x) ≡ true) ↔ (S x × (x ≢ e))
  gone-indexed x = elim (Handle-discrete x e) [
    | yes p ↦ (λ h. cc (gone-cached_self x p), λ (s, n). absurd (n p))
    | no n ↦ (
      λ h. ((v.indexed x).0 (sym (gone-cached_ne x n) ∙ h), n),
      λ (s, n'). gone-cached_ne x n ∙ (v.indexed x).1 s,
    )
  ]

  pub gone-Inv : Inv (λ x. S x × (x ≢ e)) (gone e cell c)
  gone-Inv = record {
    table_valid = unfold gone in v.table_valid;
    placed = unfold gone in gone-Placed;
    charged = unfold gone in gone-charged;
    indexed = gone-indexed;
  }

  finish_erase-un_ref : finish_erase (some e) c ≡ (
      un_ref e (
        store e (some (record { refs = cell.refs; in_cache = false })) (record c {
          lru = unlink e c.lru;
          in_use = unlink e c.in_use;
          usage = sub64 c.usage e.charge;
        }))
      >>= (λ c''. some (c'', true)))
  unfolding finish_erase store lru_remove
  finish_erase-un_ref = rw (here, own) refl

  pub finish_erase-gone : finish_erase (some e) c ≡ some (gone e cell c, true)
  unfolding gone left store
  finish_erase-gone =
      rw
        (
          finish_erase-un_ref,
          un_ref_out e cell.refs
              (record c {
                lru = unlink e c.lru;
                in_use = unlink e c.in_use;
                usage = sub64 c.usage e.charge;
              })
              (ground (arith, v.placed e)),
        )
        refl
