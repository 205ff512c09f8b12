-- ===== src/Cache/Shard/Insert.antt =====
-- leveldb/cache.cc: `lru_cache::insert`.
use simple_leveldb.Base.{
  ℕ, suc, ◌+◌, ◌^◌, ◌≤◌, ◌<◌, ◌≡◌, ◌≢◌, ◌↔◌, ◌⊎◌, inl, inr, refl, sym, ap, ◌∙◌, arith, true, false,
  Option, none, some, [], ◌∷◌, ◌++◌, Bytes, length, ltb, Option-cases, Bool-cases,
}
use simple_leveldb.Cache.{Handle}
use simple_leveldb.Cache.Table
use simple_leveldb.Cache.Table.{Table}
use simple_leveldb.Cache.Table.Chains.{is_key, is_key_iff}
use simple_leveldb.Cache.Table.Slots
use simple_leveldb.Cache.Table.Laws.{entered, insert_lem}
use simple_leveldb.Cache.Shard.{Cell, Shard, store, append_in_use, finish_erase, enter, insert}
use simple_leveldb.Cache.Shard.Invariant.{cached, Placed, Inv, Stored, IsValid, Moves, nobody}
use simple_leveldb.Cache.Shard.Lists.{occ, one, occ-append, occ-unlink, one_self, one_ne}
use simple_leveldb.Cache.Shard.Leave.{gone, gone-Inv, gone-Moves, finish_erase-gone}
use simple_leveldb.Cache.Shard.Erase.{Inv-iff, with_table, look_up_key, look_up-Stored, cached-cell}
use simple_leveldb.Cache.Shard.Evict.{Moves-trans, evict_loop_lem}
use simple_leveldb.Cache.Shard.Link.{linked, linked-Inv, linked-Moves}

-- The handles found after an insertion over a free key.
inserted_new :
    (e : Handle) (c : Shard) (t : Table)
    → ((k : Bytes) (n : ℕ) → Table.look_up k n t ≡ entered e k n (Table.look_up k n c.table))
    → Table.look_up e.key e.hash c.table ≡ none
    → (x : Handle) → (Stored c x ⊎ (x ≡ e)) ↔ (Table.look_up x.key x.hash t ≡ some x)
inserted_new e c t f free x = (to, from)
  where
    to : (Stored c x ⊎ (x ≡ e)) → Table.look_up x.key x.hash t ≡ some x
    to (inl s) = ground (arith, f x.key x.hash, is_key_iff e.key e.hash x.key x.hash)
    to (inr p) = rw p (ground (arith, f e.key e.hash, is_key_iff e.key e.hash e.key e.hash))

    from : Table.look_up x.key x.hash t ≡ some x → Stored c x ⊎ (x ≡ e)
    from h = elim (Bool-cases (is_key e.key e.hash x.key x.hash)) [
      | inl same ↦ inr (ground (arith, f x.key x.hash))
      | inr other ↦ inl (ground (arith, f x.key x.hash))
    ]

-- And over an old entry with the key.
inserted_over :
    (e : Handle) (c : Shard) (t : Table) (old : Handle)
    → ((k : Bytes) (n : ℕ) → Table.look_up k n t ≡ entered e k n (Table.look_up k n c.table))
    → Table.look_up e.key e.hash c.table ≡ some old
    → (old ≢ e)
    → (x : Handle) → ((Stored c x ⊎ (x ≡ e)) × (x ≢ old)) ↔ (Table.look_up x.key x.hash t ≡ some x)
inserted_over e c t old f over apart x = (to, from)
  where
    to : (Stored c x ⊎ (x ≡ e)) × (x ≢ old) → Table.look_up x.key x.hash t ≡ some x
    to (inl s, n) = ground (arith, f x.key x.hash, is_key_iff e.key e.hash x.key x.hash)
    to (inr p, n) = rw p (ground (arith, f e.key e.hash, is_key_iff e.key e.hash e.key e.hash))

    from : Table.look_up x.key x.hash t ≡ some x → (Stored c x ⊎ (x ≡ e)) × (x ≢ old)
    from h = elim (Bool-cases (is_key e.key e.hash x.key x.hash)) [
      | inl same ↦ let p : x ≡ e = ground (arith, f x.key x.hash) in (inr p, λ q. apart (sym q ∙ p))
      | inr other ↦ (
        inl (ground (arith, f x.key x.hash)),
        λ q. ground (
          arith,
          f x.key x.hash,
          look_up_key e.key e.hash c.table old over,
          is_key_iff e.key e.hash x.key x.hash,
        ),
      )
    ]

-- What `enter` does with its entry.
pub record Enters (e : Handle) (c : Shard) (r : Option Shard) : Type 0 where
  pub state : Shard
  pub returns : r ≡ some state
  pub valid : IsValid state
  pub moves : Moves (λ x. one x e) nobody (λ x. one x e) c state
  pub more : state.table.elems ≤ c.table.elems + 1
  pub in_use : 0 < c.capacity → occ e state.in_use ≡ 1

module _ (e : Handle) (c : Shard) (v : IsValid c) (fresh : c.cells e ≡ none)
    (b : c.table.elems < 2 ^ 31) where
  enter_off : ltb 0 c.capacity ≡ false → Enters e c (enter e c)
  unfolding enter store
  enter_off off = record {
    state = store e (some (record { refs = 1; in_cache = false })) c;
    returns = rw off refl;
    valid = record {
      table_valid = v.table_valid;
      placed = λ x. ground (arith, v.placed x, v.placed e);
      charged = v.charged;
      indexed = λ x. ground (arith, v.indexed x, v.indexed e);
    };
    moves =
        unfold one in
        record { held = λ x. ground arith; counted = λ x. ground arith; capacity = refl };
    more = omega arith;
    in_use = λ p. absurd (ground arith);
  }

  module _ (on : ltb 0 c.capacity ≡ true) (t : Table)
      (f : (k : Bytes) (n : ℕ) → Table.look_up k n t ≡ entered e k n (Table.look_up k n c.table))
      (w : Slots.IsValid t) (more : t.elems ≤ c.table.elems + 1) where
    fresh_in_use : occ e c.in_use ≡ 0
    fresh_in_use = ground (arith, v.placed e)

    with_t : Shard
    with_t = record (linked e c) { table = t }

    with_t-Inv : Inv (λ x. Stored c x ⊎ (x ≡ e)) with_t
    unfolding with_t
    with_t-Inv = with_table (linked e c) t (linked-Inv e c v fresh) w

    with_t-Moves : Moves (λ x. one x e) nobody (λ x. one x e) c with_t
    unfolding with_t
    with_t-Moves =
        let m = linked-Moves e c v fresh in
        record { held = m.held; counted = m.counted; capacity = m.capacity }

    enter_new :
        Table.look_up e.key e.hash c.table ≡ none
        → Table.insert e c.table ≡ some (t, none)
        → Enters e c (enter e c)
    unfolding enter store append_in_use finish_erase linked with_t
    enter_new free i = record {
      state = with_t;
      returns = rw (on, i) refl;
      valid = Inv-iff (inserted_new e c t f free) with_t-Inv;
      moves = with_t-Moves;
      more = more;
      in_use = λ p. omega (arith, occ-append e e c.in_use, one_self e, fresh_in_use);
    }

    enter_over :
        (old : Handle)
        → Table.look_up e.key e.hash c.table ≡ some old
        → Table.insert e c.table ≡ some (t, some old)
        → Enters e c (enter e c)
    unfolding enter store append_in_use linked with_t gone
    enter_over old over i =
        let stored = look_up-Stored e.key e.hash c old over in
        let apart : old ≢ e = λ p. absurd (ground (arith, v.indexed old, fresh)) in
        let (cell, at, own) =
          cached-cell (with_t.cells old) ((with_t-Inv.indexed old).1 (inl stored)) in
        let left = finish_erase-gone with_t with_t-Inv old cell at own in
        record {
          state = gone old cell with_t;
          returns = rw (on, i, left) refl;
          valid =
              Inv-iff (inserted_over e c t old f over apart)
                (gone-Inv with_t with_t-Inv old cell at own);
          moves = Moves-trans with_t-Moves (gone-Moves with_t with_t-Inv old cell at own);
          more = more;
          in_use = λ p. omega (
            arith,
            occ-unlink e old (c.in_use ++ e ∷ []),
            occ-append e e c.in_use,
            one_self e,
            one_ne e old (λ q. apart (sym q)),
            fresh_in_use,
          );
        }

  enter_lem : Enters e c (enter e c)
  enter_lem = elim (Bool-cases (ltb 0 c.capacity)) [
    | inr off ↦ enter_off off
    | inl on ↦
        let (t, i, w, more, f) = insert_lem e c.table v.table_valid b in
        elim (Option-cases (Table.look_up e.key e.hash c.table)) [
          | inl free ↦
              enter_new on t f w more free (i ∙ ap (λ (o : Option Handle). some (t, o)) free)
          | inr (old, over) ↦
              enter_over on t f w more old over (i ∙ ap (λ (o : Option Handle). some (t, o)) over)
        ]
  ]

-- What stands in the in-use list is in the cache.
in_use-cached : (cell : Option Cell) (a n : ℕ) → Placed cell a n → n ≡ 1 → cached cell ≡ true
in_use-cached none a n p e = absurd (omega arith)
in_use-cached (some r) a n p e = ground arith

-- What `insert` promises.
pub record Inserts (e : Handle) (c : Shard) (r : Option Shard) : Type 0 where
  pub state : Shard
  pub returns : r ≡ some state
  pub valid : IsValid state
  pub moves : Moves (λ x. one x e) nobody (λ x. one x e) c state
  pub room : (state.usage ≤ state.capacity) ⊎ (state.lru ≡ [])
  pub found : 0 < c.capacity → Table.look_up e.key e.hash state.table ≡ some e
  pub more : state.table.elems ≤ c.table.elems + 1

-- With a handle that is not in use and fewer than 2^31 entries, `insert` ends, and no assertion of
-- the shard and of its table's `resize` fails. The shard is valid again; the caller holds one reference to the new handle and every other
-- client holds what it held; a handle leaves the store exactly when its deleter is called. The
-- usage is within the capacity unless nothing is left to evict; and with a capacity above 0 the new
-- handle is found under its key.
pub insert_total :
    (e : Handle) (c : Shard)
    → IsValid c
    → c.cells e ≡ none
    → c.table.elems < 2 ^ 31
    → Inserts e c (insert e c)
unfolding insert
insert_total e c v fresh b =
    let s = enter_lem e c v fresh b in
    let (r, room) =
      evict_loop_lem (suc (length s.state.lru)) s.state.lru s.state refl (omega arith) s.valid
        (omega (arith, s.more)) in
    record {
      state = r.state;
      returns = rw s.returns r.returns;
      valid = r.valid;
      moves = Moves-trans s.moves r.moves;
      room = room;
      found = λ p. (r.valid.indexed e).0 (
          in_use-cached (r.state.cells e) (occ e r.state.lru) (occ e r.state.in_use)
            (r.valid.placed e) (ap (occ e) r.kept ∙ s.in_use p));
      more = omega (arith, s.more, r.fewer);
    }
