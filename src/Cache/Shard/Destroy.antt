-- ===== src/Cache/Shard/Destroy.antt =====
-- leveldb/cache.cc: the destructor of `lru_cache`.
use simple_leveldb.Base.{
  ℕ, suc, ◌+◌, ◌≤◌, ◌≡◌, ◌≢◌, refl, sym, ap, ◌∙◌, subst, arith, true, Option, none, some, List, [],
  ◌∷◌,
}
use simple_leveldb.Cache.{Handle}
use simple_leveldb.Cache.Shard.{Handle-discrete, Cell, Shard, store, destroy_loop, destroy}
use simple_leveldb.Cache.Shard.Invariant.{Placed, IsValid}
use simple_leveldb.Cache.Shard.Lists.{occ, one}
use simple_leveldb.Cache.Shard.Leave.{store_ne, left_freed, un_ref_out}

abbrev resting : Cell
resting = record { refs = 1; in_cache = true }

-- Each entry stands once in the list, with the reference of the cache alone.
abbrev Resting : List Handle → Shard → Type 0
Resting l c = (x : Handle) → 1 ≤ occ x l → (c.cells x ≡ some resting) × (occ x l ≡ 1)

occ_self : (e : Handle) (l : List Handle) → occ e (e ∷ l) ≡ suc (occ e l)
unfolding occ
occ_self e l = ground arith

occ_ne : (x e : Handle) (l : List Handle) → x ≢ e → occ x (e ∷ l) ≡ occ x l
unfolding occ
occ_ne x e l n = ground arith

occ_cons : (x e : Handle) (l : List Handle) → occ x (e ∷ l) ≡ one x e + occ x l
unfolding occ one
occ_cons x e l = ground arith

delete_one : Handle → Shard → Shard
delete_one e c = store e none (record c { deleted = e ∷ c.deleted })

destroy_one :
    (e : Handle) (l : List Handle) (c : Shard)
    → c.cells e ≡ some resting
    → destroy_loop (e ∷ l) c ≡ destroy_loop l (delete_one e c)
unfolding destroy_loop delete_one
destroy_one e l c here =
    rw (here, un_ref_out e 1 c (omega arith))
      (ap (λ (o : Option Cell). destroy_loop l (store e o (record c { deleted = e ∷ c.deleted })))
        (left_freed 1 refl))

rest-Resting :
    (e : Handle) (l : List Handle) (c : Shard) → Resting (e ∷ l) c → Resting l (delete_one e c)
unfolding delete_one
rest-Resting e l c r x p = elim (Handle-discrete x e) [
  | yes same ↦
      let (here, once) = r e (rw (occ_self e l) (omega arith)) in
      let again = subst (λ (y : Handle). 1 ≤ occ y l) same p in absurd (omega (arith, occ_self e l))
  | no other ↦
      let (here, once) = r x (rw (occ_ne x e l other) p) in
      (
        store_ne e none (record c { deleted = e ∷ c.deleted }) x other ∙ here,
        sym (occ_ne x e l other) ∙ once,
      )
]

delete_one-deleted : (e : Handle) (c : Shard) → (delete_one e c).deleted ≡ e ∷ c.deleted
unfolding delete_one store
delete_one-deleted e c = refl

destroy_loop_lem :
    (l : List Handle) (c : Shard)
    → Resting l c
    → (c' : Shard) × (destroy_loop l c ≡ some c')
      × ((x : Handle) → occ x c'.deleted ≡ occ x c.deleted + occ x l)
destroy_loop_lem [] c r = (c, unfold destroy_loop in refl, λ x. unfold occ in omega arith)
destroy_loop_lem (e ∷ l) c r =
    let (here, once) = r e (rw (occ_self e l) (omega arith)) in
    let (c', d, f) = destroy_loop_lem l (delete_one e c) (rest-Resting e l c r) in
    (c', destroy_one e l c here ∙ d, λ x. f x ∙ counted x)
  where
    counted :
        (x : Handle) → occ x (delete_one e c).deleted + occ x l ≡ occ x c.deleted + occ x (e ∷ l)
    counted x =
        omega (
          arith,
          arith,
          ap (occ x) (delete_one-deleted e c),
          occ_cons x e c.deleted,
          occ_cons x e l,
        )

Placed-resting :
    (cell : Option Cell) (a b : ℕ) → Placed cell a b → 1 ≤ a → (cell ≡ some resting) × (a ≡ 1)
Placed-resting none a b p q = absurd (omega arith)
Placed-resting (some r) a b p q = ground arith

destroy_unused : (c : Shard) → c.in_use ≡ [] → destroy c ≡ destroy_loop c.lru c
unfolding destroy
destroy_unused c e = ap unused e
  where
    unused : List Handle → Option Shard
    unused l = elim l [ [] ↦ destroy_loop c.lru c | _ ∷ _ ↦ none ]

-- On a valid shard that no client uses, the destructor ends, no assertion fails, and it calls the
-- deleter once for each entry and for nothing else.
pub destroy_total :
    (c : Shard)
    → IsValid c
    → c.in_use ≡ []
    → (c' : Shard) × (destroy c ≡ some c')
      × ((x : Handle) → occ x c'.deleted ≡ occ x c.deleted + occ x c.lru)
destroy_total c v e = rw (destroy_unused c e) (
    destroy_loop_lem c.lru c
      (λ x p. Placed-resting (c.cells x) (occ x c.lru) (occ x c.in_use) (v.placed x) p))
