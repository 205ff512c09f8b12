-- ===== src/Cache/Shard/Lists.antt =====
-- leveldb/cache.cc: the two lists of `lru_cache`, by how often a handle stands in them.
use simple_leveldb.Base.{ℕ, suc, ◌+◌, ◌-◌, ◌≤◌, ◌≡◌, ◌≢◌, refl, arith, List, [], ◌∷◌, ◌++◌, length}
use simple_leveldb.Cache.{Handle}
use simple_leveldb.Cache.Shard.{Handle-discrete, unlink}

-- How often a handle stands in a list.
unfoldable pub occ : Handle → List Handle → ℕ
occ e [] = 0
occ e (h ∷ l) = elim (Handle-discrete e h) [ yes _ ↦ suc (occ e l) | no _ ↦ occ e l ]

-- One for a handle itself, and none for another.
unfoldable pub one : Handle → Handle → ℕ
one e h = elim (Handle-discrete e h) [ yes _ ↦ 1 | no _ ↦ 0 ]

unfoldable pub total : List Handle → ℕ
total [] = 0
total (h ∷ l) = h.charge + total l

pub occ-append : (e h : Handle) (l : List Handle) → occ e (l ++ h ∷ []) ≡ occ e l + one e h
unfolding occ one
occ-append e h [] = ground arith
occ-append e h (d ∷ l) = ground (arith, occ-append e h l)

pub occ-unlink : (e h : Handle) (l : List Handle) → occ e (unlink h l) ≡ occ e l - one e h
unfolding occ one unlink
occ-unlink e h [] = ground arith
occ-unlink e h (d ∷ l) = ground (arith, occ-unlink e h l)

pub one_self : (e : Handle) → one e e ≡ 1
unfolding one
one_self e = ground arith

pub one_ne : (e h : Handle) → e ≢ h → one e h ≡ 0
unfolding one
one_ne e h n = ground arith

pub unlink_absent : (h : Handle) (l : List Handle) → occ h l ≡ 0 → unlink h l ≡ l
unfolding occ unlink
unlink_absent h [] e = refl
unlink_absent h (d ∷ l) e = ground (arith, unlink_absent h l)

pub total-unlink :
    (h : Handle) (l : List Handle) → 1 ≤ occ h l → total (unlink h l) + h.charge ≡ total l
unfolding occ unlink total
total-unlink h [] e = absurd (omega arith)
total-unlink h (d ∷ l) e = ground (arith, total-unlink h l)

pub total-append : (h : Handle) (l : List Handle) → total (l ++ h ∷ []) ≡ total l + h.charge
unfolding total
total-append h [] = omega arith
total-append h (d ∷ l) = omega (arith, total-append h l)

pub length-unlink :
    (h : Handle) (l : List Handle) → 1 ≤ occ h l → length (unlink h l) + 1 ≡ length l
unfolding occ unlink
length-unlink h [] e = absurd (omega arith)
length-unlink h (d ∷ l) e = ground (arith, length-unlink h l)
