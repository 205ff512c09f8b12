-- ===== src/SkipList/Levels.antt =====
-- leveldb/__detail/skip_list.h: the levels of the list, as the nodes in order that are tall enough.
use simple_leveldb.Base.{
  ℕ, ◌≤◌, ◌<◌, ◌≡◌, ◌≢◌, ◌⊎◌, inl, inr, refl, ap, arith, Option, none, some, List, [], ◌∷◌, ◌++◌,
  All, ltb, if◌then◌else◌, Bool-cases,
}

-- The nodes of a level: those that are taller. `tall` gives the heights.
abbrev pub Heights : Type 0
Heights = ℕ → ℕ

unfoldable pub at_level : Heights → ℕ → List ℕ → List ℕ
at_level tall l [] = []
at_level tall l (n ∷ ns) = if ltb l (tall n) then n ∷ at_level tall l ns else at_level tall l ns

-- From node `x` the links of a level run through the nodes of a list and end there.
abbrev pub Linked : (ℕ → ℕ → Option ℕ) → ℕ → ℕ → List ℕ → Type 0
Linked next l x [] = next x l ≡ none
Linked next l x (n ∷ ns) = (next x l ≡ some n) × Linked next l n ns

-- The last node of a list, or `x` before an empty one.
abbrev pub last_from : ℕ → List ℕ → ℕ
last_from x [] = x
last_from x (n ∷ ns) = last_from n ns

abbrev pub first : List ℕ → Option ℕ
first [] = none
first (n ∷ ns) = some n

-- No node stands twice.
abbrev pub Apart : List ℕ → Type 0
Apart [] = Unit
Apart (n ∷ ns) = All (λ m. n ≢ m) ns × Apart ns

pub at_level-append :
    (tall : Heights) (l : ℕ) (a b : List ℕ)
    → at_level tall l (a ++ b) ≡ at_level tall l a ++ at_level tall l b
unfolding at_level
at_level-append tall l [] b = refl
at_level-append tall l (n ∷ a) b = elim (Bool-cases (ltb l (tall n))) [
  | inl high ↦ rw high (ap (◌∷◌ n) (at_level-append tall l a b))
  | inr low ↦ rw low (at_level-append tall l a b)
]

pub at_level-cons :
    (tall : Heights) (l n : ℕ) (ns : List ℕ)
    → l < tall n
    → at_level tall l (n ∷ ns) ≡ n ∷ at_level tall l ns
unfolding at_level
at_level-cons tall l n ns h = ground arith

pub at_level-cons_low :
    (tall : Heights) (l n : ℕ) (ns : List ℕ)
    → tall n ≤ l
    → at_level tall l (n ∷ ns) ≡ at_level tall l ns
unfolding at_level
at_level-cons_low tall l n ns h = ground arith

-- The first node of a level, with the lower ones before it.
pub at_level_first :
    (tall : Heights) (l : ℕ) (ns : List ℕ)
    → (at_level tall l ns ≡ [])
      ⊎ ((skip : List ℕ) × (n : ℕ) × (rest : List ℕ) × (ns ≡ skip ++ n ∷ rest)
          × (l < tall n)
          × (at_level tall l ns ≡ n ∷ at_level tall l rest))
unfolding at_level
at_level_first tall l [] = inl refl
at_level_first tall l (m ∷ ns) = elim (Bool-cases (ltb l (tall m))) [
  | inl high ↦ inr ([], m, ns, refl, ground arith, rw high refl)
  | inr low ↦ elim (at_level_first tall l ns) [
    | inl none' ↦ inl (rw low none')
    | inr (skip, n, rest, e, h, f) ↦ inr (m ∷ skip, n, rest, ap (◌∷◌ m) e, h, rw low f)
  ]
]

pub at_level_zero :
    (tall : Heights) (ns : List ℕ) → All (λ n. 1 ≤ tall n) ns → at_level tall 0 ns ≡ ns
unfolding at_level
at_level_zero tall [] a = refl
at_level_zero tall (n ∷ ns) a = ground (arith, at_level_zero tall ns)

pub at_level_above :
    (tall : Heights) (l : ℕ) (ns : List ℕ) → All (λ n. tall n ≤ l) ns → at_level tall l ns ≡ []
unfolding at_level
at_level_above tall l [] a = refl
at_level_above tall l (n ∷ ns) a = ground (arith, at_level_above tall l ns)

pub All-at_level {κ} :
    (P : ℕ → Type κ) (tall : Heights) (l : ℕ) (ns : List ℕ) → All P ns → All P (at_level tall l ns)
unfolding at_level
All-at_level P tall l [] a = tt
All-at_level P tall l (n ∷ ns) a = elim (Bool-cases (ltb l (tall n))) [
  | inl high ↦ rw high (a.0, All-at_level P tall l ns a.1)
  | inr low ↦ rw low (All-at_level P tall l ns a.1)
]

pub Apart-at_level : (tall : Heights) (l : ℕ) (ns : List ℕ) → Apart ns → Apart (at_level tall l ns)
unfolding at_level
Apart-at_level tall l [] a = tt
Apart-at_level tall l (n ∷ ns) a = elim (Bool-cases (ltb l (tall n))) [
  | inl high ↦ rw high (All-at_level (λ m. n ≢ m) tall l ns a.0, Apart-at_level tall l ns a.1)
  | inr low ↦ rw low (Apart-at_level tall l ns a.1)
]

pub Linked-first :
    (next : ℕ → ℕ → Option ℕ) (l x : ℕ) (ns : List ℕ) → Linked next l x ns → next x l ≡ first ns
Linked-first next l x [] h = h
Linked-first next l x (n ∷ ns) h = h.0

-- From a node of a list the links run through what follows it.
pub Linked-after :
    (next : ℕ → ℕ → Option ℕ) (l x : ℕ) (a : List ℕ) (n : ℕ) (b : List ℕ)
    → Linked next l x (a ++ n ∷ b)
    → Linked next l n b
Linked-after next l x [] n b h = h.1
Linked-after next l x (m ∷ a) n b h = Linked-after next l m a n b h.1

pub last_from-append :
    (x : ℕ) (a : List ℕ) (n : ℕ) (b : List ℕ) → last_from x (a ++ n ∷ b) ≡ last_from n b
last_from-append x [] n b = refl
last_from-append x (m ∷ a) n b = last_from-append m a n b
