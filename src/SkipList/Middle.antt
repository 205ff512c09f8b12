-- ===== src/SkipList/Middle.antt =====
-- leveldb/__detail/skip_list.h: a node put into the middle of the order.
use mathlib.Core.List.{map}
use simple_leveldb.Base.{ℕ, ◌≤◌, ◌<◌, ◌≡◌, ◌≢◌, refl, sym, ap, ◌∙◌, arith, List, [], ◌∷◌, ◌++◌, All}
use simple_leveldb.Slice.{Sign, less}
use simple_leveldb.SkipList.{update}
use simple_leveldb.SkipList.Levels.{
  Heights, at_level, Apart, at_level-append, at_level-cons, at_level-cons_low,
}
use simple_leveldb.SkipList.Order.{Sorted}

pub All-insert {κ} :
    (P : ℕ → Type κ) (lo : List ℕ) (x : ℕ) (hi : List ℕ)
    → All P (lo ++ hi)
    → P x
    → All P (lo ++ x ∷ hi)
All-insert P [] x hi a p = (p, a)
All-insert P (n ∷ lo) x hi a p = (a.0, All-insert P lo x hi a.1 p)

pub All-right {κ} : (P : ℕ → Type κ) (a b : List ℕ) → All P (a ++ b) → All P b
All-right P [] b h = h
All-right P (n ∷ a) b h = All-right P a b h.1

-- A predicate carried over to other nodes than `x`.
pub All-other {κ μ ν} :
    (P : ℕ → Type κ) (Q : ℕ → Type μ) (R : ℕ → Type ν) (ns : List ℕ)
    → ((n : ℕ) → R n → P n → Q n)
    → All R ns
    → All P ns
    → All Q ns
All-other P Q R [] f r a = tt
All-other P Q R (n ∷ ns) f r a = (f n r.0 a.0, All-other P Q R ns f r.1 a.1)

flip_apart : (x : ℕ) (ns : List ℕ) → All (λ n. x ≢ n) ns → All (λ n. n ≢ x) ns
flip_apart x ns a = All-other (λ n. x ≢ n) (λ n. n ≢ x) (λ n. x ≢ n) ns (λ n r p e. p (sym e)) a a

pub Apart-insert :
    (lo : List ℕ) (x : ℕ) (hi : List ℕ)
    → Apart (lo ++ hi)
    → All (λ n. x ≢ n) (lo ++ hi)
    → Apart (lo ++ x ∷ hi)
Apart-insert [] x hi a new = (new, a)
Apart-insert (n ∷ lo) x hi a new =
    (All-insert (λ m. n ≢ m) lo x hi a.0 (λ e. new.0 (sym e)), Apart-insert lo x hi a.1 new.1)

pub at_level-update :
    (tall : Heights) (x h l : ℕ) (ns : List ℕ)
    → All (λ n. x ≢ n) ns
    → at_level (update tall x h) l ns ≡ at_level tall l ns
unfolding at_level
at_level-update tall x h l [] a = refl
at_level-update tall x h l (n ∷ ns) a = ground (arith, at_level-update tall x h l ns a.1)

module _ (tall : Heights) (x h : ℕ) (lo hi : List ℕ) (new : All (λ n. x ≢ n) (lo ++ hi))
    (new_lo : All (λ n. x ≢ n) lo) (new_hi : All (λ n. x ≢ n) hi) where
  self : update tall x h x ≡ h
  self = ground arith

  -- The new node stands in the levels below its height.
  pub at_level-insert :
      (l : ℕ)
      → l < h
      → at_level (update tall x h) l (lo ++ x ∷ hi) ≡ at_level tall l lo ++ x ∷ at_level tall l hi
  at_level-insert l p =
      at_level-append (update tall x h) l lo (x ∷ hi)
      ∙ ap (λ (t : List ℕ). t ++ at_level (update tall x h) l (x ∷ hi))
          (at_level-update tall x h l lo new_lo)
      ∙ ap (λ (t : List ℕ). at_level tall l lo ++ t)
          (at_level-cons (update tall x h) l x hi (omega (arith, self))
            ∙ ap (◌∷◌ x) (at_level-update tall x h l hi new_hi))

  pub at_level-insert_low :
      (l : ℕ) → h ≤ l → at_level (update tall x h) l (lo ++ x ∷ hi) ≡ at_level tall l (lo ++ hi)
  at_level-insert_low l p =
      at_level-append (update tall x h) l lo (x ∷ hi)
      ∙ ap (λ (t : List ℕ). t ++ at_level (update tall x h) l (x ∷ hi))
          (at_level-update tall x h l lo new_lo)
      ∙ ap (λ (t : List ℕ). at_level tall l lo ++ t)
          (at_level-cons_low (update tall x h) l x hi (omega (arith, self))
            ∙ at_level-update tall x h l hi new_hi)
      ∙ sym (at_level-append tall l lo hi)

module _ {K : Type 0} (compare : K → K → Sign) where
  pub Sorted-insert :
      (key : ℕ → K) (lo : List ℕ) (x : ℕ) (hi : List ℕ)
      → Sorted compare key (lo ++ hi)
      → All (λ n. compare (key n) (key x) ≡ less) lo
      → All (λ n. compare (key x) (key n) ≡ less) hi
      → Sorted compare key (lo ++ x ∷ hi)
  Sorted-insert key [] x hi s a b = (b, s)
  Sorted-insert key (n ∷ lo) x hi s a b = (
    All-insert (λ m. compare (key n) (key m) ≡ less) lo x hi s.0 a.0,
    Sorted-insert key lo x hi s.1 a.1 b,
  )

  -- A key written to another node leaves the order.
  pub Sorted-update :
      (key : ℕ → K) (x : ℕ) (k : K) (ns : List ℕ)
      → All (λ n. x ≢ n) ns
      → Sorted compare key ns
      → Sorted compare (update key x k) ns
  Sorted-update key x k [] new s = tt
  Sorted-update key x k (n ∷ ns) new s = (
    All-other (λ m. compare (key n) (key m) ≡ less)
        (λ m. compare (update key x k n) (update key x k m) ≡ less) (λ m. x ≢ m) ns
        (λ m r p. ground (arith, new.0)) new.1 s.0,
    Sorted-update key x k ns new.1 s.1,
  )

pub map-update :
    {K : Type 0} (key : ℕ → K) (x : ℕ) (k : K) (ns : List ℕ)
    → All (λ n. x ≢ n) ns
    → map (update key x k) ns ≡ map key ns
map-update key x k [] new = refl
map-update key x k (n ∷ ns) new = ground (arith, map-update key x k ns new.1)

pub map-insert :
    {K : Type 0} (key : ℕ → K) (x : ℕ) (k : K) (lo hi : List ℕ)
    → All (λ n. x ≢ n) lo
    → All (λ n. x ≢ n) hi
    → map (update key x k) (lo ++ x ∷ hi) ≡ map key lo ++ k ∷ map key hi
map-insert key x k [] hi a b = ground (arith, map-update key x k hi b)
map-insert key x k (n ∷ lo) hi a b = ground (arith, map-insert key x k lo hi a.1 b)
