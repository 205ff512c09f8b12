-- ===== src/SkipList/Links.antt =====
-- leveldb/__detail/skip_list.h: the links that `insert` writes, level by level.
use simple_leveldb.Base.{
  ℕ, zero, suc, ◌+◌, ◌≤◌, ◌<◌, ◌≡◌, ◌≢◌, inl, inr, refl, sym, ◌∙◌, subst, arith, Option, some, List,
  [], ◌∷◌, ◌++◌, All, ◌==◌, Bool-cases,
}
use simple_leveldb.SkipList.{SkipList, set_next, link_level, link_loop}
use simple_leveldb.SkipList.Levels.{Linked, last_from, Apart}

pub last_from-mem : (a n : ℕ) (ns : List ℕ) → All (λ m. a ≢ m) (n ∷ ns) → a ≢ last_from n ns
last_from-mem a n [] h = h.0
last_from-mem a n (m ∷ ns) h = last_from-mem a m ns h.1

pub All-left {κ} : (P : ℕ → Type κ) (a b : List ℕ) → All P (a ++ b) → All P a
All-left P [] b h = tt
All-left P (n ∷ a) b h = (h.0, All-left P a b h.1)

module _ (next next' : ℕ → ℕ → Option ℕ) (l : ℕ) where
  pub Linked-frame :
      (x : ℕ) (ns : List ℕ)
      → next' x l ≡ next x l
      → All (λ n. next' n l ≡ next n l) ns
      → Linked next l x ns
      → Linked next' l x ns
  Linked-frame x [] e a h = e ∙ h
  Linked-frame x (n ∷ ns) e a h = (e ∙ h.0, Linked-frame n ns a.0 a.1 h.1)

  -- Links that stay run on, behind a node that points elsewhere now.
  same_links :
      (p x : ℕ) (ns : List ℕ)
      → ((n : ℕ) → n ≢ p → n ≢ x → next' n l ≡ next n l)
      → All (λ n. p ≢ n) ns
      → All (λ n. x ≢ n) ns
      → All (λ n. next' n l ≡ next n l) ns
  same_links p x [] f a b = tt
  same_links p x (n ∷ ns) f a b =
      (f n (λ e. a.0 (sym e)) (λ e. b.0 (sym e)), same_links p x ns f a.1 b.1)

  Linked-jump :
      (a x : ℕ) (ns : List ℕ)
      → next' x l ≡ next a l
      → All (λ n. next' n l ≡ next n l) ns
      → Linked next l a ns
      → Linked next' l x ns
  Linked-jump a x [] e h k = e ∙ k
  Linked-jump a x (n ∷ ns) e h k = (e ∙ k.0, Linked-frame n ns h.0 h.1 k.1)

  -- A node is put in behind the last node of the first part.
  pub Linked-insert :
      (a x : ℕ) (lo hi : List ℕ)
      → next' (last_from a lo) l ≡ some x
      → next' x l ≡ next (last_from a lo) l
      → ((n : ℕ) → n ≢ last_from a lo → n ≢ x → next' n l ≡ next n l)
      → Apart (a ∷ lo ++ hi)
      → All (λ n. x ≢ n) (a ∷ lo ++ hi)
      → Linked next l a (lo ++ hi)
      → Linked next' l a (lo ++ x ∷ hi)
  Linked-insert a x [] hi to on rest apart new h =
      (to, Linked-jump a x hi on (same_links a x hi rest apart.0 new.1) h)
  Linked-insert a x (n ∷ lo) hi to on rest apart new h = (
    rest a (last_from-mem a n lo (apart.0.0, All-left (λ m. a ≢ m) lo hi apart.0.1))
          (λ e. new.0 (sym e))
        ∙ h.0,
    Linked-insert n x lo hi to on rest apart.1 new.1 h.1,
  )

module _ {K : Type 0} (x : ℕ) (prev : ℕ → ℕ) where
  -- What the loop has written between two levels.
  pub record Links (n i : ℕ) (s s' : SkipList K) : Type 0 where
    pub to : (l : ℕ) → i ≤ l → l < i + n → s'.next (prev l) l ≡ some x
    pub on : (l : ℕ) → i ≤ l → l < i + n → s'.next x l ≡ s.next (prev l) l
    pub rest : (l : ℕ) → i ≤ l → l < i + n → (y : ℕ) → y ≢ prev l → y ≢ x → s'.next y l ≡ s.next y l
    pub below : (l : ℕ) → l < i → (y : ℕ) → s'.next y l ≡ s.next y l
    pub above : (l : ℕ) → i + n ≤ l → (y : ℕ) → s'.next y l ≡ s.next y l
    pub same_key : s'.key ≡ s.key
    pub same_height : s'.max_height ≡ s.max_height
    pub same_seed : s'.seed ≡ s.seed

  module _ (i : ℕ) (s : SkipList K) where
    level_to : (link_level x (prev i) i s).next (prev i) i ≡ some x
    unfolding link_level set_next
    level_to = ground arith

    level_on : x ≢ prev i → (link_level x (prev i) i s).next x i ≡ s.next (prev i) i
    unfolding link_level set_next
    level_on h = ground arith

    level_rest : (y : ℕ) → y ≢ prev i → y ≢ x → (link_level x (prev i) i s).next y i ≡ s.next y i
    unfolding link_level set_next
    level_rest y p q = ground arith

    level_other : (l y : ℕ) → l ≢ i → (link_level x (prev i) i s).next y l ≡ s.next y l
    unfolding link_level set_next
    level_other l y h = ground arith

  pub link_loop_lem :
      (n i : ℕ) (s : SkipList K)
      → ((l : ℕ) → i ≤ l → l < i + n → x ≢ prev l)
      → Links n i s (link_loop n i x prev s)
  unfolding link_loop
  link_loop_lem zero i s h = record {
    to = λ l p q. absurd (omega arith);
    on = λ l p q. absurd (omega arith);
    rest = λ l p q. absurd (omega arith);
    below = λ l p y. refl;
    above = λ l p y. refl;
    same_key = refl;
    same_height = refl;
    same_seed = refl;
  }
  link_loop_lem (suc n) i s h =
      let r = link_loop n (i + 1) x prev (link_level x (prev i) i s) in
      let t =
        link_loop_lem n (i + 1) (link_level x (prev i) i s)
          (λ l p q. h l (omega arith) (omega arith)) in
      record {
        to = λ l p q. elim (Bool-cases (l == i)) [
          | inl here ↦
              let e : i ≡ l = ground arith in
              subst (λ (k : ℕ). r.next (prev k) k ≡ some x) e
                (t.below i (omega arith) (prev i) ∙ level_to i s)
          | inr later ↦ t.to l (ground arith) (omega arith)
        ];
        on = λ l p q. elim (Bool-cases (l == i)) [
          | inl here ↦
              let e : i ≡ l = ground arith in
              subst (λ (k : ℕ). r.next x k ≡ s.next (prev k) k) e
                (t.below i (omega arith) x ∙ level_on i s (h i (omega arith) (omega arith)))
          | inr later ↦
              t.on l (ground arith) (omega arith)
              ∙ level_other i s l (prev l) (λ e. absurd (ground arith))
        ];
        rest = λ l p q y a b. elim (Bool-cases (l == i)) [
          | inl here ↦
              let e : l ≡ i = ground arith in
              subst (λ (k : ℕ). (y ≢ prev k) → r.next y k ≡ s.next y k) (sym e)
                (λ a'. t.below i (omega arith) y ∙ level_rest i s y a' b) a
          | inr later ↦
              t.rest l (ground arith) (omega arith) y a b
              ∙ level_other i s l y (λ e. absurd (ground arith))
        ];
        below =
            λ l p y. t.below l (omega arith) y ∙ level_other i s l y (λ e. absurd (omega arith));
        above =
            λ l p y. t.above l (omega arith) y ∙ level_other i s l y (λ e. absurd (omega arith));
        same_key = t.same_key ∙ unfold link_level set_next in refl;
        same_height = t.same_height ∙ unfold link_level set_next in refl;
        same_seed = t.same_seed ∙ unfold link_level set_next in refl;
      }
