-- ===== src/SkipList/Search.antt =====
-- leveldb/__detail/skip_list.h: the loop of `find_greater_or_equal` along the levels.
use simple_leveldb.Base.{
  ℕ, zero, suc, ◌+◌, ◌-◌, ◌≤◌, ◌<◌, ◌≡◌, ◌⊎◌, inl, inr, refl, sym, ap, ◌∙◌, subst, arith, true,
  false, Option, some, List, [], ◌∷◌, ◌++◌, append_assoc, All, length, length-append, ltb, leb,
  ◌==◌, Bool-cases,
}
use simple_leveldb.Slice.{Sign}
use simple_leveldb.SkipList.{SkipList, is_less, update, key_is_after_node, find_loop}
use simple_leveldb.SkipList.Levels.{
  Heights, at_level, Linked, last_from, first, at_level-append, at_level-cons, at_level_first,
  at_level_zero, Linked-first, Linked-after, last_from-append,
}

pub All-middle {κ} :
    (P : ℕ → Type κ) (a : List ℕ) (n : ℕ) (b : List ℕ) → All P (a ++ n ∷ b) → P n × All P b
All-middle P [] n b h = h
All-middle P (m ∷ a) n b h = All-middle P a n b h.1

module _ {K : Type 0} (compare : K → K → Sign) (s : SkipList K) (key : K) where
  step_ahead :
      (f x level : ℕ) (prev : ℕ → ℕ) (n : ℕ)
      → s.next x level ≡ some n
      → is_less (compare (s.key n) key) ≡ true
      → find_loop compare (suc f) key x level prev s ≡ find_loop compare f key n level prev s
  unfolding find_loop key_is_after_node
  step_ahead f x level prev n e h = rw (e, h) refl

  step_end :
      (f x : ℕ) (prev : ℕ → ℕ)
      → key_is_after_node compare key (s.next x 0) s ≡ false
      → find_loop compare (suc f) key x 0 prev s ≡ some (s.next x 0, update prev 0 x)
  unfolding find_loop
  step_end f x prev h = rw h refl

  step_down :
      (f x level : ℕ) (prev : ℕ → ℕ)
      → key_is_after_node compare key (s.next x (suc level)) s ≡ false
      → find_loop compare (suc f) key x (suc level) prev s
        ≡ find_loop compare f key x level (update prev (suc level) x) s
  unfolding find_loop
  step_down f x level prev h =
      let inner : (suc level == 0) ≡ false = ground arith in
      let below : suc level - 1 ≡ level = omega arith in rw (h, inner, below) refl

  abbrev pub Low : List ℕ → Type 0
  Low = All (λ n. is_less (compare (s.key n) key) ≡ true)

  abbrev pub High : List ℕ → Type 0
  High = All (λ n. is_less (compare (s.key n) key) ≡ false)

  pub High-first :
      (tall : Heights) (l : ℕ) (hi : List ℕ)
      → High hi
      → key_is_after_node compare key (first (at_level tall l hi)) s ≡ false
  unfolding at_level key_is_after_node
  High-first tall l [] h = refl
  High-first tall l (n ∷ hi) h = elim (Bool-cases (ltb l (tall n))) [
    | inl high ↦ rw high h.0
    | inr low ↦ rw low (High-first tall l hi h.1)
  ]

  module _ (tall : Heights) (lo hi : List ℕ) (highs : High hi)
      (hi_tall : All (λ n. 1 ≤ tall n) hi) where
    -- Where the search stands: from `x` the levels that are left run through `mid` and `hi`, and
    -- the last low node of each is the one that a search of `mid` from `x` ends at.
    pub record At (level x : ℕ) (mid : List ℕ) : Type 0 where
      pub linked : (l : ℕ) → l ≤ level → Linked s.next l x (at_level tall l (mid ++ hi))
      pub last :
          (l : ℕ) → l ≤ level → last_from 0 (at_level tall l lo) ≡ last_from x (at_level tall l mid)
      pub lows : Low mid
      pub mid_tall : All (λ n. 1 ≤ tall n) mid

    -- A step along the level.
    At-ahead :
        (level x : ℕ) (skip : List ℕ) (n : ℕ) (rest : List ℕ)
        → level < tall n
        → At level x (skip ++ n ∷ rest)
        → At level n rest
    At-ahead level x skip n rest h a = record {
      linked = λ l p.
          Linked-after s.next l x (at_level tall l skip) n (at_level tall l (rest ++ hi))
            (rw (← split l p) (a.linked l p));
      last = λ l p.
          a.last l p
          ∙ ap (last_from x) (part l p)
          ∙ last_from-append x (at_level tall l skip) n (at_level tall l rest);
      lows = (All-middle (λ m. is_less (compare (s.key m) key) ≡ true) skip n rest a.lows).1;
      mid_tall = (All-middle (λ m. 1 ≤ tall m) skip n rest a.mid_tall).1;
    }
      where
        part :
            (l : ℕ)
            → l ≤ level
            → at_level tall l (skip ++ n ∷ rest) ≡ at_level tall l skip ++ n ∷ at_level tall l rest
        part l p =
            at_level-append tall l skip (n ∷ rest)
            ∙ ap (λ (t : List ℕ). at_level tall l skip ++ t)
                (at_level-cons tall l n rest (omega arith))

        split :
            (l : ℕ)
            → l ≤ level
            → at_level tall l ((skip ++ n ∷ rest) ++ hi)
              ≡ at_level tall l skip ++ n ∷ at_level tall l (rest ++ hi)
        split l p =
            ap (at_level tall l) (append_assoc skip (n ∷ rest) hi)
            ∙ at_level-append tall l skip (n ∷ (rest ++ hi))
            ∙ ap (λ (t : List ℕ). at_level tall l skip ++ t)
                (at_level-cons tall l n (rest ++ hi) (omega arith))

    -- Where a level has no low node left, the search goes down.
    next_first :
        (level x : ℕ) (mid : List ℕ)
        → At level x mid
        → at_level tall level mid ≡ []
        → s.next x level ≡ first (at_level tall level hi)
    next_first level x mid a e =
        Linked-first s.next level x (at_level tall level (mid ++ hi)) (a.linked level (omega arith))
        ∙ ap first (at_level-append tall level mid hi)
        ∙ ap (λ (t : List ℕ). first (t ++ at_level tall level hi)) e

    -- What the loop finds from `At`.
    abbrev pub Finds : ℕ → (ℕ → ℕ) → Option (Option ℕ × (ℕ → ℕ)) → Type 0
    Finds level prev r =
        (prev' : ℕ → ℕ) × (r ≡ some (first hi, prev'))
        × ((l : ℕ) → l ≤ level → prev' l ≡ last_from 0 (at_level tall l lo))
        × ((l : ℕ) → level < l → prev' l ≡ prev l)

    last_here :
        (level x : ℕ) (mid : List ℕ)
        → At level x mid
        → at_level tall level mid ≡ []
        → x ≡ last_from 0 (at_level tall level lo)
    last_here level x mid a e = sym (a.last level (omega arith) ∙ ap (last_from x) e)

    Finds-end :
        (f x : ℕ) (mid : List ℕ) (prev : ℕ → ℕ)
        → At 0 x mid
        → at_level tall 0 mid ≡ []
        → Finds 0 prev (find_loop compare (suc f) key x 0 prev s)
    Finds-end f x mid prev a e =
        let n = next_first 0 x mid a e in
        let here = last_here 0 x mid a e in
        (
          update prev 0 x,
          step_end f x prev (
                ap (λ (o : Option ℕ). key_is_after_node compare key o s) n
                ∙ High-first tall 0 hi highs)
              ∙ ap (λ (o : Option ℕ). some (o, update prev 0 x))
                  (n ∙ ap first (at_level_zero tall hi hi_tall)),
          λ l p. ground (arith, here, ap (λ (t : ℕ). at_level tall t lo) {x = l} {y = 0}),
          λ l p. ground arith,
        )

    Finds-down :
        (f level x : ℕ) (mid : List ℕ) (prev : ℕ → ℕ)
        → At (suc level) x mid
        → at_level tall (suc level) mid ≡ []
        → Finds level
            (update prev (suc level) x)
            (find_loop compare f key x level (update prev (suc level) x) s)
        → Finds (suc level) prev (find_loop compare (suc f) key x (suc level) prev s)
    Finds-down f level x mid prev a e (prev', r, below, above) =
        let n = next_first (suc level) x mid a e in
        let here = last_here (suc level) x mid a e in
        (
          prev',
          step_down f x level prev (
                ap (λ (o : Option ℕ). key_is_after_node compare key o s) n
                ∙ High-first tall (suc level) hi highs)
              ∙ r,
          λ l p. elim (Bool-cases (leb l level)) [
            | inl under ↦ below l (ground arith)
            | inr top ↦
                let e' : suc level ≡ l = ground arith in
                subst (λ (t : ℕ). prev' t ≡ last_from 0 (at_level tall t lo)) e'
                  (above (suc level) (omega arith) ∙ self ∙ here)
          ],
          λ l p. above l (omega arith) ∙ ground arith,
        )
      where
        self : update prev (suc level) x (suc level) ≡ x
        self = ground arith

    -- A round of the loop, by what is left of the level.
    find_round :
        (f level x : ℕ) (mid : List ℕ) (prev : ℕ → ℕ)
        → At level x mid
        → length mid + level < suc f
        → ((level' x' : ℕ) (mid' : List ℕ) (prev' : ℕ → ℕ)
            → At level' x' mid'
            → length mid' + level' < f
            → Finds level' prev' (find_loop compare f key x' level' prev' s))
        → (at_level tall level mid ≡ [])
          ⊎ ((skip : List ℕ) × (n : ℕ) × (rest : List ℕ) × (mid ≡ skip ++ n ∷ rest)
              × (level < tall n)
              × (at_level tall level mid ≡ n ∷ at_level tall level rest))
        → Finds level prev (find_loop compare (suc f) key x level prev s)
    find_round f zero x mid prev a h ih (inl e) = Finds-end f x mid prev a e
    find_round f (suc level) x mid prev a h ih (inl e) =
        Finds-down f level x mid prev a e
          (ih level x mid (update prev (suc level) x) lower (omega arith))
      where
        lower : At level x mid
        lower = record {
          linked = λ l p. a.linked l (omega arith);
          last = λ l p. a.last l (omega arith);
          lows = a.lows;
          mid_tall = a.mid_tall;
        }
    find_round f level x mid prev a h ih (inr (skip, n, rest, e, high, level_e)) =
        subst (Finds level prev) (sym (step_ahead f x level prev n next low))
          (ih level n rest prev (At-ahead level x skip n rest high split) (omega (arith, shorter)))
      where
        split : At level x (skip ++ n ∷ rest)
        split = subst (At level x) e a

        shorter : length mid ≡ length skip + suc (length rest)
        shorter = ap length e ∙ length-append skip (n ∷ rest)

        low : is_less (compare (s.key n) key) ≡ true
        low = (All-middle (λ m. is_less (compare (s.key m) key) ≡ true) skip n rest split.lows).0

        next : s.next x level ≡ some n
        next =
            Linked-first s.next level x (at_level tall level (mid ++ hi))
              (a.linked level (omega arith))
            ∙ ap first (at_level-append tall level mid hi)
            ∙ ap (λ (t : List ℕ). first (t ++ at_level tall level hi)) level_e

    -- With fuel for the low nodes that are left and the levels, the search ends at the first node
    -- that is not low, and `prev` gets the last low node of each level.
    pub find_loop_lem :
        (f level x : ℕ) (mid : List ℕ) (prev : ℕ → ℕ)
        → At level x mid
        → length mid + level < f
        → Finds level prev (find_loop compare f key x level prev s)
    find_loop_lem zero level x mid prev a h = absurd (omega arith)
    find_loop_lem (suc f) level x mid prev a h =
        find_round f level x mid prev a h
          (λ level' x' mid' prev' a' h'. find_loop_lem f level' x' mid' prev' a' h')
          (at_level_first tall level mid)
