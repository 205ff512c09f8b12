-- ===== src/Crc32c/Extend/Whole.antt =====
-- crc32c.cc: the loops of `Extend`, and the bytes at the ends.
use simple_leveldb.Base.{
  ℕ, zero, suc, ◌-◌, ◌≤◌, arith, Bool-cases, leb, leb→le, bit_xor, IsByte, IsU32, ◌≡◌, refl, sym,
  subst, ap, ◌∙◌, Bytes, All, take, drop, length, length-drop, drop-drop, All-drop,
  take-append-drop, inl, inr,
}
use simple_leveldb.Base.Xor.{bit_xor-lt, xor_comm}
use simple_leveldb.Crc32c.Extend.{
  Partial, crc32_xor, steps1, read_uint32, combine, word_round, words, load, step16, swaths,
  extend_aligned, extend, before_aligned,
}
use simple_leveldb.Crc32c.Extend.Polynomial.{advance}
use simple_leveldb.Crc32c.Extend.Reference.{extend_bytewise, steps1-append, steps1-IsU32}
use simple_leveldb.Crc32c.Extend.Rounds.{
  remaining, IsBounded, combined, combine-combined, steps1_word_at, read_uint32-IsU32,
  word_round-remaining, word_round-IsBounded,
}

-- A step from one state to another that keeps the bounds and what remains.
abbrev Keeps : Partial → Partial → Type 0
Keeps s s' = IsBounded s' × (remaining s' ≡ remaining s)

Keeps-trans : (s t u : Partial) → Keeps s t → Keeps t u → Keeps s u
Keeps-trans s t u (b, e) (b', e') = (b', e' ∙ e)

word_round-Keeps : (s : Partial) → 4 ≤ length s.left → IsBounded s → Keeps s (word_round s)
word_round-Keeps s h k = (word_round-IsBounded s h k, word_round-remaining s h k)

words-Keeps : (fuel : ℕ) (s : Partial) → IsBounded s → Keeps s (words fuel s)
unfolding words
words-Keeps zero s k = (k, refl)
words-Keeps (suc fuel) s k = elim (Bool-cases (leb 4 (length s.left))) [
  | inl e ↦
      let here = word_round-Keeps s (leb→le _ _ e) k in
      rw e (Keeps-trans s (word_round s) _ here (words-Keeps fuel (word_round s) here.0))
  | inr e ↦ rw e (k, refl)
]

left_after : (s : Partial) → (word_round s).left ≡ drop 4 s.left
unfolding word_round
left_after s = refl

-- A swath is four words, one for each stride.
step16-word_round : (s : Partial) → step16 s ≡ word_round (word_round (word_round (word_round s)))
unfolding step16 word_round
step16-word_round s = rw (drop-drop 4 4 s.left, drop-drop 4 8 s.left, drop-drop 4 12 s.left) refl

step16-Keeps : (s : Partial) → 16 ≤ length s.left → IsBounded s → Keeps s (step16 s)
step16-Keeps s h k = subst (Keeps s) (sym (step16-word_round s)) (
    Keeps-trans s s₃ (word_round s₃) (Keeps-trans s s₂ s₃ (Keeps-trans s s₁ s₂ k₁ k₂) k₃)
      (word_round-Keeps s₃ (omega (arith, l₁, l₂, l₃)) k₃.0))
  where
    s₁ : Partial
    s₁ = word_round s

    s₂ : Partial
    s₂ = word_round s₁

    s₃ : Partial
    s₃ = word_round s₂

    shorter : (s : Partial) → length (word_round s).left ≡ length s.left - 4
    shorter s = ap length (left_after s) ∙ length-drop 4 s.left

    l₁ : length s₁.left ≡ length s.left - 4
    l₁ = shorter s

    l₂ : length s₂.left ≡ length s₁.left - 4
    l₂ = shorter s₁

    l₃ : length s₃.left ≡ length s₂.left - 4
    l₃ = shorter s₂

    k₁ : Keeps s s₁
    k₁ = word_round-Keeps s (omega arith) k

    k₂ : Keeps s₁ s₂
    k₂ = word_round-Keeps s₁ (omega (arith, l₁)) k₁.0

    k₃ : Keeps s₂ s₃
    k₃ = word_round-Keeps s₂ (omega (arith, l₁, l₂)) k₂.0

swaths-Keeps : (fuel : ℕ) (s : Partial) → IsBounded s → Keeps s (swaths fuel s)
unfolding swaths
swaths-Keeps zero s k = (k, refl)
swaths-Keeps (suc fuel) s k = elim (Bool-cases (leb 16 (length s.left))) [
  | inl e ↦
      let here = step16-Keeps s (leb→le _ _ e) k in
      rw e (Keeps-trans s (step16 s) _ here (swaths-Keeps fuel (step16 s) here.0))
  | inr e ↦ rw e (k, refl)
]

-- The first 16 bytes as four strides.
load-remaining :
    (l : ℕ) (p : Bytes) → 16 ≤ length p → All IsByte p → remaining (load l p) ≡ steps1 l p
unfolding load
load-remaining l p h k =
    ap (λ t. steps1 t (drop 16 p)) loaded
    ∙ sym (
        steps1_word_at l p (omega arith) k
        ∙ steps1_word_at l₁ (drop 4 p) (omega (arith, length-drop 4 p)) (All-drop IsByte 4 p k)
        ∙ ap (steps1 l₂) (drop-drop 4 4 p)
        ∙ steps1_word_at l₂ (drop 8 p) (omega (arith, length-drop 8 p)) (All-drop IsByte 8 p k)
        ∙ ap (steps1 l₃) (drop-drop 4 8 p)
        ∙ steps1_word_at l₃ (drop 12 p) (omega (arith, length-drop 12 p)) (All-drop IsByte 12 p k)
        ∙ ap (steps1 l₄) (drop-drop 4 12 p))
  where
    l₁ : ℕ
    l₁ = advance 32 (bit_xor l (read_uint32 p))

    l₂ : ℕ
    l₂ = advance 32 (bit_xor l₁ (read_uint32 (drop 4 p)))

    l₃ : ℕ
    l₃ = advance 32 (bit_xor l₂ (read_uint32 (drop 8 p)))

    l₄ : ℕ
    l₄ = advance 32 (bit_xor l₃ (read_uint32 (drop 12 p)))

    loaded : combine (load l p) ≡ l₄
    loaded =
        combine-combined (load l p)
        ∙ ap (λ t. combined t w₁ w₂ w₃) (xor_comm (read_uint32 p) l)
        ∙ ap (λ t. advance 32 (bit_xor w₃ (advance 32 (bit_xor w₂ (advance 32 t)))))
            (xor_comm w₁ l₁)
        ∙ ap (λ t. advance 32 (bit_xor w₃ (advance 32 t))) (xor_comm w₂ l₂)
        ∙ ap (advance 32) (xor_comm w₃ l₃)
      where
        w₁ : ℕ
        w₁ = read_uint32 (drop 4 p)

        w₂ : ℕ
        w₂ = read_uint32 (drop 8 p)

        w₃ : ℕ
        w₃ = read_uint32 (drop 12 p)

load-IsBounded : (l : ℕ) (p : Bytes) → 16 ≤ length p → IsU32 l → All IsByte p → IsBounded (load l p)
unfolding load
load-IsBounded l p h u k = (
  bit_xor-lt 32 (read_uint32 p) l (read_uint32-IsU32 p (omega arith) k) u,
  word_at 4 (omega arith),
  word_at 8 (omega arith),
  word_at 12 (omega arith),
  All-drop IsByte 16 p k,
)
  where
    word_at : (n : ℕ) → n ≤ 12 → IsU32 (read_uint32 (drop n p))
    word_at n m =
        read_uint32-IsU32 (drop n p) (omega (arith, length-drop n p)) (All-drop IsByte n p k)

extend_aligned-steps1 :
    (l : ℕ) (p : Bytes) → IsU32 l → All IsByte p → extend_aligned l p ≡ steps1 l p
unfolding extend_aligned
extend_aligned-steps1 l p u k = elim (Bool-cases (leb 16 (length p))) [
  | inl e ↦
      let long = leb→le _ _ e in
      let bounded = load-IsBounded l p long u k in
      let swept = swaths-Keeps (length p) (load l p) bounded in
      let worded = words-Keeps (length p) (swaths (length p) (load l p)) swept.0 in
      rw e (worded.1 ∙ swept.1 ∙ load-remaining l p long k)
  | inr e ↦ rw e refl
]

-- On bytes at any address, `Extend` with its alignment loop, its four strides of words and its final
-- combination gives the checksum that goes on byte by byte with the first table alone.
pub extend-eq-extend_bytewise :
    (address crc : ℕ) (data' : Bytes)
    → IsU32 crc
    → All IsByte data'
    → extend address crc data' ≡ extend_bytewise crc data'
unfolding extend extend_bytewise
extend-eq-extend_bytewise address crc data' u k =
    ap (λ t. bit_xor t crc32_xor)
      (elim (Bool-cases (leb x (length data'))) [
        | inl e ↦ rw e (
            extend_aligned-steps1 (steps1 l (take x data')) (drop x data')
              (steps1-IsU32 (take x data') l fits) (All-drop IsByte x data' k)
            ∙ sym (steps1-append l (take x data') (drop x data'))
            ∙ ap (steps1 l) (take-append-drop x data'))
        | inr e ↦ rw e (extend_aligned-steps1 l data' fits k)
      ])
  where
    x : ℕ
    x = before_aligned address

    l : ℕ
    l = bit_xor crc crc32_xor

    fits : IsU32 l
    fits = bit_xor-lt 32 crc crc32_xor u (omega arith)
