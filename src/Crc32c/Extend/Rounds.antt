-- ===== src/Crc32c/Extend/Rounds.antt =====
-- crc32c.cc: one round of the strides.
use simple_leveldb.Base.{
  ℕ, ◌≤◌, arith, bit_xor, IsByte, IsU32, ◌≡◌, sym, ap, ◌∙◌, [], ◌∷◌, Bytes, All, drop, length,
  All-drop,
}
use simple_leveldb.Base.Xor.{bit_xor-lt, xor_comm, xor_assoc, xor_zero}
use simple_leveldb.Crc32c.Extend.{Partial, step4w, steps1, read_uint32, combine, word_round}
use simple_leveldb.Crc32c.Extend.Polynomial.{advance, advance-add, advance-xor, advance-IsU32}
use simple_leveldb.Crc32c.Extend.Words.{step4-advance, steps1-word, step4w-advance, read_uint32-sum}

-- What is left of the checksum.
abbrev pub remaining : Partial → ℕ
remaining s = steps1 (combine s) s.left

abbrev pub IsBounded : Partial → Type 0
IsBounded s = IsU32 s.crc0 × IsU32 s.crc1 × IsU32 s.crc2 × IsU32 s.crc3 × All IsByte s.left

pull :
    (x p q : ℕ)
    → advance 32 (bit_xor x (bit_xor p q)) ≡ bit_xor (advance 32 (bit_xor x p)) (advance 32 q)
pull x p q = ap (advance 32) (sym (xor_assoc x p q)) ∙ advance-xor 32 (bit_xor x p) q

-- The strides as one number.
abbrev pub combined : (c0 c1 c2 c3 : ℕ) → ℕ
combined c0 c1 c2 c3 =
    advance 32 (bit_xor c3 (advance 32 (bit_xor c2 (advance 32 (bit_xor c1 (advance 32 c0))))))

pub combine-combined : (s : Partial) → combine s ≡ combined s.crc0 s.crc1 s.crc2 s.crc3
unfolding combine
combine-combined s =
    ap (λ t. step4w (step4w (step4w t s.crc1) s.crc2) s.crc3)
      (step4w-advance 0 s.crc0 ∙ ap (advance 32) (xor_comm s.crc0 0 ∙ xor_zero s.crc0))
    ∙ ap (λ t. step4w (step4w t s.crc2) s.crc3) (step4w-advance _ s.crc1)
    ∙ ap (λ t. step4w t s.crc3) (step4w-advance _ s.crc2)
    ∙ step4w-advance _ s.crc3

four_advances : (x : ℕ) → advance 32 (advance 32 (advance 32 (advance 32 x))) ≡ advance 128 x
four_advances x = sym (
    advance-add 96 32 x
    ∙ ap (advance 32) (advance-add 64 32 x)
    ∙ ap (λ t. advance 32 (advance 32 t)) (advance-add 32 32 x))

-- The oldest stride taken out.
combined-split :
    (c0 c1 c2 c3 : ℕ)
    → combined c0 c1 c2 c3
      ≡ bit_xor (advance 32 (bit_xor c3 (advance 32 (bit_xor c2 (advance 32 c1))))) (advance 128 c0)
combined-split c0 c1 c2 c3 =
    ap (λ t. advance 32 (bit_xor c3 (advance 32 (bit_xor c2 t))))
      (advance-xor 32 c1 (advance 32 c0))
    ∙ ap (λ t. advance 32 (bit_xor c3 t)) (pull c2 (advance 32 c1) (advance 32 (advance 32 c0)))
    ∙ pull c3 (advance 32 (bit_xor c2 (advance 32 c1))) (advance 32 (advance 32 (advance 32 c0)))
    ∙ ap (bit_xor (advance 32 (bit_xor c3 (advance 32 (bit_xor c2 (advance 32 c1))))))
        (four_advances c0)

-- Four bytes at the front are a word.
pub steps1_word_at :
    (l : ℕ) (p : Bytes)
    → 4 ≤ length p
    → All IsByte p
    → steps1 l p ≡ steps1 (advance 32 (bit_xor l (read_uint32 p))) (drop 4 p)
steps1_word_at l (a ∷ b ∷ c ∷ d ∷ rest) h k =
    steps1-word l a b c d rest (k.0, (k.1.0, (k.1.1.0, (k.1.1.1.0, tt))))
steps1_word_at l [] h k = absurd (omega arith)
steps1_word_at l (a ∷ []) h k = absurd (omega arith)
steps1_word_at l (a ∷ b ∷ []) h k = absurd (omega arith)
steps1_word_at l (a ∷ b ∷ c ∷ []) h k = absurd (omega arith)

pub read_uint32-IsU32 : (p : Bytes) → 4 ≤ length p → All IsByte p → IsU32 (read_uint32 p)
read_uint32-IsU32 (a ∷ b ∷ c ∷ d ∷ rest) h (ka, (kb, (kc, (kd, k)))) =
    omega (arith, read_uint32-sum a b c d rest (ka, (kb, (kc, (kd, tt)))))
read_uint32-IsU32 [] h k = absurd (omega arith)
read_uint32-IsU32 (a ∷ []) h k = absurd (omega arith)
read_uint32-IsU32 (a ∷ b ∷ []) h k = absurd (omega arith)
read_uint32-IsU32 (a ∷ b ∷ c ∷ []) h k = absurd (omega arith)

pub word_round-remaining :
    (s : Partial) → 4 ≤ length s.left → IsBounded s → remaining (word_round s) ≡ remaining s
unfolding word_round
word_round-remaining s h (k0, k1, k2, k3, bytes) =
    ap (λ t. steps1 t (drop 4 s.left)) turned ∙ sym (steps1_word_at (combine s) s.left h bytes)
  where
    w : ℕ
    w = read_uint32 s.left

    older : ℕ
    older = advance 32 (bit_xor s.crc3 (advance 32 (bit_xor s.crc2 (advance 32 s.crc1))))

    turned : combine (word_round s) ≡ advance 32 (bit_xor (combine s) w)
    turned =
        combine-combined (word_round s)
        ∙ ap (λ t. advance 32 (bit_xor t older)) (step4-advance s.crc0 w k0)
        ∙ ap (advance 32) (
            xor_assoc w (advance 128 s.crc0) older
            ∙ ap (bit_xor w) (xor_comm (advance 128 s.crc0) older)
            ∙ xor_comm w (bit_xor older (advance 128 s.crc0))
            ∙ ap (λ t. bit_xor t w)
                (sym (combine-combined s ∙ combined-split s.crc0 s.crc1 s.crc2 s.crc3)))

pub word_round-IsBounded :
    (s : Partial) → 4 ≤ length s.left → IsBounded s → IsBounded (word_round s)
unfolding word_round
word_round-IsBounded s h (k0, k1, k2, k3, bytes) = (
  k1,
  k2,
  k3,
  rw (step4-advance s.crc0 (read_uint32 s.left) k0) fits,
  All-drop IsByte 4 s.left bytes,
)
  where
    fits : IsU32 (bit_xor (read_uint32 s.left) (advance 128 s.crc0))
    fits =
        bit_xor-lt 32 (read_uint32 s.left) (advance 128 s.crc0) (read_uint32-IsU32 s.left h bytes)
          (advance-IsU32 128 s.crc0 k0)
