-- ===== src/Crc32c/Extend/Words.antt =====
-- A word at a time: the four tables of a stride, and the word as four bytes.
use simple_leveldb.Base.{
  ℕ, ◌+◌, ◌*◌, ◌/◌, ◌%◌, ◌^◌, ◌<◌, ◌==◌, ==_iff, arith, true, bit_xor, get_or, IsByte, IsU32, ◌≡◌,
  refl, sym, ap, ◌∙◌, [], ◌∷◌, Bytes, All, List,
}
use simple_leveldb.Base.Bits.{every_below, every_below→, bit_and_mask}
use simple_leveldb.Base.Xor.{xor_assoc, xor_above}
use simple_leveldb.Coding.Fixed.{decode_fixed32_sum}
use simple_leveldb.Crc32c.Tables.{
  stride_extension_table_0, stride_extension_table_1, stride_extension_table_2,
  stride_extension_table_3,
}
use simple_leveldb.Crc32c.Extend.{step1, steps1, step4, step4w, word_step, read_uint32}
use simple_leveldb.Crc32c.Extend.Polynomial.{
  bit_step, advance, advance-add, advance-xor, advance-above, step1-advance, word_step-advance,
}

-- A table holds what 16 bytes of zero make of its index in one place of the word.
stride_table_3 : every_below (λ c. get_or stride_extension_table_3 c 0 == advance 128 c) 256 ≡ true
unfolding every_below advance bit_step
stride_table_3 = refl

stride_table_2 :
    every_below (λ c. get_or stride_extension_table_2 c 0 == advance 128 (c * 2 ^ 8)) 256 ≡ true
unfolding every_below advance bit_step
stride_table_2 = refl

stride_table_1 :
    every_below (λ c. get_or stride_extension_table_1 c 0 == advance 128 (c * 2 ^ 16)) 256 ≡ true
unfolding every_below advance bit_step
stride_table_1 = refl

stride_table_0 :
    every_below (λ c. get_or stride_extension_table_0 c 0 == advance 128 (c * 2 ^ 24)) 256 ≡ true
unfolding every_below advance bit_step
stride_table_0 = refl

entry :
    (table : List ℕ) (k c : ℕ)
    → every_below (λ c. get_or table c 0 == advance 128 (c * 2 ^ k)) 256 ≡ true
    → c < 256
    → get_or table c 0 ≡ advance 128 (c * 2 ^ k)
entry table k c checked h =
    (==_iff (get_or table c 0) (advance 128 (c * 2 ^ k))).0
      (every_below→ (λ c. get_or table c 0 == advance 128 (c * 2 ^ k)) 256 c h checked)

-- A word is the `^` of its bytes in their places.
bytes_of :
    (a b c d : ℕ)
    → IsByte a
    → IsByte b
    → IsByte c
    → bit_xor (bit_xor (bit_xor a (b * 2 ^ 8)) (c * 2 ^ 16)) (d * 2 ^ 24)
      ≡ a + b * 2 ^ 8 + c * 2 ^ 16 + d * 2 ^ 24
bytes_of a b c d h k l =
    ap (λ t. bit_xor (bit_xor t (c * 2 ^ 16)) (d * 2 ^ 24)) (xor_above 8 a b (omega arith))
    ∙ ap (λ t. bit_xor t (d * 2 ^ 24)) (xor_above 16 (a + b * 2 ^ 8) c (omega arith))
    ∙ xor_above 24 (a + b * 2 ^ 8 + c * 2 ^ 16) d (omega arith)

xor_four :
    (w p q r s : ℕ)
    → bit_xor (bit_xor (bit_xor (bit_xor w p) q) r) s
      ≡ bit_xor w (bit_xor (bit_xor (bit_xor p q) r) s)
xor_four w p q r s =
    ap (λ t. bit_xor (bit_xor t r) s) (xor_assoc w p q)
    ∙ ap (λ t. bit_xor t s) (xor_assoc w (bit_xor p q) r)
    ∙ xor_assoc w (bit_xor (bit_xor p q) r) s

advance_four :
    (n p q r s : ℕ)
    → advance n (bit_xor (bit_xor (bit_xor p q) r) s)
      ≡ bit_xor (bit_xor (bit_xor (advance n p) (advance n q)) (advance n r)) (advance n s)
advance_four n p q r s =
    advance-xor n (bit_xor (bit_xor p q) r) s
    ∙ ap (λ t. bit_xor t (advance n s)) (advance-xor n (bit_xor p q) r)
    ∙ ap (λ t. bit_xor (bit_xor t (advance n r)) (advance n s)) (advance-xor n p q)

-- `STEP4` takes the 128 bits of 16 bytes of zero, and the word.
pub step4-advance : (crc w : ℕ) → IsU32 crc → step4 crc w ≡ bit_xor w (advance 128 crc)
unfolding step4
step4-advance crc w h =
    rw
      (
        bit_and_mask 8 crc,
        bit_and_mask 8 (crc / 2 ^ 8),
        bit_and_mask 8 (crc / 2 ^ 16),
        first,
        entry stride_extension_table_2 8 b stride_table_2 (omega arith),
        entry stride_extension_table_1 16 c stride_table_1 (omega arith),
        entry stride_extension_table_0 24 d stride_table_0 (omega arith),
      )
      (xor_four w _ _ _ _
        ∙ ap (bit_xor w) (sym (advance_four 128 a _ _ _) ∙ ap (advance 128) whole))
  where
    a : ℕ
    a = crc % 2 ^ 8

    b : ℕ
    b = crc / 2 ^ 8 % 2 ^ 8

    c : ℕ
    c = crc / 2 ^ 16 % 2 ^ 8

    d : ℕ
    d = crc / 2 ^ 24

    first : get_or stride_extension_table_3 a 0 ≡ advance 128 a
    first = (==_iff (get_or stride_extension_table_3 a 0) (advance 128 a)).0 (
        every_below→ (λ c. get_or stride_extension_table_3 c 0 == advance 128 c) 256 a (omega arith)
          stride_table_3)

    whole : bit_xor (bit_xor (bit_xor a (b * 2 ^ 8)) (c * 2 ^ 16)) (d * 2 ^ 24) ≡ crc
    whole = bytes_of a b c d (omega arith) (omega arith) (omega arith) ∙ omega arith

pub read_uint32-sum :
    (a b c d : ℕ) (rest : Bytes)
    → All IsByte (a ∷ b ∷ c ∷ d ∷ [])
    → read_uint32 (a ∷ b ∷ c ∷ d ∷ rest) ≡ a + b * 2 ^ 8 + c * 2 ^ 16 + d * 2 ^ 24
unfolding read_uint32
read_uint32-sum a b c d rest h = rw (decode_fixed32_sum a b c d rest h, read_uint32) refl

next_byte : (n x b : ℕ) → IsByte b → step1 (advance n x) b ≡ advance (n + 8) (bit_xor x (b * 2 ^ n))
next_byte n x b h =
    step1-advance (advance n x) b h
    ∙ ap (advance 8)
        (ap (bit_xor (advance n x)) (sym (advance-above n b)) ∙ sym (advance-xor n x (b * 2 ^ n)))
    ∙ sym (advance-add n 8 (bit_xor x (b * 2 ^ n)))

-- Four rounds of `STEP1` take the 32 bits of a word.
pub steps1-word :
    (l a b c d : ℕ) (rest : Bytes)
    → All IsByte (a ∷ b ∷ c ∷ d ∷ [])
    → steps1 l (a ∷ b ∷ c ∷ d ∷ rest)
      ≡ steps1 (advance 32 (bit_xor l (read_uint32 (a ∷ b ∷ c ∷ d ∷ rest)))) rest
unfolding steps1
steps1-word l a b c d rest h =
    ap (λ t. steps1 t rest)
      (ap (λ t. step1 (step1 (step1 t b) c) d) (step1-advance l a h.0)
        ∙ ap (λ t. step1 (step1 t c) d) (next_byte 8 (bit_xor l a) b h.1.0)
        ∙ ap (λ t. step1 t d) (next_byte 16 _ c h.1.1.0)
        ∙ next_byte 24 _ d h.1.1.1.0
        ∙ ap (advance 32) (xor_four l a _ _ _ ∙ ap (bit_xor l) word))
  where
    word :
        bit_xor (bit_xor (bit_xor a (b * 2 ^ 8)) (c * 2 ^ 16)) (d * 2 ^ 24)
        ≡ read_uint32 (a ∷ b ∷ c ∷ d ∷ rest)
    word = bytes_of a b c d h.0 h.1.0 h.1.1.0 ∙ sym (read_uint32-sum a b c d rest h)

-- `STEP4W` does too.
pub step4w-advance : (l w : ℕ) → step4w l w ≡ advance 32 (bit_xor w l)
unfolding step4w
step4w-advance l w =
    ap (λ t. word_step (word_step (word_step t))) (word_step-advance x)
    ∙ ap (λ t. word_step (word_step t)) (word_step-advance (advance 8 x) ∙ sym (advance-add 8 8 x))
    ∙ ap word_step (word_step-advance (advance 16 x) ∙ sym (advance-add 16 8 x))
    ∙ (word_step-advance (advance 24 x) ∙ sym (advance-add 24 8 x))
  where
    x : ℕ
    x = bit_xor w l
