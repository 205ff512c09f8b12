-- ===== src/Crc32c/Extend/Spec.antt =====
-- `Extend` against the definition of CRC-32C, which takes one bit at a time and has no table.
use simple_leveldb.Base.{ℕ, bit_xor, IsByte, IsU32, ◌≡◌, refl, ap, ◌∙◌, [], ◌∷◌, Bytes, All}
use simple_leveldb.Crc32c.Extend.{crc32_xor, steps1, extend}
use simple_leveldb.Crc32c.Extend.Polynomial.{advance, step1-advance}
use simple_leveldb.Crc32c.Extend.Reference.{extend_bytewise}
use simple_leveldb.Crc32c.Extend.Whole.{extend-eq-extend_bytewise}

-- Each byte is added to the low end of the register, and its eight bits are shifted out.
unfoldable pub register : ℕ → Bytes → ℕ
register l [] = l
register l (b ∷ bytes) = register (advance 8 (bit_xor l b)) bytes

unfoldable pub crc_by_bits : ℕ → Bytes → ℕ
unfolding register
crc_by_bits crc data' = bit_xor (register (bit_xor crc crc32_xor) data') crc32_xor

steps1-register : (l : ℕ) (bytes : Bytes) → All IsByte bytes → steps1 l bytes ≡ register l bytes
unfolding steps1 register
steps1-register l [] h = refl
steps1-register l (b ∷ bytes) h =
    ap (λ t. steps1 t bytes) (step1-advance l b h.0)
    ∙ steps1-register (advance 8 (bit_xor l b)) bytes h.1

-- For bytes at any address, `Extend` with its alignment loop, its five tables, its four strides of words
-- and its final combination is the CRC-32C of the bytes, computed bit by bit with the polynomial
-- 0x82f63b78 and continued from the checksum given.
pub extend-eq-crc_by_bits :
    (address crc : ℕ) (data' : Bytes)
    → IsU32 crc
    → All IsByte data'
    → extend address crc data' ≡ crc_by_bits crc data'
unfolding crc_by_bits
extend-eq-crc_by_bits address crc data' u h = extend-eq-extend_bytewise address crc data' u h ∙ bits
  where
    bits : extend_bytewise crc data' ≡ crc_by_bits crc data'
    bits =
        unfold extend_bytewise in
        ap (λ t. bit_xor t crc32_xor) (steps1-register (bit_xor crc crc32_xor) data' h)
