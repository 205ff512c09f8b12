-- ===== src/Coding/Fixed.antt =====
-- The fixed-width forms of util/coding: little-endian bytes.
use simple_leveldb.Base.{
  ℕ, ◌+◌, ◌*◌, ◌^◌, arith, some, [], ◌∷◌, ◌++◌, Bytes, All, IsByte, IsU32, IsU64, ◌≡◌, ap, ◌∙◌,
}
use simple_leveldb.Base.Bits.{bit_or_above}
use simple_leveldb.Coding.{encode_fixed32, encode_fixed64, decode_fixed32, decode_fixed64}

-- What four bytes are read as.
pub decode_fixed32_sum :
    (b₀ b₁ b₂ b₃ : ℕ) (rest : Bytes)
    → All IsByte (b₀ ∷ b₁ ∷ b₂ ∷ b₃ ∷ [])
    → decode_fixed32 (b₀ ∷ b₁ ∷ b₂ ∷ b₃ ∷ rest) ≡ some (b₀ + b₁ * 2 ^ 8 + b₂ * 2 ^ 16 + b₃ * 2 ^ 24)
unfolding decode_fixed32
decode_fixed32_sum b₀ b₁ b₂ b₃ rest h = ground (
  arith,
  bit_or_above 8 b₀ b₁,
  bit_or_above 16 (b₀ + b₁ * 2 ^ 8) b₂,
  bit_or_above 24 (b₀ + b₁ * 2 ^ 8 + b₂ * 2 ^ 16) b₃,
)

-- A 32-bit value is read back from the bytes that it is written as, whatever follows them.
pub decode_fixed32-encode_fixed32 :
    (v : ℕ) (rest : Bytes) → IsU32 v → decode_fixed32 (encode_fixed32 v ++ rest) ≡ some v
unfolding encode_fixed32
decode_fixed32-encode_fixed32 v rest h =
    decode_fixed32_sum _ _ _ _ rest (omega arith) ∙ ap some (omega arith)

decode_fixed64_sum :
    (b₀ b₁ b₂ b₃ b₄ b₅ b₆ b₇ : ℕ) (rest : Bytes)
    → All IsByte (b₀ ∷ b₁ ∷ b₂ ∷ b₃ ∷ b₄ ∷ b₅ ∷ b₆ ∷ b₇ ∷ [])
    → decode_fixed64 (b₀ ∷ b₁ ∷ b₂ ∷ b₃ ∷ b₄ ∷ b₅ ∷ b₆ ∷ b₇ ∷ rest)
      ≡ some (
          b₀
          + b₁ * 2 ^ 8
          + b₂ * 2 ^ 16
          + b₃ * 2 ^ 24
          + b₄ * 2 ^ 32
          + b₅ * 2 ^ 40
          + b₆ * 2 ^ 48
          + b₇ * 2 ^ 56)
unfolding decode_fixed64
decode_fixed64_sum b₀ b₁ b₂ b₃ b₄ b₅ b₆ b₇ rest h =
    let s₁ : ℕ = b₀ + b₁ * 2 ^ 8 in
    let s₂ : ℕ = s₁ + b₂ * 2 ^ 16 in
    let s₃ : ℕ = s₂ + b₃ * 2 ^ 24 in
    let s₄ : ℕ = s₃ + b₄ * 2 ^ 32 in
    let s₅ : ℕ = s₄ + b₅ * 2 ^ 40 in
    let s₆ : ℕ = s₅ + b₆ * 2 ^ 48 in
    ground (
      arith,
      bit_or_above 8 b₀ b₁,
      bit_or_above 16 s₁ b₂,
      bit_or_above 24 s₂ b₃,
      bit_or_above 32 s₃ b₄,
      bit_or_above 40 s₄ b₅,
      bit_or_above 48 s₅ b₆,
      bit_or_above 56 s₆ b₇,
    )

-- A 64-bit value is read back from the bytes that it is written as, whatever follows them.
pub decode_fixed64-encode_fixed64 :
    (v : ℕ) (rest : Bytes) → IsU64 v → decode_fixed64 (encode_fixed64 v ++ rest) ≡ some v
unfolding encode_fixed64
decode_fixed64-encode_fixed64 v rest h =
    decode_fixed64_sum _ _ _ _ _ _ _ _ rest (omega arith) ∙ ap some (omega arith)
