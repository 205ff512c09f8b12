-- ===== src/Coding/Decode.antt =====
-- The variable-length readers of util/coding on any input, well formed or not.
use simple_leveldb.Base.{
  ℕ, ◌+◌, ◌*◌, ◌%◌, ◌^◌, ◌≤◌, ◌<◌, arith, [], ◌∷◌, Bytes, All, length, IsByte, IsU32, IsU64, ◌≡◌,
  refl, sym, ◌∙◌, bit_or, bit_and, some,
}
use simple_leveldb.Base.Bits.{bit_or-lt, bit_or_above}
use simple_leveldb.Coding.{
  varint_loop, get_varint32, get_varint64, get_varint32ptr, get_varint32ptr_fallback,
}
use native.Mathlib.Nat.{mod-lt, one-le-pow}

-- What a reader returns fits its width, and it takes at least a byte.
varint_loop_takes :
    (width last : ℕ) (input : Bytes) (shift result v : ℕ) (rest : Bytes)
    → result < 2 ^ width
    → varint_loop width last input shift result ≡ some (v, rest)
    → (v < 2 ^ width)
      × (length rest < length input)
      × (7 * length input + shift ≤ 7 * length rest + last + 7)
unfolding varint_loop
varint_loop_takes width last [] shift result v rest h e = cc
varint_loop_takes width last (b ∷ bs) shift result v rest h e =
    let pos = one-le-pow width 2 (omega arith) in
    ground (
      arith,
      mod-lt (b * 2 ^ shift) pos,
      mod-lt (bit_and b 127 * 2 ^ shift) pos,
      bit_or-lt width result (b * 2 ^ shift % 2 ^ width),
      bit_or-lt width result (bit_and b 127 * 2 ^ shift % 2 ^ width),
      varint_loop_takes width last bs (shift + 7)
          (bit_or result (bit_and b 127 * 2 ^ shift % 2 ^ width)) v rest,
    )

pub fast_path :
    (b : ℕ) (rest : Bytes)
    → IsByte b
    → get_varint32ptr (b ∷ rest) ≡ get_varint32ptr_fallback (b ∷ rest)
unfolding get_varint32ptr get_varint32ptr_fallback varint_loop
fast_path b rest h = ground (arith, bit_or_above 0 0 b)

-- On any input of bytes the fast path of `get_varint32ptr` gives the result of the loop.
pub get_varint32ptr-eq-fallback :
    (input : Bytes) → All IsByte input → get_varint32ptr input ≡ get_varint32ptr_fallback input
unfolding get_varint32ptr get_varint32ptr_fallback varint_loop
get_varint32ptr-eq-fallback [] h = refl
get_varint32ptr-eq-fallback (b ∷ bs) h = fast_path b bs h.0

-- When `get_varint32` succeeds on bytes it returns a 32-bit value and consumes 1 to 5 bytes.
pub get_varint32_takes :
    (input : Bytes) (v : ℕ) (rest : Bytes)
    → All IsByte input
    → get_varint32 input ≡ some (v, rest)
    → IsU32 v × (length rest < length input) × (length input ≤ length rest + 5)
unfolding get_varint32
get_varint32_takes input v rest h e = omega (
  arith,
  varint_loop_takes 32 28 input 0 0 v rest (omega arith)
      (sym (get_varint32ptr-eq-fallback input h) ∙ e),
)

-- When `get_varint64` succeeds it returns a 64-bit value and consumes 1 to 10 bytes.
pub get_varint64_takes :
    (input : Bytes) (v : ℕ) (rest : Bytes)
    → get_varint64 input ≡ some (v, rest)
    → IsU64 v × (length rest < length input) × (length input ≤ length rest + 10)
unfolding get_varint64
get_varint64_takes input v rest e =
    omega (arith, varint_loop_takes 64 63 input 0 0 v rest (omega arith) e)

pub get_varint32_shrinks :
    (input : Bytes) (v : ℕ) (rest : Bytes)
    → get_varint32 input ≡ some (v, rest)
    → length rest < length input
unfolding get_varint32 get_varint32ptr get_varint32ptr_fallback
get_varint32_shrinks [] v rest e = absurd (ground (arith, e))
get_varint32_shrinks (b ∷ bs) v rest e =
    ground (arith, e, varint_loop_takes 32 28 (b ∷ bs) 0 0 v rest)
