-- ===== src/Coding/Encode.antt =====
-- What the variable-length encoders of util/coding write.
use simple_leveldb.Base.{
  ℕ, zero, suc, ◌+◌, ◌/◌, ◌%◌, ◌^◌, ◌≤◌, ◌<◌, arith, ltb, if◌then◌else◌, [], ◌∷◌, All, length,
  IsByte, IsU32, IsU64, lt_wf, ◌≡◌, ap,
}
use simple_leveldb.Base.Bits.{bit_or_top}
use simple_leveldb.Coding.{encode_varint32, encode_varint64, varint64_loop, more, shr-lt}
use mathlib.Core.WellFounded.{Acc, Acc-prop}
use native.Mathlib.Decide.{dec_lt}
use mathlib.Core.Logic.{dif_pos, dif_neg}
use native.Mathlib.Bridge.{le_prop}

pub more-eq : (v : ℕ) → more v ≡ v % 128 + 128
more-eq v = bit_or_top v

-- One round of the loop, whatever proof that it ends is at hand for the rest.
varint64_loop_step :
    (v : ℕ) (a : Acc ◌<◌ v) (b : Acc ◌<◌ (v / 128))
    → varint64_loop v a
      ≡ (if ltb v 128 then v ∷ [] else (v % 128 + 128) ∷ varint64_loop (v / 128) b)
unfolding varint64_loop
varint64_loop_step v (Acc.intro _ s) b = elim (dec_lt 127 v) [
  | yes p ↦ rw (dif_pos _ le_prop p) (
      grind
        (arith, more-eq v, ap (varint64_loop (v / 128)) (Acc-prop (s (v / 128) (shr-lt v p)) b)))
  | no p ↦ rw (dif_neg _ p) (ground arith)
]

-- One round of the loop.
pub encode_varint64_step :
    (v : ℕ)
    → encode_varint64 v
      ≡ (if ltb v 128 then v ∷ [] else (v % 128 + 128) ∷ encode_varint64 (v / 128))
unfolding encode_varint64 varint64_loop
encode_varint64_step v = varint64_loop_step v (lt_wf.apply v) (lt_wf.apply (v / 128))

-- On every 32-bit value the unrolled 32-bit encoder writes what the 64-bit loop writes.
pub encode_varint32-eq-encode_varint64 : (v : ℕ) → IsU32 v → encode_varint32 v ≡ encode_varint64 v
unfolding encode_varint32
encode_varint32-eq-encode_varint64 v h = ground (
  arith,
  encode_varint64_step v,
  encode_varint64_step (v / 128),
  encode_varint64_step (v / 128 / 128),
  encode_varint64_step (v / 128 / 128 / 128),
  encode_varint64_step (v / 128 / 128 / 128 / 128),
  more-eq v,
  more-eq (v / 2 ^ 7),
  more-eq (v / 2 ^ 14),
  more-eq (v / 2 ^ 21),
)

-- The bytes written, and how many, for a value below 128 ^ (k + 1).
pub encode_varint64_shape :
    (k v : ℕ)
    → v < 128 ^ suc k
    → All IsByte (encode_varint64 v)
      × (1 ≤ length (encode_varint64 v))
      × (length (encode_varint64 v) ≤ k + 1)
encode_varint64_shape zero v h = ground (arith, encode_varint64_step v)
encode_varint64_shape (suc k) v h =
    ground (arith, encode_varint64_step v, encode_varint64_shape k (v / 128) (omega arith))

-- The encoders write bytes, and never more than the 5 and the 10 that their callers reserve:
-- `encode_varint32` on a 32-bit value and `encode_varint64` on a 64-bit value.
pub encode_varint_fits :
    (v w : ℕ)
    → IsU32 v
    → IsU64 w
    → (All IsByte (encode_varint32 v)
        × (1 ≤ length (encode_varint32 v))
        × (length (encode_varint32 v) ≤ 5))
      × (All IsByte (encode_varint64 w)
          × (1 ≤ length (encode_varint64 w))
          × (length (encode_varint64 w) ≤ 10))
encode_varint_fits v w h k = (
  rw (encode_varint32-eq-encode_varint64 v h) (encode_varint64_shape 4 v (omega arith)),
  encode_varint64_shape 9 w (omega arith),
)
