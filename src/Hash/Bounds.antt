-- ===== src/Hash/Bounds.antt =====
-- hash.cc: the range of the hash.
use simple_leveldb.Base.{
  ℕ, ◌+◌, ◌*◌, ◌^◌, arith, [], ◌∷◌, Bytes, u32, shr, IsU32, Option-cases, inl, inr,
}
use simple_leveldb.Base.Xor.{bit_xor-lt}
use native.Mathlib.Nat.{div-le_self}
use simple_leveldb.Coding.{decode_fixed32}
use simple_leveldb.Hash.{factor, mix, hash_tail, hash_loop, hash}

mix-IsU32 : (shift h w : ℕ) → IsU32 (mix shift h w)
unfolding mix
mix-IsU32 shift h w =
    let product = u32 (u32 (h + w) * factor) in
    bit_xor-lt 32 product (shr product shift) (omega arith)
      (omega (arith, div-le_self product (2 ^ shift)))

hash_loop-IsU32 : (bytes : Bytes) (h : ℕ) → IsU32 h → IsU32 (hash_loop h bytes)
unfolding hash_loop hash_tail
hash_loop-IsU32 (a ∷ b ∷ c ∷ d ∷ rest) h k =
    elim (Option-cases (decode_fixed32 (a ∷ b ∷ c ∷ d ∷ []))) [
      | inl e ↦ rw (e, hash_loop) k
      | inr (w, e) ↦ rw (e, hash_loop) (hash_loop-IsU32 rest (mix 16 h w) (mix-IsU32 16 h w))
    ]
hash_loop-IsU32 [] h k = k
hash_loop-IsU32 (a ∷ []) h k = mix-IsU32 24 h a
hash_loop-IsU32 (a ∷ b ∷ []) h k = mix-IsU32 24 _ a
hash_loop-IsU32 (a ∷ b ∷ c ∷ []) h k = mix-IsU32 24 _ a

-- The hash of any key under any seed is a number of 32 bits.
pub hash-IsU32 : (data' : Bytes) (seed : ℕ) → IsU32 (hash data' seed)
unfolding hash
hash-IsU32 data' seed = hash_loop-IsU32 data' _ (omega arith)
