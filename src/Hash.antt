-- ===== src/Hash.antt =====
-- util/hash.cc: the hash of a key.
pub mod Bounds
use simple_leveldb.Base.{
  ℕ, ◌+◌, ◌*◌, ◌/◌, ◌%◌, ◌^◌, bit_xor, Option, none, some, [], ◌∷◌, Bytes, length, u32, u64, shl,
  shr,
}
use simple_leveldb.Coding.{decode_fixed32}

-- `m`.
abbrev pub factor : ℕ
factor = 0xc6a4a793

-- `h += w; h *= m; h ^= ( h >> shift )`.
unfoldable pub mix : ℕ → ℕ → ℕ → ℕ
mix shift h w = let product = u32 (u32 (h + w) * factor) in bit_xor product (shr product shift)

-- The `switch`, which falls through from `case 3` to `case 1`.
unfoldable pub hash_tail : ℕ → Bytes → ℕ
unfolding mix
hash_tail h [] = h
hash_tail h (a ∷ []) = mix 24 h a
hash_tail h (a ∷ b ∷ []) = mix 24 (u32 (h + shl b 8)) a
hash_tail h (a ∷ b ∷ c ∷ rest) = mix 24 (u32 (u32 (h + shl c 16) + shl b 8)) a

-- Four bytes at a time while there are four.
unfoldable pub hash_loop : ℕ → Bytes → ℕ
unfolding mix hash_tail
hash_loop h (a ∷ b ∷ c ∷ d ∷ rest) = elim (decode_fixed32 (a ∷ b ∷ c ∷ d ∷ [])) [
  | some w ↦ hash_loop (mix 16 h w) rest
  | none ↦ h
]
hash_loop h [] = hash_tail h []
hash_loop h (a ∷ []) = hash_tail h (a ∷ [])
hash_loop h (a ∷ b ∷ []) = hash_tail h (a ∷ b ∷ [])
hash_loop h (a ∷ b ∷ c ∷ []) = hash_tail h (a ∷ b ∷ c ∷ [])

-- `Hash( data, n, seed )`.
unfoldable pub hash : Bytes → ℕ → ℕ
unfolding hash_loop
hash data' seed = hash_loop (u32 (bit_xor seed (u64 (length data' * factor)))) data'
