-- ===== src/Crc32c.antt =====
-- util/crc32c.h: the masked form of a checksum, and what its clients ask of `Extend`.
pub mod Tables
pub mod Extend
use simple_leveldb.Base.{
  ℕ, ◌+◌, ◌-◌, ◌*◌, ◌/◌, ◌%◌, ◌^◌, ◌<◌, ◌≡◌, arith, bit_or, Bytes, ◌++◌, u32, shl, shr, IsU32, ◌∙◌,
  ap,
}
use simple_leveldb.Base.Bits.{bit_or_above}

-- `Extend( init_crc, data, n )` as its comment in util/crc32c.h describes it.
pub record Checksum : Type 0 where
  pub extend : ℕ → Bytes → ℕ
  pub extend-append : (crc : ℕ) (a b : Bytes) → extend (extend crc a) b ≡ extend crc (a ++ b)
  pub extend-IsU32 : (crc : ℕ) (a : Bytes) → IsU32 crc → IsU32 (extend crc a)

abbrev pub value : Checksum → Bytes → ℕ
value c data' = c.extend 0 data'

abbrev pub mask_delta : ℕ
mask_delta = 0xa282ead8

-- `( crc >> 15 ) | ( crc << 17 )` on 32 bits, and a sum that wraps.
unfoldable pub mask : ℕ → ℕ
mask crc = u32 (bit_or (shr crc 15) (u32 (shl crc 17)) + mask_delta)

unfoldable pub unmask : ℕ → ℕ
unmask masked_crc =
    let rot = u32 (masked_crc + 2 ^ 32 - mask_delta) in bit_or (shr rot 17) (u32 (shl rot 15))

-- Masking loses nothing: every 32-bit checksum comes back.
pub unmask-mask : (crc : ℕ) → IsU32 crc → unmask (mask crc) ≡ crc
unfolding unmask mask
unmask-mask crc h = ground (
  arith,
  bit_or_above 17 (crc / 2 ^ 15) (crc % 2 ^ 15),
  bit_or_above 15 (crc % 2 ^ 15) (crc / 2 ^ 15),
)
