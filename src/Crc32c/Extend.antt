-- ===== src/Crc32c/Extend.antt =====
-- util/crc32c.cc: `Extend` without a hardware checksum, byte by byte at the ends and with four strides
-- of words in between.
pub mod Reference
pub mod Polynomial
pub mod Words
pub mod Rounds
pub mod Whole
pub mod Spec
use simple_leveldb.Base.{
  ℕ, zero, suc, ◌+◌, ◌-◌, ◌*◌, ◌/◌, ◌%◌, ◌^◌, ◌==◌, if◌then◌else◌, leb, ltb, bit_and, bit_xor,
  Option, none, some, List, [], ◌∷◌, Bytes, length, take, drop, get_or, shr, u32,
}
use simple_leveldb.Coding.{decode_fixed32}
use simple_leveldb.Crc32c.Tables.{
  byte_extension_table, stride_extension_table_0, stride_extension_table_1,
  stride_extension_table_2, stride_extension_table_3,
}

abbrev pub crc32_xor : ℕ
crc32_xor = 0xffffffff

-- An entry of a table; every index that the code forms is below 256.
unfoldable pub byte_entry : ℕ → ℕ
byte_entry c = get_or byte_extension_table c 0

-- `STEP1`.
unfoldable pub step1 : ℕ → ℕ → ℕ
unfolding byte_entry
step1 l byte = bit_xor (byte_entry (bit_xor (bit_and l 0xff) byte)) (shr l 8)

-- A loop of `STEP1` over the bytes.
unfoldable pub steps1 : ℕ → Bytes → ℕ
steps1 l [] = l
steps1 l (byte ∷ bytes) = steps1 (step1 l byte) bytes

-- `ReadUint32LE`; every call has four bytes left.
unfoldable pub read_uint32 : Bytes → ℕ
read_uint32 p = elim (decode_fixed32 p) [ some w ↦ w | none ↦ 0 ]

-- `STEP4` on the partial result `crc` and the word `w`.
unfoldable pub step4 : ℕ → ℕ → ℕ
step4 crc w =
    bit_xor
      (bit_xor
        (bit_xor (bit_xor w (get_or stride_extension_table_3 (bit_and crc 0xff) 0))
          (get_or stride_extension_table_2 (bit_and (shr crc 8) 0xff) 0))
        (get_or stride_extension_table_1 (bit_and (shr crc 16) 0xff) 0))
      (get_or stride_extension_table_0 (shr crc 24) 0)

-- The four partial results, and the bytes from `p` on.
pub record Partial : Type 0 where
  pub crc0 : ℕ
  pub crc1 : ℕ
  pub crc2 : ℕ
  pub crc3 : ℕ
  pub left : Bytes

-- The first 16 bytes.
unfoldable pub load : ℕ → Bytes → Partial
unfolding read_uint32
load l p = record {
  crc0 = bit_xor (read_uint32 p) l;
  crc1 = read_uint32 (drop 4 p);
  crc2 = read_uint32 (drop 8 p);
  crc3 = read_uint32 (drop 12 p);
  left = drop 16 p;
}

unfoldable pub step16 : Partial → Partial
unfolding step4 read_uint32
step16 s = record {
  crc0 = step4 s.crc0 (read_uint32 s.left);
  crc1 = step4 s.crc1 (read_uint32 (drop 4 s.left));
  crc2 = step4 s.crc2 (read_uint32 (drop 8 s.left));
  crc3 = step4 s.crc3 (read_uint32 (drop 12 s.left));
  left = drop 16 s.left;
}

-- `while ( ( e - p ) >= 16 )`.
unfoldable pub swaths : ℕ → Partial → Partial
swaths zero s = s
swaths (suc fuel) s = let s' = swaths fuel (step16 s) in if leb 16 (length s.left) then s' else s

-- A round of `while ( ( e - p ) >= 4 )`: a word, and the partial results turn.
unfoldable pub word_round : Partial → Partial
unfolding step4 read_uint32
word_round s = record {
  crc0 = s.crc1;
  crc1 = s.crc2;
  crc2 = s.crc3;
  crc3 = step4 s.crc0 (read_uint32 s.left);
  left = drop 4 s.left;
}

unfoldable pub words : ℕ → Partial → Partial
words zero s = s
words (suc fuel) s = let s' = words fuel (word_round s) in if leb 4 (length s.left) then s' else s

-- `STEP4W`: four bytes already in a word.
pub word_step : ℕ → ℕ
unfolding byte_entry
word_step w = bit_xor (shr w 8) (byte_entry (bit_and w 0xff))

unfoldable pub step4w : ℕ → ℕ → ℕ
unfolding word_step
step4w l w = word_step (word_step (word_step (word_step (bit_xor w l))))

-- `Combine the 4 partial stride results.`
unfoldable pub combine : Partial → ℕ
unfolding step4w
combine s = step4w (step4w (step4w (step4w 0 s.crc0) s.crc1) s.crc2) s.crc3

-- The part of `Extend` behind the aligned address; a round takes a byte at least, so that the length
-- is fuel enough for both loops.
unfoldable pub extend_aligned : ℕ → Bytes → ℕ
unfolding steps1 load swaths words combine
extend_aligned l p =
    let s = words (length p) (swaths (length p) (load l p)) in
    if leb 16 (length p) then steps1 (combine s) s.left else steps1 l p

-- The bytes in front of `RoundUp< 4 >( p )`.
abbrev pub before_aligned : ℕ → ℕ
before_aligned address = (4 - address % 4) % 4

-- `Extend( crc, data, n )` with the data at `address`.
unfoldable pub extend : (address crc : ℕ) → Bytes → ℕ
unfolding extend_aligned steps1
extend address crc data' =
    let l = bit_xor crc crc32_xor in
    let x = before_aligned address in
    bit_xor
      (if leb x (length data')
        then extend_aligned (steps1 l (take x data')) (drop x data')
        else extend_aligned l data')
      crc32_xor
