-- ===== src/Crc32c/Extend/Reference.antt =====
-- The checksum byte by byte, as a `Checksum`.
use simple_leveldb.Base.{
  ℕ, zero, suc, ◌^◌, ltb, ◌&&◌, Bool, true, arith, bit_xor, bit_and, List, [], ◌∷◌, ◌++◌, Bytes,
  get_or, shr, IsU32, ◌≡◌, refl, sym, ap, ◌∙◌,
}
use simple_leveldb.Base.Xor.{bit_xor-lt, xor_twice}
use simple_leveldb.Crc32c.{Checksum}
use simple_leveldb.Crc32c.Tables.{byte_extension_table}
use simple_leveldb.Crc32c.Extend.{crc32_xor, byte_entry, step1, steps1}

-- One `STEP1` after another over all the bytes.
unfoldable pub extend_bytewise : ℕ → Bytes → ℕ
unfolding steps1
extend_bytewise crc data' = bit_xor (steps1 (bit_xor crc crc32_xor) data') crc32_xor

pub steps1-append : (l : ℕ) (a b : Bytes) → steps1 l (a ++ b) ≡ steps1 (steps1 l a) b
unfolding steps1
steps1-append l [] b = refl
steps1-append l (x ∷ a) b = steps1-append (step1 l x) a b

-- Every entry of a list is below 2^32.
all_words : List ℕ → Bool
all_words [] = true
all_words (x ∷ xs) = ltb x (2 ^ 32) && all_words xs

get_or-IsU32 : (xs : List ℕ) (i : ℕ) → all_words xs ≡ true → IsU32 (get_or xs i 0)
unfolding all_words
get_or-IsU32 [] i h = omega arith
get_or-IsU32 (x ∷ xs) zero h = ground (arith, h)
get_or-IsU32 (x ∷ xs) (suc i) h = get_or-IsU32 xs i (ground (arith, h))

byte_entry-IsU32 : (c : ℕ) → IsU32 (byte_entry c)
unfolding byte_entry all_words
byte_entry-IsU32 c = get_or-IsU32 byte_extension_table c refl

step1-IsU32 : (l b : ℕ) → IsU32 l → IsU32 (step1 l b)
unfolding step1
step1-IsU32 l b h =
    bit_xor-lt 32 (byte_entry (bit_xor (bit_and l 0xff) b)) (shr l 8)
      (byte_entry-IsU32 (bit_xor (bit_and l 0xff) b)) (omega arith)

pub steps1-IsU32 : (bytes : Bytes) (l : ℕ) → IsU32 l → IsU32 (steps1 l bytes)
unfolding steps1
steps1-IsU32 [] l h = h
steps1-IsU32 (b ∷ bytes) l h = steps1-IsU32 bytes (step1 l b) (step1-IsU32 l b h)

pub portable-append :
    (crc : ℕ) (a b : Bytes)
    → extend_bytewise (extend_bytewise crc a) b ≡ extend_bytewise crc (a ++ b)
unfolding extend_bytewise
portable-append crc a b =
    ap (λ t. bit_xor t crc32_xor)
      (ap (λ l. steps1 l b) (xor_twice _ crc32_xor)
        ∙ sym (steps1-append (bit_xor crc crc32_xor) a b))

pub portable-IsU32 : (crc : ℕ) (a : Bytes) → IsU32 crc → IsU32 (extend_bytewise crc a)
unfolding extend_bytewise
portable-IsU32 crc a h =
    bit_xor-lt 32 _ crc32_xor (steps1-IsU32 a _ (bit_xor-lt 32 crc crc32_xor h (omega arith)))
      (omega arith)

-- The portable checksum.
abbrev pub portable : Checksum
portable = record {
  extend = extend_bytewise;
  extend-append = portable-append;
  extend-IsU32 = portable-IsU32;
}
