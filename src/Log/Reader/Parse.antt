-- ===== src/Log/Reader/Parse.antt =====
-- The reader on a buffer that begins with a full record as the writer lays it out.
use simple_leveldb.Base.{
  ℕ, suc, ◌+◌, ◌/◌, ◌%◌, ◌^◌, ◌<◌, arith, true, false, ltb, ◌==◌, ◌∷◌, ◌++◌, Bytes, length, take,
  drop, u8, shr, bit_and, length-append, take-length-append, drop-length-append, ◌≡◌, refl, IsU32,
  append_assoc, ==_refl,
}
use simple_leveldb.Base.Bits.{bit_and_mask, bit_or_above}
use simple_leveldb.Coding.{encode_fixed32}
use simple_leveldb.Coding.Fixed.{decode_fixed32-encode_fixed32}
use simple_leveldb.Crc32c.{Checksum, value, mask, unmask-mask}
use simple_leveldb.Env.{SequentialFile}
use simple_leveldb.Log.Reader.{
  Reader, returns, length_of_bytes, checksum_matches, take_fragment, parse_header,
}
use simple_leveldb.Log.Writer.Memory.{full_header}

-- The two length bytes of a header.
pub length_of_bytes_lem :
    (n : ℕ) → n < 2 ^ 16 → length_of_bytes (u8 (bit_and n 255)) (u8 (shr n 8)) ≡ n
length_of_bytes_lem n h =
    ground
      (arith, low n, low (n % 256 % 256), low (n / 256 % 256), bit_or_above 8 (n % 256) (n / 256))
  where
    low : (m : ℕ) → bit_and m 255 ≡ m % 256
    low m = bit_and_mask 8 m

checksum_body :
    (crc : Checksum) (sle rest : Bytes) (sum : ℕ)
    → value crc (1 ∷ sle) ≡ sum
    → (value crc (take (1 + length sle) (1 ∷ (sle ++ rest))) == sum) ≡ true
checksum_body crc sle rest sum e = rw (add_comm_one, take-length-append sle rest, e) (==_refl sum)
  where
    add_comm_one : 1 + length sle ≡ suc (length sle)
    add_comm_one = omega arith

checksum_matches_full :
    (crc : Checksum) (sle rest : Bytes)
    → checksum_matches crc (full_header crc sle ++ (sle ++ rest)) (length sle) ≡ true
unfolding checksum_matches
checksum_matches_full crc sle rest =
    let sum = value crc (1 ∷ sle) in
    let fits : IsU32 sum = crc.extend-IsU32 0 (1 ∷ sle) (omega arith) in
    let tail = u8 (bit_and (length sle) 255) ∷ u8 (shr (length sle) 8) ∷ 1 ∷ (sle ++ rest) in
    let stored : IsU32 (mask sum) = unfold mask in omega arith in
    rw
      (
        append_assoc (encode_fixed32 (mask sum)) _ (sle ++ rest),
        decode_fixed32-encode_fixed32 (mask sum) tail stored,
        checksum_matches,
        unmask-mask sum fits,
      )
      (unfold encode_fixed32 in checksum_body crc sle rest sum refl)

-- A header of a full record in front of the record's bytes.
parse_header_cons :
    {F : Type 0} (crc : Checksum) (file : SequentialFile F) (r : Reader) (f : F)
    (a b c d low high : ℕ) (sle rest result : Bytes)
    → length_of_bytes low high ≡ length sle
    → checksum_matches crc (a ∷ b ∷ c ∷ d ∷ low ∷ high ∷ 1 ∷ (sle ++ rest)) (length sle) ≡ true
    → r.initial_offset ≡ 0
    → parse_header crc file
        (record r { buffer = a ∷ b ∷ c ∷ d ∷ low ∷ high ∷ 1 ∷ (sle ++ rest) })
        f
        result
      ≡ returns 1 sle (record r { buffer = rest }) f
unfolding parse_header take_fragment
parse_header_cons crc file r f a b c d low high sle rest result size sum start =
    rw (size, sum, long, skipped, cut) (ground (arith, start))
  where
    long : ltb (length (a ∷ b ∷ c ∷ d ∷ low ∷ high ∷ 1 ∷ (sle ++ rest))) (7 + length sle) ≡ false
    long = ground (arith, length-append sle rest)

    seven : 7 + length sle ≡ suc (suc (suc (suc (suc (suc (suc (length sle)))))))
    seven = omega arith

    skipped : drop (7 + length sle) (a ∷ b ∷ c ∷ d ∷ low ∷ high ∷ 1 ∷ (sle ++ rest)) ≡ rest
    skipped = rw seven (drop-length-append sle rest)

    cut : take (length sle) (sle ++ rest) ≡ sle
    cut = take-length-append sle rest

pub parse_header_full :
    {F : Type 0} (crc : Checksum) (file : SequentialFile F) (r : Reader) (f : F)
    (sle rest result : Bytes)
    → length sle < 2 ^ 16
    → r.initial_offset ≡ 0
    → parse_header crc file (record r { buffer = full_header crc sle ++ (sle ++ rest) }) f result
      ≡ returns 1 sle (record r { buffer = rest }) f
parse_header_full crc file r f sle rest result h start =
    let sum = checksum_matches_full crc sle rest in
    unfold encode_fixed32 in
    parse_header_cons crc file r f _ _ _ _ _ _ sle rest result (length_of_bytes_lem (length sle) h)
      sum start
