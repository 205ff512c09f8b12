-- ===== src/WriteBatch/Header.antt =====
-- The header of a batch under its operations.
use simple_leveldb.Base.{
  ℕ, ◌/◌, ◌%◌, ◌^◌, arith, some, ◌∷◌, ◌++◌, Bytes, IsU32, ◌≡◌, refl, ap, ◌∙◌, append_assoc,
}
use simple_leveldb.Coding.{encode_fixed32, encode_fixed64}
use simple_leveldb.Coding.Fixed.{decode_fixed32-encode_fixed32}
use simple_leveldb.WriteBatch.{count, set_count, set_sequence}

-- The 12 bytes of a header, and the records.
abbrev pub batch : ℕ → ℕ → Bytes → Bytes
batch seq n records = encode_fixed64 seq ++ (encode_fixed32 n ++ records)

pub count-batch : (seq n : ℕ) (records : Bytes) → IsU32 n → count (batch seq n records) ≡ some n
unfolding count encode_fixed64
count-batch seq n records h = decode_fixed32-encode_fixed32 n records h

pub set_count-batch :
    (seq n m : ℕ) (records : Bytes) → set_count (batch seq n records) m ≡ batch seq m records
unfolding set_count encode_fixed64 encode_fixed32
set_count-batch seq n m records = refl

low_half : (s : ℕ) → encode_fixed64 s ≡ encode_fixed32 (s % 2 ^ 32) ++ encode_fixed32 (s / 2 ^ 32)
unfolding encode_fixed64 encode_fixed32
low_half s = ground arith

-- `set_sequence` leaves the sequence number of a batch with records alone: it puts the low half of its
-- argument in the place of the count, and the high half over the first four bytes of the records.
pub set_sequence-batch :
    (seq n s a b c d : ℕ) (records : Bytes)
    → set_sequence (batch seq n (a ∷ b ∷ c ∷ d ∷ records)) s
      ≡ batch seq (s % 2 ^ 32) (encode_fixed32 (s / 2 ^ 32) ++ records)
unfolding set_sequence
set_sequence-batch seq n s a b c d records =
    overwritten ∙ ap (λ t. encode_fixed64 seq ++ (t ++ records)) (low_half s) ∙ joined
  where
    overwritten :
        set_sequence (batch seq n (a ∷ b ∷ c ∷ d ∷ records)) s
        ≡ encode_fixed64 seq ++ (encode_fixed64 s ++ records)
    overwritten = unfold encode_fixed64 in unfold encode_fixed32 in refl

    joined :
        encode_fixed64 seq
          ++ ((encode_fixed32 (s % 2 ^ 32) ++ encode_fixed32 (s / 2 ^ 32)) ++ records)
        ≡ batch seq (s % 2 ^ 32) (encode_fixed32 (s / 2 ^ 32) ++ records)
    joined = ap (◌++◌ (encode_fixed64 seq)) (append_assoc (encode_fixed32 (s % 2 ^ 32)) _ records)
