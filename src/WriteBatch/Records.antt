-- ===== src/WriteBatch/Records.antt =====
-- The records of a batch that is built by `put`.
use simple_leveldb.Base.{
  ℕ, arith, ◌>>=◌, Option, some, List, [], ◌∷◌, ◌++◌, Bytes, All, length, IsU32, ◌≡◌, refl, sym, ap,
  ◌∙◌, append_assoc, append-nil,
}
use simple_leveldb.Coding.{encode_fixed32, encode_fixed64, encode_varint32}
use simple_leveldb.Coding.RoundTrip.{put_length_prefixed_slice-eq}
use simple_leveldb.WriteBatch.{put, cleared}
use simple_leveldb.WriteBatch.Header.{batch, count-batch, set_count-batch}

-- The form that the comment in the source gives: the type, and two strings with their lengths.
abbrev pub put_record : Bytes × Bytes → Bytes
put_record (key, value) =
    1 ∷ (encode_varint32 (length key) ++ (key ++ (encode_varint32 (length value) ++ value)))

abbrev pub put_records : List (Bytes × Bytes) → Bytes
put_records [] = []
put_records (r ∷ rs) = put_record r ++ put_records rs

abbrev pub IsPair : Bytes × Bytes → Type 0
IsPair (key, value) = IsU32 (length key) × IsU32 (length value)

-- One `put` after another.
unfoldable pub put_all : Bytes → List (Bytes × Bytes) → Option Bytes
put_all rep [] = some rep
put_all rep ((key, value) ∷ pairs) = do rep' ← put rep key value; put_all rep' pairs

put-batch :
    (seq n : ℕ) (records key value : Bytes)
    → IsU32 n
    → IsPair (key, value)
    → put (batch seq n records) key value ≡ some (batch seq n (records ++ put_record (key, value)))
unfolding put
put-batch seq n records key value h (k, v) =
    rw
      (
        count-batch seq n records h,
        set_count-batch seq n n records,
        put_length_prefixed_slice-eq _ key k,
        put_length_prefixed_slice-eq _ value v,
      )
      (ap some (simp append_assoc refl))

put_all-batch :
    (pairs : List (Bytes × Bytes)) (seq n : ℕ) (records : Bytes)
    → IsU32 n
    → All IsPair pairs
    → put_all (batch seq n records) pairs ≡ some (batch seq n (records ++ put_records pairs))
unfolding put_all
put_all-batch [] seq n records h k = ap (λ t. some (batch seq n t)) (sym (append-nil records))
put_all-batch ((key, value) ∷ pairs) seq n records h k =
    rw (put-batch seq n records key value h k.0, put_all)
      (put_all-batch pairs seq n (records ++ put_record (key, value)) h k.1
        ∙ ap (λ t. some (batch seq n t))
            (append_assoc records (put_record (key, value)) (put_records pairs)))

-- A batch filled by `put` holds the documented records of all pairs in order, behind a header whose
-- sequence number and whose count are 0, however many pairs there are.
pub put_all-cleared :
    (pairs : List (Bytes × Bytes))
    → All IsPair pairs
    → put_all cleared pairs ≡ some (batch 0 0 (put_records pairs))
put_all-cleared pairs h =
    ap (λ rep. put_all rep pairs) empty ∙ put_all-batch pairs 0 0 [] (omega arith) h
  where
    empty : cleared ≡ batch 0 0 []
    empty = unfold encode_fixed64 in unfold encode_fixed32 in refl
