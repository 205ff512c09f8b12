-- ===== src/Tests/Formats.antt =====
-- The keys, the batches, the edits and the arena.
use simple_leveldb.Base.{
  ℕ, ◌+◌, ◌*◌, ◌/◌, ◌%◌, ◌^◌, ◌<◌, ◌≤◌, arith, true, some, List, [], ◌∷◌, ◌++◌, Bytes, All, length,
  codes, ◌≡◌, refl, ◌⊎◌, inl,
}
use simple_leveldb.Coding.{encode_fixed32}
use simple_leveldb.Slice.{Sign, less, same, greater}
use simple_leveldb.Slice
use simple_leveldb.Status.{Status, ok}
use simple_leveldb.DbFormat
use simple_leveldb.DbFormat.{Comparator, type_value, type_deletion, pack_sequence_and_type}
use simple_leveldb.DbFormat.Order.{internal_key, by_age, or_else, compare-eq-by_age}
use simple_leveldb.DbFormat.Between.{find_shortest_separator_between}
use simple_leveldb.WriteBatch.{cleared, set_sequence}
use simple_leveldb.WriteBatch.Header.{batch, set_sequence-batch}
use simple_leveldb.WriteBatch.Records.{put_all, put_records, put_all-cleared}
use simple_leveldb.VersionEdit
use simple_leveldb.VersionEdit.{VersionEdit, file_meta_data, encode_to, set_compact_pointer}
use simple_leveldb.VersionEdit.Decode.{decode_from, corrupt}
use simple_leveldb.VersionEdit.Total.{Reads, Ends, decode_from_total}
use simple_leveldb.VersionEdit.RoundTrip.{IsPlain, decode_from-encode_to}
use simple_leveldb.VersionEdit.Compact.{decode_from_pointer}
use simple_leveldb.Arena.{Arena, Region, New, empty_arena, allocate, allocate_aligned, pointer_size}
use simple_leveldb.Arena.Regions.{Apart}
use simple_leveldb.Arena.Sound.{HandsOut, IsFresh, allocate-HandsOut}
use simple_leveldb.Arena.Aligned.{IsAligned, allocate_aligned-HandsOut}

-- A comparator that shortens nothing.
abbrev plain : Comparator
plain = record {
  compare = Slice.compare;
  find_shortest_separator = λ start limit. start;
  find_short_successor = λ key. key;
}

compare-eq-by_age_example :
    DbFormat.compare plain
      (internal_key (codes "k") (pack_sequence_and_type 9 type_value))
      (internal_key (codes "k") (pack_sequence_and_type 7 type_deletion))
    ≡ or_else (Slice.compare (codes "k") (codes "k")) (by_age 9 type_value 7 type_deletion)
compare-eq-by_age_example =
    compare-eq-by_age plain (codes "k") (codes "k") 9 7 type_value type_deletion (omega arith)
      (omega arith)

-- A comparator that separates by "b" where that is below the limit.
abbrev separating : Comparator
separating = record {
  compare = Slice.compare;
  find_shortest_separator =
      λ start limit. elim (Slice.compare (codes "b") limit) [ less ↦ codes "b" | _ ↦ start ];
  find_short_successor = λ key. key;
}

separating-less :
    (s l : Bytes)
    → Slice.compare s l ≡ less
    → Slice.compare (separating.find_shortest_separator s l) l ≡ less
separating-less s l e = go (Slice.compare (codes "b") l) refl
  where
    go :
        (x : Sign)
        → Slice.compare (codes "b") l ≡ x
        → Slice.compare (elim x [ less ↦ codes "b" | _ ↦ s ]) l ≡ less
    go less b = b
    go same b = e
    go greater b = e

abbrev start_key : Bytes
start_key = codes "apple" ++ (1 ∷ 0 ∷ 0 ∷ 0 ∷ 0 ∷ 0 ∷ 0 ∷ 0 ∷ [])

abbrev limit_key : Bytes
limit_key = codes "cherry" ++ (1 ∷ 0 ∷ 0 ∷ 0 ∷ 0 ∷ 0 ∷ 0 ∷ 0 ∷ [])

find_shortest_separator_between_example :
    (DbFormat.find_shortest_separator separating start_key limit_key ≡ start_key)
    ⊎ ((DbFormat.compare separating start_key
            (DbFormat.find_shortest_separator separating start_key limit_key)
          ≡ less)
        × (DbFormat.compare separating
              (DbFormat.find_shortest_separator separating start_key limit_key)
              limit_key
            ≡ less)
        × (length (DbFormat.find_shortest_separator separating start_key limit_key)
            < length start_key))
unfolding Slice.compare DbFormat.extract_user_key
find_shortest_separator_between_example =
    find_shortest_separator_between separating start_key limit_key separating-less (omega arith)
      refl

put_all-cleared_example :
    put_all cleared ((codes "k", codes "v") ∷ (codes "l", codes "w") ∷ [])
    ≡ some (batch 0 0 (put_records ((codes "k", codes "v") ∷ (codes "l", codes "w") ∷ [])))
put_all-cleared_example =
    put_all-cleared ((codes "k", codes "v") ∷ (codes "l", codes "w") ∷ [])
      ((omega arith, omega arith), ((omega arith, omega arith), tt))

set_sequence-batch_example :
    set_sequence (batch 3 2 (1 ∷ 1 ∷ 107 ∷ 1 ∷ 118 ∷ [])) (2 ^ 32 + 5)
    ≡ batch 3 ((2 ^ 32 + 5) % 2 ^ 32) (encode_fixed32 ((2 ^ 32 + 5) / 2 ^ 32) ++ (118 ∷ []))
set_sequence-batch_example = set_sequence-batch 3 2 (2 ^ 32 + 5) 1 1 107 1 (118 ∷ [])

-- An edit with a comparator, two numbers and a file.
abbrev edit : VersionEdit
edit = record VersionEdit.cleared {
  has_comparator = true;
  comparator = codes "bytewise";
  has_log_number = true;
  log_number = 300;
  has_last_sequence = true;
  last_sequence = 2 ^ 40;
  new_files = (2, file_meta_data 7 4096 (codes "a") (codes "m")) ∷ [];
}

edit-IsPlain : IsPlain edit
edit-IsPlain = (
  omega arith,
  omega arith,
  omega arith,
  omega arith,
  omega arith,
  λ e. absurd (ground arith),
  λ e. absurd (ground arith),
  λ e. refl,
  λ e. refl,
  λ e. absurd (ground arith),
  refl,
  refl,
  (
    (
      omega arith,
      omega arith,
      omega arith,
      (omega arith, omega arith),
      (omega arith, omega arith),
      refl,
    ),
    tt,
  ),
)

decode_from-encode_to_example : decode_from (encode_to edit []) ≡ some (ok, edit)
decode_from-encode_to_example = decode_from-encode_to edit edit-IsPlain

decode_from_total_example :
    (s : Status) × (e : VersionEdit) × (rest : Bytes) × (decode_from (9 ∷ 255 ∷ 7 ∷ [])
      ≡ some (s, e))
    × Reads e rest VersionEdit.cleared (9 ∷ 255 ∷ 7 ∷ [])
    × Ends e rest s
decode_from_total_example = decode_from_total (9 ∷ 255 ∷ 7 ∷ [])

decode_from_pointer_example :
    decode_from (encode_to (set_compact_pointer VersionEdit.cleared 2 (codes "key")) [])
    ≡ some (
      corrupt (codes "unknown tag"),
      record VersionEdit.cleared { deleted_files = (2, length (codes "key")) ∷ [] },
    )
decode_from_pointer_example =
    decode_from_pointer 2 b'k' (codes "ey") (omega arith) (omega arith) (omega arith) (omega arith)

-- Blocks one behind the other, at multiples of 8.
abbrev top : List Region → ℕ
top [] = 8
top ((s, m) ∷ bs) = s + m + top bs

abbrev behind : New
behind bs n = (top bs + 7) / 8 * 8

above_top : (p n : ℕ) (bs : List Region) → top bs ≤ p → All (Apart (p, n)) bs
above_top p n [] h = tt
above_top p n ((s, m) ∷ bs) h = (ground arith, above_top p n bs (omega arith))

behind-IsFresh : IsFresh behind
behind-IsFresh bs n = above_top (behind bs n) n bs (omega arith)

behind-IsAligned : IsAligned behind
behind-IsAligned bs n = omega arith

allocate-HandsOut_example : HandsOut [] 24 (allocate behind empty_arena 24)
allocate-HandsOut_example =
    allocate-HandsOut behind empty_arena [] 24 (omega arith) behind-IsFresh
      (tt, tt, inl (refl, refl))

-- Five bytes are handed out, and the next region is aligned behind them.
abbrev after_five : ℕ × Arena
after_five = allocate behind empty_arena 5

after_five_sound : HandsOut [] 5 after_five
after_five_sound =
    allocate-HandsOut behind empty_arena [] 5 (omega arith) behind-IsFresh
      (tt, tt, inl (refl, refl))

allocate_aligned-HandsOut_example :
    HandsOut ((after_five.0, 5) ∷ []) 16 (allocate_aligned behind after_five.1 16)
    × ((allocate_aligned behind after_five.1 16).0 % pointer_size ≡ 0)
allocate_aligned-HandsOut_example =
    allocate_aligned-HandsOut behind after_five.1 ((after_five.0, 5) ∷ []) 16 (omega arith)
      (omega arith) behind-IsFresh behind-IsAligned after_five_sound.1
