-- ===== src/Log/Reader.antt =====
-- leveldb/__detail/log_reader.cc: the reader of a log. The file is any `SequentialFile`, and the
-- checksum any `Checksum`. What the reporter is told is kept as a list.
pub mod Physical
pub mod Parse
pub mod Scan
use simple_leveldb.Base.{
  ℕ, zero, suc, ◌+◌, ◌-◌, ◌*◌, ◌/◌, ◌%◌, ◌^◌, Bool, true, false, not, ◌&&◌, ◌||◌, bit_and, bit_or,
  ltb, leb, ◌==◌, if◌then◌else◌, List, [], ◌∷◌, ◌++◌, Bytes, length, take, drop, get_or, Option,
  none, some, codes, shl, sub64, u64,
}
use simple_leveldb.Coding.{decode_fixed32}
use simple_leveldb.Crc32c.{Checksum, value, unmask}
use simple_leveldb.Env.{SequentialFile}
use simple_leveldb.Log.{
  zero_type, full_type, first_type, middle_type, last_type, type_number, max_record_type,
  block_size, header_size,
}
use simple_leveldb.Status.{Status, is_ok, corruption}

-- `reporting` tells whether there is a reporter, and `reports` is what it was told.
pub record Reader : Type 0 where
  pub reporting : Bool
  pub reports : List (ℕ × Status)
  pub checksum : Bool
  pub buffer : Bytes
  pub eof : Bool
  pub last_record_offset : ℕ
  pub end_of_buffer_offset : ℕ
  pub initial_offset : ℕ
  pub resyncing : Bool

unfoldable pub new_reader : Bool → Bool → ℕ → Reader
new_reader reporting checksum initial_offset = record {
  reporting = reporting;
  reports = [];
  checksum = checksum;
  buffer = [];
  eof = false;
  last_record_offset = 0;
  end_of_buffer_offset = 0;
  initial_offset = initial_offset;
  resyncing = ltb 0 initial_offset;
}

abbrev pub k_eof : ℕ
k_eof = max_record_type + 1

abbrev pub k_bad_record : ℕ
k_bad_record = max_record_type + 2

unfoldable pub report_drop : Reader → ℕ → Status → Reader
report_drop r bytes reason =
    if r.reporting
      && leb r.initial_offset (sub64 (sub64 r.end_of_buffer_offset (length r.buffer)) bytes)
    then record r { reports = r.reports ++ (bytes, reason) ∷ [] }
    else r

unfoldable pub report_corruption : Reader → ℕ → Bytes → Reader
unfolding report_drop
report_corruption r bytes reason = report_drop r bytes (corruption reason [])

-- `const uint32_t type = header[ 6 ]`, where `char` is signed.
abbrev pub type_of_byte : ℕ → ℕ
type_of_byte b = if ltb b 128 then b else 2 ^ 32 - 256 + b

-- `a | ( b << 8 )` of two bytes of the header.
abbrev pub length_of_bytes : ℕ → ℕ → ℕ
length_of_bytes a b = bit_or (bit_and a 255) (shl (bit_and b 255) 8)

-- Whether the checksum in the header is that of the type and the fragment.
unfoldable pub checksum_matches : Checksum → Bytes → ℕ → Bool
checksum_matches crc header n = elim (decode_fixed32 header) [
  | none ↦ false
  | some masked ↦ value crc (take (1 + n) (drop 6 header)) == unmask masked
]

-- What a round of `read_physical_record` ends in: `continue`, or the value returned with the slice
-- that `result` points to.
pub data Round (F : Type 0) : Type 0 where
  again : Reader → F → Round F
  returns : ℕ → Bytes → Reader → F → Round F

module _ {F : Type 0} (crc : Checksum) (file : SequentialFile F) where
  -- The buffer is too short for a header.
  unfoldable pub refill : Reader → F → Bytes → Round F
  refill r f result =
      let (s, bytes, f') = file.read f block_size in
      let grown = record r {
        buffer = bytes;
        end_of_buffer_offset = u64 (r.end_of_buffer_offset + length bytes);
      } in
      let failed = report_drop (record grown { buffer = [] }) block_size s in
      if not r.eof
      then (if not (is_ok s)
          then returns k_eof result (record failed { eof = true }) f'
          else again (record grown { eof = if ltb (length bytes) block_size then true else false })
              f')
      else returns k_eof result (record r { buffer = [] }) f

  -- The record behind a header whose fields are in order.
  unfoldable pub take_fragment : Reader → F → ℕ → ℕ → Bytes → Round F
  take_fragment r f type n result =
      let rest = record r { buffer = drop (header_size + n) r.buffer } in
      let start =
        sub64 (sub64 (sub64 rest.end_of_buffer_offset (length rest.buffer)) header_size) n in
      if ltb start r.initial_offset
      then returns k_bad_record [] rest f
      else returns type (take n (drop header_size r.buffer)) rest f

  unfoldable pub parse_header : Reader → F → Bytes → Round F
  parse_header r f result =
      let type = type_of_byte (get_or r.buffer 6 0) in
      let n = length_of_bytes (get_or r.buffer 4 0) (get_or r.buffer 5 0) in
      let cleared = record r { buffer = [] } in
      if ltb (length r.buffer) (header_size + n)
      then (if not r.eof
          then returns k_bad_record result
              (report_corruption cleared (length r.buffer) (codes "bad record length")) f
          else returns k_eof result cleared f)
      else if type == type_number zero_type && n == 0
      then returns k_bad_record result cleared f
      else if r.checksum && not (checksum_matches crc r.buffer n)
      then returns k_bad_record result
          (report_corruption cleared (length r.buffer) (codes "checksum mismatch")) f
      else take_fragment r f type n result

  unfoldable pub read_round : Reader → F → Bytes → Round F
  read_round r f result =
      if ltb (length r.buffer) header_size then refill r f result else parse_header r f result

  unfoldable pub second_round : Round F → Bytes → Round F
  second_round (again r f) result = read_round r f result
  second_round (returns type fragment r f) result = returns type fragment r f

  -- The `while ( true )` loop: a round that fills the buffer is the only one to continue, and the
  -- next one returns. `again` would be a third round.
  unfoldable pub read_physical_record : Reader → F → Bytes → Round F
  read_physical_record r f result = second_round (read_round r f result) result
