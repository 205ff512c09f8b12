-- ===== src/Log/Reader/Scan.antt =====
-- leveldb/__detail/log_reader.cc: `read_record`, which joins the fragments of a record.
pub mod Skip
pub mod Total
use simple_leveldb.Base.{
  ℕ, zero, suc, ◌+◌, ◌-◌, ◌*◌, ◌/◌, ◌%◌, ◌^◌, Bool, true, false, not, ◌&&◌, ◌||◌, ltb, leb, ◌==◌,
  if◌then◌else◌, List, [], ◌∷◌, ◌++◌, Bytes, length, Option, none, some, codes, sub64, u64,
}
use simple_leveldb.Crc32c.{Checksum}
use simple_leveldb.Env.{SequentialFile}
use simple_leveldb.Filename.{decimal}
use simple_leveldb.Log.{
  full_type, first_type, middle_type, last_type, type_number, block_size, header_size,
}
use simple_leveldb.Log.Reader.{
  Reader, Round, again, returns, report_drop, report_corruption, k_eof, k_bad_record,
  read_physical_record,
}
use simple_leveldb.Status.{is_ok}

-- The variables of `read_record`'s loop; `fragment` keeps its value over a round that sets none.
pub record Scan : Type 0 where
  pub scratch : Bytes
  pub in_fragmented_record : Bool
  pub prospective_record_offset : ℕ
  pub fragment : Bytes

-- What the `switch` does with a physical record: goes on, or returns `true` with the record, or
-- returns `false`. The last two hold the scratch string too.
pub data Outcome : Type 0 where
  go_on : Reader → Scan → Outcome
  found : Reader → Bytes → Bytes → Outcome
  nothing : Reader → Bytes → Outcome

partial_record : Reader → Scan → Bytes → Reader
partial_record r s reason =
    if s.in_fragmented_record && not (length s.scratch == 0)
    then report_corruption r (length s.scratch) reason
    else r

on_full : Reader → Scan → ℕ → Outcome
unfolding partial_record
on_full r s offset =
    let reported = partial_record r s (codes "partial record without end(1)") in
    found (record reported { last_record_offset = offset }) s.fragment []

on_first : Reader → Scan → ℕ → Outcome
unfolding partial_record
on_first r s offset = go_on (partial_record r s (codes "partial record without end(2)")) (record s {
  prospective_record_offset = offset;
  scratch = s.fragment;
  in_fragmented_record = true;
})

on_middle : Reader → Scan → Outcome
on_middle r s =
    if not s.in_fragmented_record
    then go_on
        (report_corruption r (length s.fragment) (codes "missing start of fragmented record(1)")) s
    else go_on r (record s { scratch = s.scratch ++ s.fragment })

on_last : Reader → Scan → Outcome
on_last r s =
    let whole = s.scratch ++ s.fragment in
    if not s.in_fragmented_record
    then go_on
        (report_corruption r (length s.fragment) (codes "missing start of fragmented record(2)")) s
    else found (record r { last_record_offset = s.prospective_record_offset }) whole whole

on_eof : Reader → Scan → Outcome
on_eof r s = nothing r (if s.in_fragmented_record then [] else s.scratch)

on_bad_record : Reader → Scan → Outcome
on_bad_record r s =
    if s.in_fragmented_record
    then go_on (report_corruption r (length s.scratch) (codes "error in middle of record"))
        (record s { in_fragmented_record = false; scratch = [] })
    else go_on r s

on_unknown : Reader → Scan → ℕ → Outcome
on_unknown r s type =
    let dropped = length s.fragment + (if s.in_fragmented_record then length s.scratch else 0) in
    go_on (report_corruption r dropped (codes "unknown record type " ++ decimal type))
      (record s { in_fragmented_record = false; scratch = [] })

-- `switch ( record_type )`
unfoldable pub switch_type : Reader → Scan → ℕ → ℕ → Outcome
unfolding on_full on_first on_middle on_last on_eof on_bad_record on_unknown
switch_type r s type offset =
    if type == type_number full_type
    then on_full r s offset
    else if type == type_number first_type
    then on_first r s offset
    else if type == type_number middle_type
    then on_middle r s
    else if type == type_number last_type
    then on_last r s
    else if type == k_eof
    then on_eof r s
    else if type == k_bad_record
    then on_bad_record r s
    else on_unknown r s type

-- The test of `resyncing_` in front of the `switch`.
unfoldable pub handle : Reader → Scan → ℕ → ℕ → Outcome
handle r s type offset =
    if r.resyncing
    then (if type == type_number middle_type
        then go_on r s
        else if type == type_number last_type
        then go_on (record r { resyncing = false }) s
        else switch_type (record r { resyncing = false }) s type offset)
    else switch_type r s type offset

-- The result of `read_record`, with the strings and the objects that it changes.
pub record ReadResult (F : Type 0) : Type 0 where
  pub success : Bool
  pub content : Bytes
  pub scratch : Bytes
  pub reader : Reader
  pub file : F

module _ {F : Type 0} where
  unfoldable pub follow :
      Outcome → F → (Reader → F → Scan → Option (ReadResult F)) → Option (ReadResult F)
  follow (go_on r s) f continue = continue r f s
  follow (found r content scratch) f continue =
      some (record { success = true; content = content; scratch = scratch; reader = r; file = f })
  follow (nothing r scratch) f continue =
      some (record { success = false; content = []; scratch = scratch; reader = r; file = f })

  unfoldable pub dispatch :
      Round F → Scan → (Reader → F → Scan → Option (ReadResult F)) → Option (ReadResult F)
  dispatch (again r f) s continue = none
  dispatch (returns type fragment r f) s continue =
      let offset =
        sub64 (sub64 (sub64 r.end_of_buffer_offset (length r.buffer)) header_size)
          (length fragment) in
      follow (handle r (record s { fragment = fragment }) type offset) f continue

module _ {F : Type 0} (crc : Checksum) (file : SequentialFile F) where
  -- `none` is fuel that ran out.
  unfoldable pub scan_loop : ℕ → Reader → F → Scan → Option (ReadResult F)
  scan_loop zero r f s = none
  scan_loop (suc fuel) r f s =
      dispatch (read_physical_record crc file r f s.fragment) s
        (λ r' f' s'. scan_loop fuel r' f' s')

  -- The result is whether the file could be put at the block of the initial offset.
  unfoldable pub skip_to_initial_block : Reader → F → Bool × Reader × F
  skip_to_initial_block r f =
      let offset_in_block = r.initial_offset % block_size in
      let block_start = r.initial_offset - offset_in_block in
      let start =
        if ltb (block_size - 6) offset_in_block
        then u64 (block_start + block_size)
        else block_start in
      let placed = record r { end_of_buffer_offset = start } in
      let (s, f') = file.skip f start in
      if ltb 0 start
      then (if not (is_ok s) then (false, report_drop placed start s, f') else (true, placed, f'))
      else (true, placed, f)

  unfoldable pub start_scan : ℕ → Reader → F → Option (ReadResult F)
  start_scan fuel r f = scan_loop fuel r f (record {
    scratch = [];
    in_fragmented_record = false;
    prospective_record_offset = 0;
    fragment = [];
  })

  -- With the strings of the caller, which the early `return false` leaves as they are.
  unfoldable pub read_record : ℕ → Reader → F → Bytes → Bytes → Option (ReadResult F)
  read_record fuel r f content scratch =
      let (skipped, r', f') = skip_to_initial_block r f in
      if ltb r.last_record_offset r.initial_offset
      then (if skipped
          then some (record {
            success = false;
            content = content;
            scratch = scratch;
            reader = r';
            file = f';
          })
          else start_scan fuel r' f')
      else start_scan fuel r f
