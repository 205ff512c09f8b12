-- ===== src/Log/Reader/Scan/Total.antt =====
-- log_reader.cc: the rounds of `read_record` on a file in memory.
use simple_leveldb.Base.{
  ℕ, zero, suc, ◌+◌, ◌<◌, arith, Bytes, length, Option, some, ◌≡◌, refl, inl, inr, Bool-cases,
  sub64, ltb,
}
use simple_leveldb.Crc32c.{Checksum}
use simple_leveldb.Env.{memory_source}
use simple_leveldb.Log.{header_size}
use simple_leveldb.Status.{is_ok}
use simple_leveldb.Log.Reader.{Reader, k_eof, returns, report_corruption, read_physical_record}
use simple_leveldb.Log.Reader.Physical.{Uses, read_physical_record-Uses, read_physical_record_total}
use simple_leveldb.Log.Reader.Scan.Skip.{skip_to_initial_block_succeeds}
use simple_leveldb.Log.Reader.Scan.{
  Scan, Outcome, go_on, found, nothing, ReadResult, switch_type, handle, follow, dispatch,
  scan_loop, read_record, start_scan,
}

-- What goes on keeps the buffer, and does not follow the end of the file.
abbrev Keeps : ℕ → ℕ → Outcome → Type 0
Keeps n type (go_on r s) = (length r.buffer ≡ n) × (type ≡ k_eof → ⊥)
Keeps n type (found r content scratch) = Unit
Keeps n type (nothing r scratch) = Unit

handle-Keeps :
    (r : Reader) (s : Scan) (type offset : ℕ)
    → Keeps (length r.buffer) type (handle r s type offset)
unfolding handle switch_type report_corruption
handle-Keeps r s type offset = ground arith

module _ {F : Type 0} where
  abbrev Ends : Option (ReadResult F) → Type 0
  Ends x = (a : ReadResult F) × (x ≡ some a)

  follow-Ends :
      (n type : ℕ) (o : Outcome) (f : F) (continue : Reader → F → Scan → Option (ReadResult F))
      → Keeps n type o
      → ((r : Reader) (s : Scan) → length r.buffer ≡ n → (type ≡ k_eof → ⊥) → Ends (continue r f s))
      → Ends (follow o f continue)
  unfolding follow
  follow-Ends n type (go_on r s) f continue k go = go r s k.0 k.1
  follow-Ends n type (found r content scratch) f continue k go = (_, refl)
  follow-Ends n type (nothing r scratch) f continue k go = (_, refl)

dispatch_step :
    (crc : Checksum) (fuel : ℕ) (r : Reader) (f : Bytes) (s : Scan) {type : ℕ} {fragment : Bytes}
    {r' : Reader} {f' : Bytes}
    → read_physical_record crc memory_source r f s.fragment ≡ returns type fragment r' f'
    → scan_loop crc memory_source (suc fuel) r f s
      ≡ follow
          (handle r'
            (record s { fragment = fragment })
            type
            (sub64
              (sub64 (sub64 r'.end_of_buffer_offset (length r'.buffer)) header_size)
              (length fragment)))
          f'
          (λ q g t. scan_loop crc memory_source fuel q g t)
unfolding scan_loop dispatch
dispatch_step crc fuel r f s e = rw (e, dispatch)

scan_loop_total :
    (crc : Checksum) (fuel : ℕ) (r : Reader) (f : Bytes) (s : Scan)
    → length r.buffer + length f < fuel
    → Ends (scan_loop crc memory_source fuel r f s)
scan_loop_total crc zero r f s h = absurd (omega arith)
scan_loop_total crc (suc fuel) r f s h =
    let (type, fragment, r', f', e) = read_physical_record_total crc memory_source r f s.fragment in
    let uses : Uses crc (length r.buffer + length f) (returns type fragment r' f') =
      rw e at (read_physical_record-Uses crc r f s.fragment) in
    rw (dispatch_step crc fuel r f s e) (
      follow-Ends (length r'.buffer) type _ f' _
        (handle-Keeps r' (record s { fragment = fragment }) type _)
        (λ q t same open'. scan_loop_total crc fuel q f' t (ground arith)))

-- On a file in memory `read_record` ends: as much fuel as there are bytes to read, and one more,
-- is enough.
pub read_record_total :
    (crc : Checksum) (fuel : ℕ) (r : Reader) (f content scratch : Bytes)
    → length r.buffer + length f < fuel
    → (a : ReadResult Bytes) × (read_record crc memory_source fuel r f content scratch ≡ some a)
unfolding read_record start_scan is_ok
read_record_total crc fuel r f content scratch h =
    elim (Bool-cases (ltb r.last_record_offset r.initial_offset)) [
      | inl before ↦
          rw (before, (skip_to_initial_block_succeeds crc memory_source r f (λ g n. refl)).0)
            (_, refl)
      | inr after ↦ rw after (scan_loop_total crc fuel r f _ h)
    ]
