-- ===== src/Log/RoundTrip/Whole.antt =====
-- A whole log, written and read back.
use simple_leveldb.Base.{
  ℕ, suc, ◌+◌, ◌≤◌, arith, Bool, true, false, ltb, List, [], ◌∷◌, ◌++◌, Bytes, length, some, sub64,
  ◌≡◌, refl,
}
use simple_leveldb.Crc32c.{Checksum}
use simple_leveldb.Env.{memory_source}
use simple_leveldb.Log.{block_size, header_size}
use simple_leveldb.Log.Reader.{Reader, new_reader}
use simple_leveldb.Log.Reader.Scan.{
  follow, dispatch, handle, switch_type, scan_loop, start_scan, read_record,
}
use simple_leveldb.Log.Writer.{Writer, new_writer}
use simple_leveldb.Log.Writer.Memory.{full_header, after_pad, padding, new_writer-IsSetUp}
use simple_leveldb.Status.{ok}
use simple_leveldb.Log.RoundTrip.{write_all, read_all, image, Fits}
use simple_leveldb.Log.RoundTrip.Image.{write_all-image}
use simple_leveldb.Log.RoundTrip.Reading.{At, read_next, read_end}

module _ (crc : Checksum) where
  pub read_record_next :
      (o fuel : ℕ) (sle t : Bytes) (r : Reader) (f : Bytes)
      → o ≤ block_size
      → after_pad o + 7 + length sle ≤ block_size
      → At o (padding o ++ (full_header crc sle ++ (sle ++ t))) r f
      → (r' : Reader) × (f' : Bytes) × (read_record crc memory_source (suc fuel) r f [] []
          ≡ some (record { success = true; content = sle; scratch = []; reader = r'; file = f' }))
        × At (after_pad o + (7 + length sle)) t r' f'
  unfolding read_record start_scan scan_loop dispatch follow handle switch_type
  read_record_next o fuel sle t r f bound h a =
      let (r', f', e, a') = read_next crc o sle t r f [] bound h a in
      let offset =
        sub64 (sub64 (sub64 r'.end_of_buffer_offset (length r'.buffer)) header_size) (length sle) in
      (record r' { last_record_offset = offset }, f', rw (start a.3, e, dispatch, a'.4) refl, a')
    where
      start : r.initial_offset ≡ 0 → ltb r.last_record_offset r.initial_offset ≡ false
      start z = ground arith

  pub read_record_end :
      (o fuel : ℕ) (r : Reader) (f : Bytes)
      → At o [] r f
      → (r' : Reader) × (f' : Bytes) × (read_record crc memory_source (suc fuel) r f [] []
          ≡ some (record { success = false; content = []; scratch = []; reader = r'; file = f' }))
        × (r'.reports ≡ [])
  unfolding read_record start_scan scan_loop dispatch follow handle switch_type
  read_record_end o fuel r f a =
      let (r', f', e, resyncing, reports) = read_end crc o r f [] a in
      (r', f', rw (start a.3, e, dispatch, resyncing) refl, reports)
    where
      start : r.initial_offset ≡ 0 → ltb r.last_record_offset r.initial_offset ≡ false
      start z = ground arith

  read_all-image :
      (o : ℕ) (sles : List Bytes) (rounds fuel : ℕ) (r : Reader) (f : Bytes)
      → o ≤ block_size
      → Fits o sles
      → At o (image crc o sles) r f
      → (r' : Reader) × (read_all crc (length sles + suc rounds) (suc fuel) r f
          ≡ some (sles, r', true))
        × (r'.reports ≡ [])
  unfolding read_all
  read_all-image o [] rounds fuel r f bound h a =
      let (r', f', e, reports) = read_record_end o fuel r f a in
      (r', rw (start, e, read_all) refl, reports)
    where
      start : 0 + suc rounds ≡ suc rounds
      start = omega arith
  read_all-image o (sle ∷ sles) rounds fuel r f bound h a =
      let rest = image crc (after_pad o + (7 + length sle)) sles in
      let (r₁, f₁, e₁, a₁) = read_record_next o fuel sle rest r f bound h.0 a in
      let (r₂, e₂, reports) =
        read_all-image (after_pad o + (7 + length sle)) sles rounds fuel r₁ f₁ (omega (arith, h.0))
          h.1 a₁ in
      (r₂, rw (next, e₁, read_all, e₂) refl, reports)
    where
      next : suc (length sles) + suc rounds ≡ suc (length sles + suc rounds)
      next = omega arith

  -- The offsets 0 and `block_size` are the same place.
  pub last-Fits : (sles : List Bytes) → Fits 0 sles → Fits block_size sles
  last-Fits [] h = h
  last-Fits (sle ∷ sles) h = h

  pub first-Fits :
      (sles : List Bytes) (garbage : ℕ)
      → Fits 0 sles
      → Fits (new_writer crc garbage 0).block_offset sles
  unfolding new_writer
  first-Fits sles garbage h = h

  pub new_reader-At :
      (sles : List Bytes) (reporting checksum : Bool)
      → At block_size
          (image crc block_size sles)
          (new_reader reporting checksum 0)
          (image crc 0 sles)
  unfolding new_reader
  new_reader-At sles reporting checksum =
      (refl, same sles, λ e. absurd (ground arith), refl, refl, refl)
    where
      same : (sles : List Bytes) → image crc 0 sles ≡ image crc block_size sles
      same [] = refl
      same (sle ∷ sles) = refl

  -- What the writer puts into an empty file, the reader gives back: when each record fits the block
  -- that its header is in, `add_record` returns `ok` for each, and reading the file from its start with or
  -- without checksums gives the same records in order, then `false`, and nothing is reported. The
  -- second fuel bounds the physical records of one call, and any positive one is enough.
  pub read_all-write_all :
      (sles : List Bytes) (garbage fuel : ℕ) (reporting checksum : Bool)
      → Fits 0 sles
      → (w : Writer) × (f : Bytes) × (r : Reader) × (write_all crc
            (new_writer crc garbage 0)
            []
            sles
          ≡ some (ok, w, f))
        × (read_all crc (length sles + 1) (suc fuel) (new_reader reporting checksum 0) f
            ≡ some (sles, r, true))
        × (r.reports ≡ [])
  unfolding new_writer
  read_all-write_all sles garbage fuel reporting checksum h =
      let (w, e) =
        write_all-image crc (new_writer crc garbage 0) [] sles (first-Fits sles garbage h)
          (new_writer-IsSetUp crc garbage 0) in
      let (r, e', reports) =
        read_all-image block_size sles 0 fuel (new_reader reporting checksum 0) (image crc 0 sles)
          (omega arith) (last-Fits sles h) (new_reader-At sles reporting checksum) in
      (w, image crc 0 sles, r, e, e', reports)
