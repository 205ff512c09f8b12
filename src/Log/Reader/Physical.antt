-- ===== src/Log/Reader/Physical.antt =====
-- log_reader.cc: the rounds of `read_physical_record`.
use simple_leveldb.Base.{
  ℕ, ◌+◌, ◌≤◌, ◌<◌, arith, Bool, true, false, ltb, [], Bytes, codes, get_or, length, length-take,
  length-drop, ◌≡◌, refl, ◌⊎◌, inl, inr, Bool-cases,
}
use simple_leveldb.Crc32c.{Checksum}
use simple_leveldb.Env.{SequentialFile, memory_source}
use simple_leveldb.Log.{block_size, header_size}
use simple_leveldb.Log.Reader.{
  Reader, Round, k_eof, report_corruption, again, returns, refill, parse_header, take_fragment,
  length_of_bytes, read_round, second_round, read_physical_record,
}
use simple_leveldb.Status.{is_ok}

abbrev returned : {F : Type 0} → Round F → Bool
returned (again r f) = false
returned (returns type fragment r f) = true

module _ {F : Type 0} (crc : Checksum) (file : SequentialFile F) where
  abbrev Returns : Round F → Type 0
  Returns x =
      (type : ℕ) × (fragment : Bytes) × (r : Reader) × (f : F) × (x ≡ returns type fragment r f)

  returned→Returns : (x : Round F) → returned x ≡ true → Returns x
  returned→Returns (again r f) h = absurd (ground arith)
  returned→Returns (returns type fragment r f) h = (type, fragment, r, f, refl)

  -- A round that continues has filled the buffer, or seen the end of the file.
  abbrev Settled : Round F → Type 0
  Settled (again r f) = (r.eof ≡ true) ⊎ (7 ≤ length r.buffer)
  Settled (returns type fragment r f) = Unit

  refill-Settled : (r : Reader) (f : F) (result : Bytes) → Settled (refill crc file r f result)
  unfolding refill
  refill-Settled r f result = ground arith

  parse_header-returned :
      (r : Reader) (f : F) (result : Bytes) → returned (parse_header crc file r f result) ≡ true
  unfolding parse_header take_fragment
  parse_header-returned r f result = ground arith

  returned→Settled : (x : Round F) → returned x ≡ true → Settled x
  returned→Settled (again r f) h = absurd (ground arith)
  returned→Settled (returns type fragment r f) h = tt

  read_round-Settled :
      (r : Reader) (f : F) (result : Bytes) → Settled (read_round crc file r f result)
  unfolding read_round
  read_round-Settled r f result = elim (Bool-cases (ltb (length r.buffer) header_size)) [
    | inl short ↦ rw short (refill-Settled r f result)
    | inr long ↦ rw long (returned→Settled _ (parse_header-returned r f result))
  ]

  second_round-returned :
      (x : Round F) (result : Bytes) → Settled x → returned (second_round crc file x result) ≡ true
  unfolding second_round read_round refill
  second_round-returned (again r f) result h = ground (arith, parse_header-returned r f result)
  second_round-returned (returns type fragment r f) result h = refl

  -- On every file `read_physical_record` returns: it never starts a third round.
  pub read_physical_record_total :
      (r : Reader) (f : F) (result : Bytes)
      → (type : ℕ) × (fragment : Bytes) × (r' : Reader) × (f' : F) × (read_physical_record crc file
            r f result
          ≡ returns type fragment r' f')
  unfolding read_physical_record
  read_physical_record_total r f result =
      returned→Returns _ (second_round-returned _ result (read_round-Settled r f result))

-- On a file in memory each physical record uses up bytes, unless the file has ended.
module _ (crc : Checksum) where
  abbrev pub Uses : ℕ → Round Bytes → Type 0
  Uses n (again r f) = length r.buffer + length f ≤ n
  Uses n (returns type fragment r f) = (type ≡ k_eof) ⊎ (length r.buffer + length f < n)

  refill-Uses :
      (r : Reader) (f result : Bytes)
      → Uses (length r.buffer + length f) (refill crc memory_source r f result)
  unfolding refill is_ok
  refill-Uses r f result = elim (Bool-cases r.eof) [
    | inl end ↦ rw end (inl refl)
    | inr open' ↦ rw open' (omega (arith, length-take block_size f, length-drop block_size f))
  ]

  report_corruption-buffer :
      (r : Reader) (n : ℕ) (reason : Bytes) → (report_corruption r n reason).buffer ≡ r.buffer
  unfolding report_corruption
  report_corruption-buffer r n reason = ground arith

  parse_header-Uses :
      (r : Reader) (f result : Bytes)
      → 7 ≤ length r.buffer
      → Uses (length r.buffer + length f) (parse_header crc memory_source r f result)
  unfolding parse_header take_fragment
  parse_header-Uses r f result h = ground (
    arith,
    report_corruption-buffer (record r { buffer = [] }) (length r.buffer)
        (codes "bad record length"),
    report_corruption-buffer (record r { buffer = [] }) (length r.buffer)
        (codes "checksum mismatch"),
    length-drop (header_size + length_of_bytes (get_or r.buffer 4 0) (get_or r.buffer 5 0))
        r.buffer,
  )

  read_round-Uses :
      (r : Reader) (f result : Bytes)
      → Uses (length r.buffer + length f) (read_round crc memory_source r f result)
  unfolding read_round
  read_round-Uses r f result = elim (Bool-cases (ltb (length r.buffer) header_size)) [
    | inl short ↦ rw short (refill-Uses r f result)
    | inr long ↦ rw long (parse_header-Uses r f result (ground arith))
  ]

  Uses-mono : (n m : ℕ) (x : Round Bytes) → n ≤ m → Uses n x → Uses m x
  Uses-mono n m (again r f) h u = omega arith
  Uses-mono n m (returns type fragment r f) h u = omega arith

  second_round-Uses :
      (n : ℕ) (x : Round Bytes) (result : Bytes)
      → Uses n x
      → Uses n (second_round crc memory_source x result)
  unfolding second_round
  second_round-Uses n (again r f) result u =
      Uses-mono _ n (read_round crc memory_source r f result) u (read_round-Uses r f result)
  second_round-Uses n (returns type fragment r f) result u = u

  pub read_physical_record-Uses :
      (r : Reader) (f result : Bytes)
      → Uses (length r.buffer + length f) (read_physical_record crc memory_source r f result)
  unfolding read_physical_record
  read_physical_record-Uses r f result =
      second_round-Uses _ (read_round crc memory_source r f result) result
        (read_round-Uses r f result)
