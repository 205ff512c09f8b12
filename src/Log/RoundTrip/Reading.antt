-- ===== src/Log/RoundTrip/Reading.antt =====
-- How the reader moves through such a file, record by record.
use simple_leveldb.Base.{
  ℕ, ◌+◌, ◌-◌, ◌^◌, ◌≤◌, ◌<◌, arith, true, false, ltb, if◌then◌else◌, [], ◌++◌, Bytes, length, take,
  drop, replicate, u64, ◌≡◌, refl, inl, inr, append_assoc, ◌∙◌, ap, sym, length-append, length-take,
  length-replicate, take-append, drop-append, take-nil, drop-nil, Bool-cases,
}
use simple_leveldb.Coding.{encode_fixed32}
use simple_leveldb.Crc32c.{Checksum}
use simple_leveldb.Env.{memory_source}
use simple_leveldb.Log.{block_size, header_size}
use simple_leveldb.Log.Reader.{
  Reader, Round, again, returns, read_round, refill, second_round, read_physical_record, k_eof,
  parse_header,
}
use simple_leveldb.Log.Reader.Parse.{parse_header_full}
use simple_leveldb.Log.Writer.Memory.{full_header, after_pad, padding}
use simple_leveldb.Status.{is_ok}

-- A reader without an initial offset and without a report, in front of the bytes `t` of a log, at
-- the offset `o` of a block: the rest of the block is in the buffer, what follows in the file.
abbrev pub At : ℕ → Bytes → Reader → Bytes → Type 0
At o t r f =
    (r.buffer ≡ take (block_size - o) t)
    × (f ≡ drop (block_size - o) t)
    × (r.eof ≡ true → length t < block_size - o)
    × (r.initial_offset ≡ 0)
    × (r.resyncing ≡ false)
    × (r.reports ≡ [])

-- `x` returns the full record `sle` and leaves the reader at `o` in front of `t`.
abbrev pub Gives : Bytes → ℕ → Bytes → Round Bytes → Type 0
Gives sle o t x = (r : Reader) × (f : Bytes) × (x ≡ returns 1 sle r f) × At o t r f

buffered : (r : Reader) (b : Bytes) → r.buffer ≡ b → r ≡ record r { buffer = b }
buffered r b e = ap (λ x. record r { buffer = x }) e

framed_length :
    (crc : Checksum) (sle : Bytes) → length (full_header crc sle ++ sle) ≡ 7 + length sle
unfolding encode_fixed32
framed_length crc sle = omega arith

-- How the rest of the block, and of the file, begin with a record.
module _ (crc : Checksum) (o : ℕ) (sle t : Bytes) (h : o + 7 + length sle ≤ block_size) where
  abbrev left : ℕ
  left = block_size - (o + (7 + length sle))

  abbrev framed : Bytes
  framed = full_header crc sle ++ sle

  split : block_size - o ≡ length framed + left
  split = omega (arith, framed_length crc sle)

  whole : full_header crc sle ++ (sle ++ t) ≡ framed ++ t
  whole = sym (append_assoc (full_header crc sle) sle t)

  take_framed :
      take (block_size - o) (full_header crc sle ++ (sle ++ t))
      ≡ full_header crc sle ++ (sle ++ take left t)
  take_framed =
      ap (λ k. take k (full_header crc sle ++ (sle ++ t))) split
      ∙ ap (take (length framed + left)) whole
      ∙ take-append framed t left
      ∙ append_assoc (full_header crc sle) sle (take left t)

  drop_framed : drop (block_size - o) (full_header crc sle ++ (sle ++ t)) ≡ drop left t
  drop_framed =
      ap (λ k. drop k (full_header crc sle ++ (sle ++ t))) split
      ∙ ap (drop (length framed + left)) whole
      ∙ drop-append framed t left

  total_length : length (full_header crc sle ++ (sle ++ t)) ≡ 7 + length sle + length t
  total_length =
      ap length whole ∙ length-append framed t ∙ ap (λ n. n + length t) (framed_length crc sle)

  -- The header and the bytes of the record are in the buffer.
  read_round_here :
      (r : Reader) (f result : Bytes)
      → At o (full_header crc sle ++ (sle ++ t)) r f
      → Gives sle (o + (7 + length sle)) t (read_round crc memory_source r f result)
  unfolding read_round
  read_round_here r f result a =
      let buffer_is : r.buffer ≡ framed ++ take left t =
        a.0 ∙ take_framed ∙ sym (append_assoc (full_header crc sle) sle (take left t)) in
      let buffer = buffered r _ (a.0 ∙ take_framed) in
      let start = a.3 in
      let small : length sle < 2 ^ 16 = omega arith in
      let read = parse_header_full crc memory_source r f sle (take left t) result small start in
      let long : ltb (length r.buffer) header_size ≡ false =
        ground
          (arith, ap length buffer_is, framed_length crc sle, length-append framed (take left t)) in
      (
        record r { buffer = take left t },
        f,
        rw long (ap (λ x. parse_header crc memory_source x f result) buffer ∙ read),
        (refl, a.1 ∙ drop_framed, λ e. omega (arith, a.2 e, total_length), a.3, a.4, a.5),
      )

module _ (crc : Checksum) where
  -- The trailer of a block is dropped when the next block is read.
  read_round_pad :
      (o : ℕ) (t : Bytes) (r : Reader) (f result : Bytes)
      → block_size - o < 7
      → At o (replicate (block_size - o) 0 ++ t) r f
      → (r' : Reader) × (f' : Bytes) × (read_round crc memory_source r f result ≡ again r' f')
        × At 0 t r' f'
  unfolding read_round refill is_ok
  read_round_pad o t r f result h a =
      let more = record r {
        buffer = take block_size t;
        end_of_buffer_offset = u64 (r.end_of_buffer_offset + length (take block_size t));
        eof = if ltb (length (take block_size t)) block_size then true else false;
      } in
      (
        more,
        drop block_size t,
        rw (short, open', file) refl,
        (refl, refl, λ e. ground (arith, e, length-take block_size t), a.3, a.4, a.5),
      )
    where
      zeros : length (replicate (block_size - o) 0 ++ t) ≡ block_size - o + length t
      zeros =
          length-append (replicate (block_size - o) 0) t
          ∙ ap (λ n. n + length t) (length-replicate {A = ℕ} (block_size - o) 0)

      short : ltb (length r.buffer) header_size ≡ true
      short = ground (
        arith,
        h,
        ap length a.0,
        length-take (block_size - o) (replicate (block_size - o) 0 ++ t),
      )

      open' : r.eof ≡ false
      open' = ground (arith, a.2, zeros)

      file : f ≡ t
      file =
          a.1
          ∙ ap (λ n. drop n (replicate (block_size - o) 0 ++ t))
              (omega (arith, length-replicate {A = ℕ} (block_size - o) 0))
          ∙ drop-append (replicate (block_size - o) 0) t 0

  read_next_pad :
      (o : ℕ) (sle t : Bytes) (r : Reader) (f result : Bytes)
      → block_size - o < 7
      → 0 + 7 + length sle ≤ block_size
      → At o (replicate (block_size - o) 0 ++ (full_header crc sle ++ (sle ++ t))) r f
      → Gives sle (0 + (7 + length sle)) t (read_physical_record crc memory_source r f result)
  unfolding read_physical_record second_round
  read_next_pad o sle t r f result short h a =
      let (r₁, f₁, e₁, a₁) =
        read_round_pad o (full_header crc sle ++ (sle ++ t)) r f result short a in
      let (r₂, f₂, e₂, a₂) = read_round_here crc 0 sle t h r₁ f₁ result a₁ in
      (r₂, f₂, rw (e₁, second_round) e₂, a₂)

  read_next_here :
      (o : ℕ) (sle t : Bytes) (r : Reader) (f result : Bytes)
      → o + 7 + length sle ≤ block_size
      → At o (full_header crc sle ++ (sle ++ t)) r f
      → Gives sle (o + (7 + length sle)) t (read_physical_record crc memory_source r f result)
  unfolding read_physical_record second_round
  read_next_here o sle t r f result h a =
      let (r₁, f₁, e₁, a₁) = read_round_here crc o sle t h r f result a in
      (r₁, f₁, rw (e₁, second_round) refl, a₁)

  -- The record behind the padding, from either place.
  pub read_next :
      (o : ℕ) (sle t : Bytes) (r : Reader) (f result : Bytes)
      → o ≤ block_size
      → after_pad o + 7 + length sle ≤ block_size
      → At o (padding o ++ (full_header crc sle ++ (sle ++ t))) r f
      → Gives sle
          (after_pad o + (7 + length sle))
          t
          (read_physical_record crc memory_source r f result)
  read_next o sle t r f result bound h a = elim (Bool-cases (ltb (block_size - o) header_size)) [
    | inl e ↦ rw e (read_next_pad o sle t r f result (ground arith) (rw e at h) (rw e at a))
    | inr e ↦ rw e (read_next_here o sle t r f result (rw e at h) (rw e at a))
  ]

  -- Behind the last record the reader meets the end of the file, and has nothing to report.
  pub read_end :
      (o : ℕ) (r : Reader) (f result : Bytes)
      → At o [] r f
      → (r' : Reader) × (f' : Bytes) × (read_physical_record crc memory_source r f result
          ≡ returns k_eof result r' f')
        × (r'.resyncing ≡ false)
        × (r'.reports ≡ [])
  unfolding read_physical_record second_round read_round refill is_ok
  read_end o r f result a = elim (Bool-cases r.eof) [
    | inl end ↦ (record r { buffer = [] }, f, rw (buffer, end) refl, a.4, a.5)
    | inr open' ↦ (
      record r { buffer = []; end_of_buffer_offset = u64 (r.end_of_buffer_offset + 0); eof = true },
      [],
      rw (buffer, open', file) refl,
      a.4,
      a.5,
    )
  ]
    where
      buffer : r.buffer ≡ []
      buffer = a.0 ∙ take-nil (block_size - o)

      file : f ≡ []
      file = a.1 ∙ drop-nil (block_size - o)
