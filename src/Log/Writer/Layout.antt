-- ===== src/Log/Writer/Layout.antt =====
-- log_write.cc: the places in a block that `add_record` goes through.
use simple_leveldb.Base.{
  ℕ, zero, suc, ◌+◌, ◌-◌, ◌*◌, ◌≤◌, arith, Bool, true, false, ◌&&◌, ltb, Bytes, length, some,
  length-take, length-drop, ◌≡◌, ◌≢◌, refl, ◌⊎◌, inl, inr, Bool-cases,
}
use simple_leveldb.Crc32c.{Checksum}
use simple_leveldb.Env.{WritableFile}
use simple_leveldb.Log.{block_size}
use simple_leveldb.Log.Writer.{
  Writer, emit_physical_record, pad_block, emit_fragment, add_loop, add_record,
}
use simple_leveldb.Status.{Status, is_ok}

module _ {F : Type 0} (crc : Checksum) (file : WritableFile F) where
  -- After the padding there is room for a header.
  pad_block_room :
      (w : Writer) (f : F)
      → w.block_offset ≤ block_size
      → let p = (pad_block crc file w f).0.block_offset in
        (p + 7 ≤ block_size) × ((p ≡ w.block_offset) ⊎ (p ≡ 0))
  unfolding pad_block
  pad_block_room w f h = ground arith

  -- What a round leaves to write, and where.
  emit_fragment_room :
      (w : Writer) (f : F) (left : Bytes) (begin : Bool)
      → w.block_offset + 7 ≤ block_size
      → let r = emit_fragment crc file w f left begin in
        (r.1.block_offset ≤ block_size)
        × (length r.3 + (r.1.block_offset - w.block_offset - 7) ≡ length left)
        × ((length r.3 ≡ 0) ⊎ (r.1.block_offset ≡ block_size))
  unfolding emit_fragment emit_physical_record
  emit_fragment_room w f left begin h = ground (
    arith,
    length-take (length left) left,
    length-take (block_size - w.block_offset - 7) left,
    length-drop (length left) left,
    length-drop (block_size - w.block_offset - 7) left,
  )

  abbrev Enough : ℕ → ℕ → ℕ → Type 0
  Enough fuel offset n = (2 * n + 2 ≤ fuel) ⊎ ((2 * n + 1 ≤ fuel) × (offset ≢ 32761))

  add_loop_total :
      (fuel : ℕ) (w : Writer) (f : F) (left : Bytes) (begin : Bool)
      → w.block_offset ≤ block_size
      → Enough fuel w.block_offset (length left)
      → (r : Status × Writer × F) × (add_loop crc file fuel w f left begin ≡ some r)
        × (r.1.block_offset ≤ block_size)
  unfolding add_loop
  add_loop_total zero w f left begin h e = absurd (ground arith)
  add_loop_total (suc fuel) w f left begin h e =
      elim (Bool-cases (is_ok round.0 && ltb 0 (length round.3))) [
        | inl more ↦ rw more (
            add_loop_total fuel round.1 round.2 round.3 false (omega (arith, after))
              (ground (arith, padded, after)))
        | inr done ↦ rw done ((round.0, round.1, round.2), refl, after.0)
      ]
    where
      place : Writer × F
      place = pad_block crc file w f

      round : Status × Writer × F × Bytes
      round = emit_fragment crc file place.0 place.1 left begin

      padded :
          (place.0.block_offset + 7 ≤ block_size)
          × ((place.0.block_offset ≡ w.block_offset) ⊎ (place.0.block_offset ≡ 0))
      padded = pad_block_room w f h

      after :
          (round.1.block_offset ≤ block_size)
          × (length round.3 + (round.1.block_offset - place.0.block_offset - 7) ≡ length left)
          × ((length round.3 ≡ 0) ⊎ (round.1.block_offset ≡ block_size))
      after = emit_fragment_room place.0 place.1 left begin padded.0

  -- From any place in a block `add_record` ends, whatever the file answers, and leaves the writer
  -- at a place in a block.
  pub add_record_total :
      (w : Writer) (f : F) (sle : Bytes)
      → w.block_offset ≤ block_size
      → (r : Status × Writer × F) × (add_record crc file w f sle ≡ some r)
        × (r.1.block_offset ≤ block_size)
  unfolding add_record
  add_record_total w f sle h =
      add_loop_total (2 * length sle + 2) w f sle true h (inl (omega arith))
