-- ===== src/Log/Writer.antt =====
-- leveldb/__detail/log_write.cc: the writer of a log. The file that it writes to is any
-- `WritableFile`, and the checksum any `Checksum`.
pub mod Layout
pub mod Memory
use simple_leveldb.Base.{
  ℕ, zero, suc, ◌+◌, ◌-◌, ◌*◌, ◌/◌, ◌%◌, ◌^◌, Bool, true, false, ◌&&◌, bit_and, ltb, ◌==◌,
  if◌then◌else◌, List, [], ◌∷◌, ◌++◌, Bytes, length, take, drop, get_or, replicate, Option, none,
  some, u8, shr,
}
use simple_leveldb.Coding.{encode_fixed32}
use simple_leveldb.Crc32c.{Checksum, value, mask}
use simple_leveldb.Env.{WritableFile}
use simple_leveldb.Log.{
  RecordType, zero_type, full_type, first_type, middle_type, last_type, type_number,
  max_record_type, block_size, header_size,
}
use simple_leveldb.Status.{Status, ok, is_ok}

pub record Writer : Type 0 where
  pub block_offset : ℕ
  pub type_crc : List ℕ

-- `for ( i = 0; i < kMaxRecordType; i++ )`: the last entry of the array is not set, and keeps
-- what the memory held, `garbage`.
init_loop : Checksum → ℕ → ℕ → ℕ → List ℕ
init_loop crc zero i garbage = garbage ∷ []
init_loop crc (suc rounds) i garbage = value crc (i ∷ []) ∷ init_loop crc rounds (i + 1) garbage

unfoldable pub init_type_crc : Checksum → ℕ → List ℕ
unfolding init_loop
init_type_crc crc garbage = init_loop crc max_record_type 0 garbage

-- `writer( dest, dest_length )`; the constructor without a length is that with length 0.
unfoldable pub new_writer : Checksum → ℕ → ℕ → Writer
unfolding init_type_crc
new_writer crc garbage dest_length = record {
  block_offset = dest_length % block_size;
  type_crc = init_type_crc crc garbage;
}

unfoldable pub fragment_type : Bool → Bool → RecordType
fragment_type begin end =
    if begin && end
    then full_type
    else if begin
    then first_type
    else if begin
    then last_type
    else middle_type

module _ {F : Type 0} (crc : Checksum) (file : WritableFile F) where
  -- The header of a physical record.
  unfoldable pub header : Writer → RecordType → Bytes → Bytes
  header w type fragment =
      let n = length fragment in
      encode_fixed32 (mask (crc.extend (get_or w.type_crc (type_number type) 0) fragment))
      ++ (u8 (bit_and n 255) ∷ u8 (shr n 8) ∷ u8 (type_number type) ∷ [])

  -- The chain of `append`, `append` and `flush`, each made only if the one before succeeded.
  unfoldable pub append_all : F → Bytes → Bytes → Status × F
  append_all f buf fragment =
      let (s, f₁) = file.append f buf in
      let (s', f₂) = file.append f₁ fragment in
      if is_ok s then (if is_ok s' then file.flush f₂ else (s', f₂)) else (s, f₁)

  unfoldable pub emit_physical_record : Writer → F → RecordType → Bytes → Status × Writer × F
  emit_physical_record w f type fragment =
      let (s, f') = append_all f (header w type fragment) fragment in
      (s, record w { block_offset = w.block_offset + (header_size + length fragment) }, f')

  -- The trailer of a block with no room for a header; the result of `append` is not looked at.
  unfoldable pub pad_block : Writer → F → Writer × F
  pad_block w f =
      let left_over = block_size - w.block_offset in
      let (s, f') = file.append f (replicate left_over 0) in
      if ltb left_over header_size
      then (record w { block_offset = 0 }, if ltb 0 left_over then f' else f)
      else (w, f)

  -- One round of the `do` loop at a place with room for a header.
  unfoldable pub emit_fragment : Writer → F → Bytes → Bool → Status × Writer × F × Bytes
  emit_fragment w f left begin =
      let avail = block_size - w.block_offset - header_size in
      let fragment_length = if ltb (length left) avail then length left else avail in
      let type = fragment_type begin (length left == fragment_length) in
      let (s, w', f') = emit_physical_record w f type (take fragment_length left) in
      (s, w', f', drop fragment_length left)

  -- `none` is fuel that ran out.
  unfoldable pub add_loop : ℕ → Writer → F → Bytes → Bool → Option (Status × Writer × F)
  add_loop zero w f left begin = none
  add_loop (suc fuel) w f left begin =
      let (w₁, f₁) = pad_block w f in
      let (s, w₂, f₂, rest) = emit_fragment w₁ f₁ left begin in
      let again = add_loop fuel w₂ f₂ rest false in
      if is_ok s && ltb 0 (length rest) then again else some (s, w₂, f₂)

  -- Every second round at least writes a byte, so the fuel is enough.
  unfoldable pub add_record : Writer → F → Bytes → Option (Status × Writer × F)
  add_record w f sle = add_loop (2 * length sle + 2) w f sle true
