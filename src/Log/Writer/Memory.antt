-- ===== src/Log/Writer/Memory.antt =====
-- What `add_record` writes to a file in memory, for a record that fits the block.
use simple_leveldb.Base.{
  ℕ, suc, ◌+◌, ◌-◌, ◌*◌, ◌≤◌, arith, true, ltb, if◌then◌else◌, [], ◌∷◌, ◌++◌, Bytes, length, get_or,
  replicate, some, u8, shr, bit_and, ◌≡◌, refl, append-nil, append_assoc, take-length, drop-length,
  ==_refl,
}
use simple_leveldb.Coding.{encode_fixed32}
use simple_leveldb.Crc32c.{Checksum, value, mask}
use simple_leveldb.Env.{memory_sink}
use simple_leveldb.Log.{full_type, block_size, header_size}
use simple_leveldb.Log.Writer.{
  Writer, fragment_type, header, append_all, emit_physical_record, pad_block, emit_fragment,
  add_loop, add_record, new_writer,
}
use simple_leveldb.Status.{ok, is_ok}

-- A whole record in one fragment, with the checksum of the type and the bytes.
abbrev pub full_header : Checksum → Bytes → Bytes
full_header crc sle =
    encode_fixed32 (mask (value crc (1 ∷ sle)))
    ++ (u8 (bit_and (length sle) 255) ∷ u8 (shr (length sle) 8) ∷ 1 ∷ [])

-- The place of the next header, and the zeros in front of it.
abbrev pub after_pad : ℕ → ℕ
after_pad o = if ltb (block_size - o) header_size then 0 else o

abbrev pub padding : ℕ → Bytes
padding o = if ltb (block_size - o) header_size then replicate (block_size - o) 0 else []

-- The entry of the checksum table that a full record uses.
abbrev pub IsSetUp : Checksum → Writer → Type 0
IsSetUp crc w = get_or w.type_crc 1 0 ≡ value crc (1 ∷ [])

pub new_writer-IsSetUp : (crc : Checksum) (garbage n : ℕ) → IsSetUp crc (new_writer crc garbage n)
unfolding new_writer
new_writer-IsSetUp crc garbage n = refl

header_full :
    (crc : Checksum) (w : Writer) (sle : Bytes)
    → IsSetUp crc w
    → header crc memory_sink w full_type sle ≡ full_header crc sle
unfolding header
header_full crc w sle set = rw (set, crc.extend-append 0 (1 ∷ []) sle)

pad_block_memory :
    (crc : Checksum) (w : Writer) (f : Bytes)
    → pad_block crc memory_sink w f
      ≡ (record w { block_offset = after_pad w.block_offset }, f ++ padding w.block_offset)
unfolding pad_block
pad_block_memory crc w f = ground (arith, append-nil f)

emit_physical_record_full :
    (crc : Checksum) (w : Writer) (f sle : Bytes)
    → IsSetUp crc w
    → emit_physical_record crc memory_sink w f full_type sle ≡ (
      ok,
      record w { block_offset = w.block_offset + (7 + length sle) },
      f ++ (full_header crc sle ++ sle),
    )
unfolding emit_physical_record append_all is_ok
emit_physical_record_full crc w f sle set = rw (header_full crc w sle set, append_assoc)

emit_fragment_whole :
    (crc : Checksum) (w : Writer) (f sle : Bytes)
    → w.block_offset + 7 + length sle ≤ block_size
    → IsSetUp crc w
    → emit_fragment crc memory_sink w f sle true ≡ (
      ok,
      record w { block_offset = w.block_offset + (7 + length sle) },
      f ++ (full_header crc sle ++ sle),
      [],
    )
unfolding emit_fragment
emit_fragment_whole crc w f sle h set =
    rw (room, take-length sle, drop-length sle, ==_refl (length sle))
      (rw whole (rw (emit_physical_record_full crc w f sle set)))
  where
    whole : fragment_type true true ≡ full_type
    whole = unfold fragment_type in refl

    room :
        (if ltb (length sle) (block_size - w.block_offset - header_size)
          then length sle
          else block_size - w.block_offset - header_size)
        ≡ length sle
    room = ground arith

-- A record that fits the rest of the block, or the next block if there is no room for a header, is
-- written behind the padding as one full record, and the status is `ok`.
pub add_record_full :
    (crc : Checksum) (w : Writer) (f sle : Bytes)
    → after_pad w.block_offset + 7 + length sle ≤ block_size
    → IsSetUp crc w
    → add_record crc memory_sink w f sle
      ≡ some (
        ok,
        record w { block_offset = after_pad w.block_offset + (7 + length sle) },
        f ++ (padding w.block_offset ++ (full_header crc sle ++ sle)),
      )
unfolding add_record add_loop is_ok
add_record_full crc w f sle h set =
    rw
      (
        fuel,
        pad_block_memory crc w f,
        emit_fragment_whole crc place (f ++ padding w.block_offset) sle h set,
      )
      (rw append_assoc)
  where
    place : Writer
    place = record w { block_offset = after_pad w.block_offset }

    fuel : 2 * length sle + 2 ≡ suc (2 * length sle + 1)
    fuel = omega arith
