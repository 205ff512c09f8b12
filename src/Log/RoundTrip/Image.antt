-- ===== src/Log/RoundTrip/Image.antt =====
-- What the writer leaves in the file.
use simple_leveldb.Base.{
  ◌+◌, List, [], ◌∷◌, ◌++◌, Bytes, length, some, ◌≡◌, refl, append-nil, append_assoc, ◌∙◌, ap,
}
use simple_leveldb.Crc32c.{Checksum}
use simple_leveldb.Log.Writer.{Writer}
use simple_leveldb.Log.Writer.Memory.{full_header, after_pad, padding, IsSetUp, add_record_full}
use simple_leveldb.Status.{ok}
use simple_leveldb.Log.RoundTrip.{write_all, image, Fits}

pub write_all-image :
    (crc : Checksum) (w : Writer) (f : Bytes) (sles : List Bytes)
    → Fits w.block_offset sles
    → IsSetUp crc w
    → (w' : Writer) × (write_all crc w f sles ≡ some (ok, w', f ++ image crc w.block_offset sles))
unfolding write_all
write_all-image crc w f [] h set = (w, rw (append-nil f))
write_all-image crc w f (sle ∷ sles) h set =
    let o = w.block_offset in
    let written = f ++ (padding o ++ (full_header crc sle ++ sle)) in
    let w₁ = record w { block_offset = after_pad o + (7 + length sle) } in
    let (w', e) = write_all-image crc w₁ written sles h.1 set in
    (
      w',
      rw (add_record_full crc w f sle h.0 set, write_all) (e ∙ ap (λ t. some (ok, w', t)) joined),
    )
  where
    rest : Bytes
    rest = image crc (after_pad w.block_offset + (7 + length sle)) sles

    joined :
        (f ++ (padding w.block_offset ++ (full_header crc sle ++ sle))) ++ rest
        ≡ f ++ image crc w.block_offset (sle ∷ sles)
    joined = simp append_assoc refl
