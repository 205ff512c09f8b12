-- ===== src/VersionSet/Recover.antt =====
-- version_set.cc: recovering the numbers from a manifest that was written as a log of edits.
use simple_leveldb.Base.{
  ℕ, Bool, suc, ◌+◌, ◌≤◌, ◌∷◌, [], arith, true, List, Bytes, length, drop, some, ◌≡◌, refl, ◌∙◌, ap,
}
use simple_leveldb.Crc32c.{Checksum}
use simple_leveldb.DbFormat.{Comparator}
use simple_leveldb.Env.{memory_source}
use simple_leveldb.Log.{block_size}
use simple_leveldb.Log.Reader.{Reader, new_reader}
use simple_leveldb.Log.Reader.Scan.{read_record}
use simple_leveldb.Log.RoundTrip.{image, Fits}
use simple_leveldb.Log.RoundTrip.Reading.{At}
use simple_leveldb.Log.RoundTrip.Whole.{read_record_next, read_record_end, last-Fits, new_reader-At}
use simple_leveldb.Log.Writer.Memory.{after_pad}
use simple_leveldb.Status.{Status, ok, is_ok}
use simple_leveldb.VersionEdit.{VersionEdit, encode_to}
use simple_leveldb.VersionEdit.Decode.{decode_from}
use simple_leveldb.VersionEdit.RoundTrip.{IsPlain, decode_from-encode_to}
use simple_leveldb.VersionSet.{VersionSet}
use simple_leveldb.VersionSet.Reuse.{Options, ManifestEnv}
use simple_leveldb.VersionSet.Replay.{
  Replay, new_replay, replay_loop, note_reports, take_edit, finish, settle, recover_from,
}
use simple_leveldb.VersionSet.Numbers.{Agrees, take_all, take_edit-status}

abbrev pub encoded : List VersionEdit → List Bytes
encoded [] = []
encoded (e ∷ es) = encode_to e [] ∷ encoded es

-- An edit that `decode_from` gives back, of the database whose comparator is `name`.
abbrev pub AllGood : Bytes → List VersionEdit → Type 0
AllGood name [] = Unit
AllGood name (e ∷ es) = IsPlain e × Agrees name e × AllGood name es

status_ok : (s : Status) → s ≡ ok → is_ok s ≡ true
unfolding is_ok
status_ok s e = rw e refl

no_reports :
    (s : Status) (r r' : Reader)
    → r.reports ≡ []
    → r'.reports ≡ []
    → note_reports s (drop (length r.reports) r'.reports) ≡ s
unfolding note_reports
no_reports s r r' before after = rw (before, after) refl

module _ (user : Comparator) (name : Bytes) (crc : Checksum) where
  -- A round that reads an edit.
  replay_round :
      (rounds fuel : ℕ) (r r' : Reader) (f f' : Bytes) (m : Replay) (content : Bytes)
      (e : VersionEdit)
      → read_record crc memory_source fuel r f [] []
        ≡ some (record { success = true; content = content; scratch = []; reader = r'; file = f' })
      → r.reports ≡ []
      → r'.reports ≡ []
      → m.status ≡ ok
      → decode_from content ≡ some (ok, e)
      → replay_loop user name crc memory_source (suc rounds) fuel r f m
        ≡ replay_loop user name crc memory_source rounds fuel r' f' (take_edit user name ok e m)
  unfolding replay_loop
  replay_round rounds fuel r r' f f' m content e read before after s decoded =
      let noted = no_reports m.status r r' before after in
      rw (read, replay_loop, status_ok _ (noted ∙ s), decoded)
        (ap
          (λ t.
            replay_loop user name crc memory_source rounds fuel r' f'
              (take_edit user name ok e (record m { status = t })))
          noted)

  replay_loop-image :
      (o : ℕ) (es : List VersionEdit) (rounds fuel : ℕ) (r : Reader) (f : Bytes) (m : Replay)
      → o ≤ block_size
      → Fits o (encoded es)
      → AllGood name es
      → m.status ≡ ok
      → At o (image crc o (encoded es)) r f
      → (r' : Reader) × (replay_loop user name crc memory_source
            (length es + suc rounds)
            (suc fuel)
            r
            f
            m
          ≡ some (take_all user name es m, r'))
  unfolding replay_loop note_reports is_ok
  replay_loop-image o [] rounds fuel r f m bound h good s a =
      let (r', f', e, reports) = read_record_end crc o fuel r f a in
      (r', rw (start, e, replay_loop, a.5, reports) refl)
    where
      start : 0 + suc rounds ≡ suc rounds
      start = omega arith
  replay_loop-image o (x ∷ xs) rounds fuel r f m bound h good s a =
      let sle = encode_to x [] in
      let next = after_pad o + (7 + length sle) in
      let (r₁, f₁, e₁, a₁) =
        read_record_next crc o fuel sle (image crc next (encoded xs)) r f bound h.0 a in
      let (r₂, e₂) =
        replay_loop-image next xs rounds fuel r₁ f₁ (take_edit user name ok x m)
          (omega (arith, h.0)) h.1 good.2 (take_edit-status user name x m good.1) a₁ in
      (
        r₂,
        rw again (
            replay_round (length xs + suc rounds) (suc fuel) r r₁ f f₁ m sle x e₁ a.5 a₁.5 s
              (decode_from-encode_to x good.0)
            ∙ e₂),
      )
    where
      again : suc (length xs) + suc rounds ≡ suc (length xs + suc rounds)
      again = omega arith

  -- What `recover` does with a log of good edits.
  abbrev pub replayed : List VersionEdit → VersionSet → Replay
  replayed es v = take_all user name es (new_replay v.compact_pointers)

  pub recover_from-image :
      (o : Options) (env : ManifestEnv) (garbage : ℕ) (dscname dscbase : Bytes)
      (es : List VersionEdit) (fuel : ℕ) (v : VersionSet) (save_manifest : Bool)
      → Fits 0 (encoded es)
      → AllGood name es
      → recover_from user name crc memory_source o env garbage dscname dscbase
          (length es + 1)
          (suc fuel)
          (image crc 0 (encoded es))
          v
          save_manifest
        ≡ settle o env crc garbage dscname dscbase
            (finish (replayed es v) v).0
            (finish (replayed es v) v).1
            save_manifest
  unfolding recover_from
  recover_from-image o env garbage dscname dscbase es fuel v save_manifest h good =
      let (r, e) =
        replay_loop-image block_size es 0 fuel (new_reader true true 0) (image crc 0 (encoded es))
          (new_replay v.compact_pointers) (omega arith) (last-Fits crc (encoded es) h) good refl
          (new_reader-At crc (encoded es) true true) in
      rw (recover_from, e) refl

  pub replayed-status :
      (es : List VersionEdit) (m : Replay)
      → AllGood name es
      → m.status ≡ ok
      → (take_all user name es m).status ≡ ok
  replayed-status [] m good s = s
  replayed-status (e ∷ es) m good s =
      replayed-status es (take_edit user name ok e m) good.2 (take_edit-status user name e m good.1)
