-- ===== src/VersionSet/Manifest.antt =====
-- version_set.cc: manifests written as logs of edits, and what `recover` makes of them.
use simple_leveldb.Base.{
  Bool, true, ◌⊎◌, ℕ, suc, ◌+◌, ◌&&◌, false, List, Bytes, [], length, some, ◌≡◌, refl, ◌∙◌, ap,
}
use simple_leveldb.Crc32c.{Checksum}
use simple_leveldb.DbFormat.{Comparator}
use simple_leveldb.Env.{memory_source}
use simple_leveldb.Log.RoundTrip.{write_all, image, Fits}
use simple_leveldb.Log.Writer.{Writer, new_writer}
use simple_leveldb.Status.{Status, ok, corruption}
use simple_leveldb.VersionEdit.{VersionEdit}
use simple_leveldb.VersionSet.{VersionSet}
use simple_leveldb.Filename.{descriptor_file, parse_file_name}
use simple_leveldb.VersionSet.Reuse.{Options, ManifestEnv}
use simple_leveldb.VersionSet.Replay.{settle, recover_from}
use simple_leveldb.VersionSet.Numbers.{is_set, set_to}
use simple_leveldb.VersionSet.Recover.{encoded, AllGood, replayed, recover_from-image}
use simple_leveldb.VersionSet.Logged.{
  next_files, last_sequences, log_numbers, prev_log_numbers, replayed-Found, write_all-encoded,
}
use simple_leveldb.VersionSet.Finish.{first_missing, marked, finish_incomplete, corruption-is_ok}

module _ (user : Comparator) (name : Bytes) (crc : Checksum) where
  module _ (o : Options) (env : ManifestEnv) (garbage : ℕ) (dscname dscbase : Bytes) where
    -- Which manifest the set goes on with: a new one, with the number `next` and to be saved, or the
    -- one read, with the number of its name and a writer behind its end.
    abbrev pub GoesOn : ℕ → Bool → VersionSet → Bool → Type 0
    GoesOn next save_manifest v save' =
        ((save' ≡ true) × (v.manifest_file_number ≡ next))
        ⊎ ((number : ℕ) × (o.reuse_logs ≡ true)
            × (parse_file_name dscbase ≡ some (number, descriptor_file))
            × (save' ≡ save_manifest)
            × (v.manifest_file_number ≡ number)
            × (v.descriptor_log ≡ some (new_writer crc garbage (env.get_file_size dscname).1)))

    -- What `settle` makes of a set: the numbers but the manifest's stay.
    Settled : ℕ → VersionSet → Bool → Type 0
    Settled next v save_manifest =
        (v' : VersionSet) × (save' : Bool) × (settle o env crc garbage dscname dscbase ok v
            save_manifest
          ≡ some (ok, v', save'))
        × (v'.next_file_number ≡ v.next_file_number)
        × (v'.last_sequence ≡ v.last_sequence)
        × (v'.log_number ≡ v.log_number)
        × (v'.prev_log_number ≡ v.prev_log_number)
        × GoesOn next save_manifest v' save'

    -- When no edit of such a manifest set the next file number, the log number or the last sequence,
    -- recovery fails with a corruption that names the first of the three that is missing, and leaves
    -- the manifest's number, the last sequence, both log numbers and the descriptor of the set as they
    -- were, and the flag to save the manifest too.
    pub recover_from-incomplete :
        (es : List VersionEdit) (garbage' fuel : ℕ) (v : VersionSet) (save_manifest : Bool)
        → Fits 0 (encoded es)
        → AllGood name es
        → (is_set false (next_files es)
            && is_set false (log_numbers es)
            && is_set false (last_sequences es))
          ≡ false
        → (w : Writer) × (f : Bytes) × (v' : VersionSet) × (write_all crc
              (new_writer crc garbage' 0)
              []
              (encoded es)
            ≡ some (ok, w, f))
          × (recover_from user name crc memory_source o env garbage dscname dscbase
                (length es + 1)
                (suc fuel)
                f
                v
                save_manifest
              ≡ some (
                corruption (first_missing (next_files es) (log_numbers es) (last_sequences es)) [],
                v',
                save_manifest,
              ))
          × (v'.manifest_file_number ≡ v.manifest_file_number)
          × (v'.last_sequence ≡ v.last_sequence)
          × (v'.log_number ≡ v.log_number)
          × (v'.prev_log_number ≡ v.prev_log_number)
          × (v'.has_descriptor_file ≡ v.has_descriptor_file)
          × (v'.descriptor_log ≡ v.descriptor_log)
    unfolding settle
    recover_from-incomplete es garbage' fuel v save_manifest h good missing =
        let (w, written) = write_all-encoded user name crc es garbage' h in
        let m = replayed user name crc es v in
        let message = first_missing (next_files es) (log_numbers es) (last_sequences es) in
        let v' = record v {
          next_file_number =
              marked (marked v.next_file_number (set_to 0 (prev_log_numbers es)))
                (set_to 0 (log_numbers es));
          compact_pointers = m.pointers;
        } in
        let finished =
          finish_incomplete (next_files es) (last_sequences es) (log_numbers es)
            (prev_log_numbers es) m v (replayed-Found user name crc es v good) missing in
        (
          w,
          image crc 0 (encoded es),
          v',
          written,
          recover_from-image user name crc o env garbage dscname dscbase es fuel v save_manifest h
                good
              ∙ ap
                  (λ (p : Status × VersionSet).
                    settle o env crc garbage dscname dscbase p.0 p.1 save_manifest)
                  finished
              ∙ rw (corruption-is_ok message) refl,
          refl,
          refl,
          refl,
          refl,
          refl,
          refl,
        )
