-- ===== src/VersionSet/Finish.antt =====
-- version_set.cc: the numbers that `recover` takes over behind its loop.
use simple_leveldb.Base.{
  ℕ, ◌+◌, ◌&&◌, not, leb, if◌then◌else◌, Bool-cases, inl, inr, false, Bytes, [], Option, none, some,
  u64, codes, ◌≡◌, refl, arith,
}
use simple_leveldb.Status.{ok, is_ok, corruption, make}
use simple_leveldb.VersionSet.{VersionSet, mark_file_number_used}
use simple_leveldb.VersionSet.Replay.{Replay, check_entries, finish}
use simple_leveldb.VersionSet.Numbers.{is_set, set_to}

-- The message for the first entry that a manifest lacks.
abbrev pub first_missing : Option ℕ → Option ℕ → Option ℕ → Bytes
first_missing none log last = codes "no meta-nextfile entry in descriptor"
first_missing (some next) none last = codes "no meta-lognumber entry in descriptor"
first_missing (some next) (some log) last = codes "no last-sequence-number entry in descriptor"

-- The variables of `recover` after edits whose last numbers are the four.
abbrev pub Found : Option ℕ → Option ℕ → Option ℕ → Option ℕ → Replay → Type 0
Found next last log prev m =
    (m.status ≡ ok)
    × ((m.next_file ≡ set_to 0 next) × (m.have_next_file ≡ is_set false next))
    × ((m.last_sequence ≡ set_to 0 last) × (m.have_last_sequence ≡ is_set false last))
    × ((m.log_number ≡ set_to 0 log) × (m.have_log_number ≡ is_set false log))
    × ((m.prev_log_number ≡ set_to 0 prev) × (m.have_prev_log_number ≡ is_set false prev))

check_complete :
    (next last log : ℕ) (prev : Option ℕ) (m : Replay)
    → Found (some next) (some last) (some log) prev m
    → check_entries m ≡ ok
unfolding check_entries is_ok
check_complete next last log prev m h = rw (h.0, h.1.1, h.2.1, h.3.1) refl

unfoldable pub marked : ℕ → ℕ → ℕ
marked next number = if leb next number then u64 (number + 1) else next

mark_file_number_used-eq :
    (v : VersionSet) (number : ℕ)
    → mark_file_number_used v number
      ≡ record v { next_file_number = marked v.next_file_number number }
unfolding mark_file_number_used marked
mark_file_number_used-eq v number = elim (Bool-cases (leb v.next_file_number number)) [
  | inl t ↦ rw t refl
  | inr f ↦ rw f refl
]

finish_lem :
    (m : Replay) (v : VersionSet)
    → finish m v ≡ (
        let s = check_entries m in
        let prev = if not m.have_prev_log_number then 0 else m.prev_log_number in
        if is_ok s
        then (
          s,
          record v {
            next_file_number = u64 (m.next_file + 1);
            manifest_file_number = m.next_file;
            last_sequence = m.last_sequence;
            log_number = m.log_number;
            prev_log_number = prev;
            compact_pointers = m.pointers;
          },
        )
        else (
          s,
          record v {
            next_file_number = marked (marked v.next_file_number prev) m.log_number;
            compact_pointers = m.pointers;
          },
        ))
unfolding finish
finish_lem m v =
    let prev = if not m.have_prev_log_number then 0 else m.prev_log_number in
    let pointed = record v { compact_pointers = m.pointers } in
    rw
      (
        mark_file_number_used-eq (mark_file_number_used pointed prev) m.log_number,
        mark_file_number_used-eq pointed prev,
      )
      refl

pub finish_complete :
    (next last log : ℕ) (prev : Option ℕ) (m : Replay) (v : VersionSet)
    → Found (some next) (some last) (some log) prev m
    → finish m v ≡ (
      ok,
      record v {
        next_file_number = u64 (next + 1);
        manifest_file_number = next;
        last_sequence = last;
        log_number = log;
        prev_log_number = set_to 0 prev;
        compact_pointers = m.pointers;
      },
    )
unfolding is_ok
finish_complete next last log none m v h =
    rw (finish_lem m v, check_complete next last log none m h, h.1.0, h.2.0, h.3.0, h.4.1) refl
finish_complete next last log (some prev) m v h =
    rw
      (
        finish_lem m v,
        check_complete next last log (some prev) m h,
        h.1.0,
        h.2.0,
        h.3.0,
        h.4.1,
        h.4.0,
      )
      refl

check_incomplete :
    (next last log prev : Option ℕ) (m : Replay)
    → Found next last log prev m
    → (is_set false next && is_set false log && is_set false last) ≡ false
    → check_entries m ≡ corruption (first_missing next log last) []
unfolding check_entries is_ok
check_incomplete none last log prev m h missing = rw (h.0, h.1.1) refl
check_incomplete (some next) last none prev m h missing = rw (h.0, h.1.1, h.3.1) refl
check_incomplete (some next) none (some log) prev m h missing = rw (h.0, h.1.1, h.3.1, h.2.1) refl
check_incomplete (some next) (some last) (some log) prev m h missing = absurd (ground arith)

pub corruption-is_ok : (msg : Bytes) → is_ok (corruption msg []) ≡ false
unfolding is_ok make
corruption-is_ok msg = refl

pub finish_incomplete :
    (next last log prev : Option ℕ) (m : Replay) (v : VersionSet)
    → Found next last log prev m
    → (is_set false next && is_set false log && is_set false last) ≡ false
    → finish m v ≡ (
      corruption (first_missing next log last) [],
      record v {
        next_file_number = marked (marked v.next_file_number (set_to 0 prev)) (set_to 0 log);
        compact_pointers = m.pointers;
      },
    )
finish_incomplete next last log none m v h missing =
    rw
      (
        finish_lem m v,
        check_incomplete next last log none m h missing,
        corruption-is_ok (first_missing next log last),
        h.4.1,
        h.3.0,
      )
      refl
finish_incomplete next last log (some prev) m v h missing =
    rw
      (
        finish_lem m v,
        check_incomplete next last log (some prev) m h missing,
        corruption-is_ok (first_missing next log last),
        h.4.1,
        h.4.0,
        h.3.0,
      )
      refl
