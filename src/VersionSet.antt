-- ===== src/VersionSet.antt =====
-- leveldb/__detail/version_set.h and version_set.cc: the numbers of a database, and how they are
-- recovered from the manifest. The versions, and the files that hold them, are not in the state.
pub mod Reuse
pub mod Replay
pub mod Numbers
pub mod Recover
pub mod Finish
pub mod Logged
pub mod Manifest
use simple_leveldb.Base.{
  ℕ, zero, suc, ◌+◌, ◌/◌, ◌^◌, Bool, true, false, ◌||◌, ltb, leb, ◌==◌, if◌then◌else◌, List, [],
  ◌∷◌, Bytes, Option, none, some, u64, u32,
}
use simple_leveldb.DbFormat.{Comparator, compare}
use simple_leveldb.Log.Writer.{Writer}
use simple_leveldb.Slice.{Sign, less, same, greater}
use simple_leveldb.VersionEdit.{VersionEdit, FileMetaData}

pub record VersionSet : Type 0 where
  pub next_file_number : ℕ
  pub manifest_file_number : ℕ
  pub last_sequence : ℕ
  pub log_number : ℕ
  pub prev_log_number : ℕ
  pub compact_pointers : List Bytes
  -- Whether `descriptor_file_` is set, and `descriptor_log_`.
  pub has_descriptor_file : Bool
  pub descriptor_log : Option Writer

abbrev pub new_version_set : VersionSet
new_version_set = record {
  next_file_number = 2;
  manifest_file_number = 0;
  last_sequence = 0;
  log_number = 0;
  prev_log_number = 0;
  compact_pointers = [] ∷ [] ∷ [] ∷ [] ∷ [] ∷ [] ∷ [] ∷ [];
  has_descriptor_file = false;
  descriptor_log = none;
}

-- The number handed out, and the set after it.
unfoldable pub new_file_number : VersionSet → ℕ × VersionSet
new_file_number v =
    (v.next_file_number, record v { next_file_number = u64 (v.next_file_number + 1) })

-- `none` is a failed assertion.
unfoldable pub set_last_sequence : VersionSet → ℕ → Option VersionSet
set_last_sequence v s =
    if leb v.last_sequence s then some (record v { last_sequence = s }) else none

unfoldable pub mark_file_number_used : VersionSet → ℕ → VersionSet
mark_file_number_used v number =
    if leb v.next_file_number number then record v { next_file_number = u64 (number + 1) } else v

-- `builder`: what is deleted from a level, and what is added, in the order of the sets.
pub record LevelState : Type 0 where
  pub deleted_files : List ℕ
  pub added_files : List FileMetaData

abbrev pub empty_level : LevelState
empty_level = record { deleted_files = []; added_files = [] }

abbrev pub new_levels : List LevelState
new_levels =
    empty_level ∷ empty_level ∷ empty_level ∷ empty_level ∷ empty_level ∷ empty_level ∷ empty_level
    ∷ []

-- An element of an array changed; no edit that is decoded has a level out of range.
unfoldable pub change_at : {A : Type 0} → ℕ → (A → A) → List A → List A
change_at n f [] = []
change_at zero f (x ∷ xs) = f x ∷ xs
change_at (suc n) f (x ∷ xs) = x ∷ change_at n f xs

-- `insert` and `erase` of a sorted set of numbers.
unfoldable pub insert_number : ℕ → List ℕ → List ℕ
insert_number n [] = n ∷ []
insert_number n (m ∷ ms) =
    let rest = insert_number n ms in
    if ltb n m then n ∷ m ∷ ms else if n == m then m ∷ ms else m ∷ rest

unfoldable pub erase_number : ℕ → List ℕ → List ℕ
erase_number n [] = []
erase_number n (m ∷ ms) = let rest = erase_number n ms in if n == m then ms else m ∷ rest

module _ (user : Comparator) where
  unfoldable pub by_smallest_key : FileMetaData → FileMetaData → Bool
  by_smallest_key f1 f2 = elim (compare user f1.smallest f2.smallest) [
    | less ↦ true
    | same ↦ ltb f1.number f2.number
    | greater ↦ false
  ]

  -- A set keeps the element that it has where a new one is neither before nor behind it.
  unfoldable pub insert_added : FileMetaData → List FileMetaData → List FileMetaData
  unfolding by_smallest_key
  insert_added f [] = f ∷ []
  insert_added f (g ∷ gs) =
      let rest = insert_added f gs in
      if by_smallest_key f g then f ∷ g ∷ gs else if by_smallest_key g f then g ∷ rest else g ∷ gs

  -- The file as the set holds it; its seeks are a signed 32-bit number.
  unfoldable pub counted : FileMetaData → FileMetaData
  counted f =
      let seeks = u32 (f.file_size / 16384) in
      record f {
        refs = 1;
        allowed_seeks = if leb (2 ^ 31) seeks || ltb seeks 100 then 100 else seeks;
      }

  unfoldable pub add_to_level : FileMetaData → LevelState → LevelState
  unfolding counted insert_added erase_number
  add_to_level f level = record {
    deleted_files = erase_number f.number level.deleted_files;
    added_files = insert_added (counted f) level.added_files;
  }

  unfoldable pub add_files : List (ℕ × FileMetaData) → List LevelState → List LevelState
  unfolding add_to_level change_at
  add_files [] levels = levels
  add_files ((level, f) ∷ files) levels = add_files files (change_at level (add_to_level f) levels)

unfoldable pub delete_files : List (ℕ × ℕ) → List LevelState → List LevelState
unfolding change_at insert_number
delete_files [] levels = levels
delete_files ((level, number) ∷ files) levels = delete_files files (
    change_at level
      (λ state. record state { deleted_files = insert_number number state.deleted_files }) levels)

unfoldable pub move_pointers : List (ℕ × Bytes) → List Bytes → List Bytes
unfolding change_at
move_pointers [] keys = keys
move_pointers ((level, key) ∷ pointers) keys =
    move_pointers pointers (change_at level (λ old. key) keys)

-- `builder::apply`: the compaction pointers of the set, and the levels of the builder.
unfoldable pub apply :
    Comparator → VersionEdit → List Bytes → List LevelState → List Bytes × List LevelState
unfolding move_pointers delete_files add_files
apply user e pointers levels = (
  move_pointers e.compact_pointers pointers,
  add_files user e.new_files (delete_files e.deleted_files levels),
)
