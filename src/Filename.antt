-- ===== src/Filename.antt =====
-- leveldb/__detail/filename.cc: the names of the files of a database, and their parsing.
pub mod Decimal
pub mod Parse
use simple_leveldb.Base.{
  ℕ, zero, suc, ◌+◌, ◌-◌, ◌*◌, ◌/◌, ◌%◌, ◌<◌, arith, Bool, ◌||◌, if◌then◌else◌, [], ◌∷◌, ◌++◌,
  Bytes, length, replicate, drop, codes, Option, none, some, lt_wf,
}
use simple_leveldb.Slice.{equal, starts_with, remove_prefix}
use simple_leveldb.Logging.{consume_decimal_number}
use mathlib.Core.Logic.{dite}
use mathlib.Core.WellFounded.{Acc}
use native.Mathlib.Decide.{dec_lt}

-- include/leveldb/__detail/filename.h
pub data FileType : Type 0 where
  log_file db_lock_file table_file descriptor_file current_file temp_file info_log_file : FileType

pub tenth-lt : (n : ℕ) → 9 < n → n / 10 < n
tenth-lt n h = omega arith

-- The decimal digits that the standard `snprintf` writes for an unsigned number.
pub decimal_loop : (n : ℕ) → Acc ◌<◌ n → Bytes
decimal_loop n (Acc.intro _ smaller) =
    dite (dec_lt 9 n)
      (λ h. decimal_loop (n / 10) (smaller (n / 10) (tenth-lt n h)) ++ (b'0' + n % 10) ∷ [])
      (λ _. (b'0' + n) ∷ [])

unfoldable pub decimal : ℕ → Bytes
unfolding decimal_loop lt_wf dec_lt
decimal n = decimal_loop n (lt_wf.apply n)

-- `%06llu`. The buffers of 100 characters hold every name part, so nothing is cut off.
unfoldable pub decimal_06 : ℕ → Bytes
decimal_06 n = replicate (6 - length (decimal n)) b'0' ++ decimal n

unfoldable pub make_file_name : Bytes → ℕ → Bytes → Bytes
make_file_name dbname number suffix = dbname ++ (b'/' ∷ (decimal_06 number ++ (b'.' ∷ suffix)))

unfoldable pub table_file_name : Bytes → ℕ → Bytes
unfolding make_file_name
table_file_name dbname number = make_file_name dbname number (codes "ldb")

unfoldable pub log_file_name : Bytes → ℕ → Bytes
unfolding make_file_name
log_file_name dbname number = make_file_name dbname number (codes "log")

unfoldable pub descriptor_file_name : Bytes → ℕ → Bytes
descriptor_file_name dbname number = dbname ++ (codes "/MANIFEST-" ++ decimal_06 number)

unfoldable pub lock_file_name : Bytes → Bytes
lock_file_name dbname = dbname ++ codes "/LOCK"

unfoldable pub current_file_name : Bytes → Bytes
current_file_name dbname = dbname ++ codes "/CURRENT"

unfoldable pub temp_file_name : Bytes → ℕ → Bytes
unfolding make_file_name
temp_file_name dbname number = make_file_name dbname number (codes "dbtmp")

unfoldable pub info_log_file_name : Bytes → Bytes
info_log_file_name dbname = dbname ++ codes "/LOG"

unfoldable pub old_info_log_file_name : Bytes → Bytes
old_info_log_file_name dbname = dbname ++ codes "/LOG.old"

-- The suffix decides the type.
unfoldable pub parse_suffix : ℕ × Bytes → Option (ℕ × FileType)
parse_suffix (num, suffix) =
    if equal suffix (codes ".log")
    then some (num, log_file)
    else if equal suffix (codes ".sst") || equal suffix (codes ".ldb")
    then some (num, table_file)
    else if equal suffix (codes ".dbtmp")
    then some (num, temp_file)
    else none

unfoldable pub parse_descriptor : ℕ × Bytes → Option (ℕ × FileType)
parse_descriptor (num, []) = some (num, descriptor_file)
parse_descriptor (num, c ∷ rest) = none

unfoldable pub number_then : Bytes → (ℕ × Bytes → Option (ℕ × FileType)) → Option (ℕ × FileType)
number_then rest continue = elim (consume_decimal_number rest) [ none ↦ none | some r ↦ continue r ]

-- `none` is the result `false`; then neither the number nor the type is written.
unfoldable pub parse_file_name : Bytes → Option (ℕ × FileType)
parse_file_name filename =
    if equal filename (codes "CURRENT")
    then some (0, current_file)
    else if equal filename (codes "LOCK")
    then some (0, db_lock_file)
    else if equal filename (codes "LOG") || equal filename (codes "LOG.old")
    then some (0, info_log_file)
    else if starts_with filename (codes "MANIFEST-")
    then number_then (remove_prefix 9 filename) parse_descriptor
    else number_then filename parse_suffix
