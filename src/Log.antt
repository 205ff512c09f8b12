-- ===== src/Log.antt =====
-- leveldb/__detail/log_format.h: the records of a log file.
pub mod Writer
pub mod Reader
pub mod RoundTrip
use simple_leveldb.Base.{ℕ, ◌+◌}

pub data RecordType : Type 0 where
  zero_type full_type first_type middle_type last_type : RecordType

abbrev pub type_number : RecordType → ℕ
type_number zero_type = 0
type_number full_type = 1
type_number first_type = 2
type_number middle_type = 3
type_number last_type = 4

abbrev pub max_record_type : ℕ
max_record_type = type_number last_type

abbrev pub block_size : ℕ
block_size = 32768

-- Checksum, length and type.
abbrev pub header_size : ℕ
header_size = 4 + 2 + 1
