-- ===== src/Filename/Parse.antt =====
-- `parse_file_name` on the names that the database gives its files.
use simple_leveldb.Base.{suc, Bytes, length, drop}

-- A name in the directory `dbname`, without the directory and the slash.
abbrev pub base_name : Bytes → Bytes → Bytes
base_name dbname name = drop (suc (length dbname)) name
