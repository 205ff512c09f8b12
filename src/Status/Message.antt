-- ===== src/Status/Message.antt =====
-- What a status made from a code and two messages says.
use simple_leveldb.Base.{codes, [], ◌∷◌, ◌++◌, Bytes, length}
use simple_leveldb.Coding.{encode_fixed32}
use simple_leveldb.Status.{
  Status, Code, k_ok, k_not_found, k_corruption, k_not_supported, k_invalid_argument, k_io_error,
  code_number, message_tail,
}

abbrev whole_message : Bytes → Bytes → Bytes
whole_message msg msg2 = msg ++ message_tail msg2

-- The name that a status of each code is printed with.
abbrev pub printed_name : Code → Bytes
printed_name k_ok = codes "OK"
printed_name k_not_found = codes "NotFound: "
printed_name k_corruption = codes "Corruption: "
printed_name k_not_supported = codes "Not Implemented: "
printed_name k_invalid_argument = codes "Invalid Argument: "
printed_name k_io_error = codes "IO Error: "

-- The text of a status: the name, the message, and a second message that is not empty behind ": ".
abbrev pub printed : Code → Bytes → Bytes → Bytes
printed c msg [] = printed_name c ++ msg
printed c msg (x ∷ msg2) = printed_name c ++ (msg ++ (codes ": " ++ x ∷ msg2))

abbrev layout : Code → Bytes → Bytes
layout c m = encode_fixed32 (length m) ++ (code_number c ∷ m)
