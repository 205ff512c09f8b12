-- ===== src/Status.antt =====
-- leveldb/status.cc and include/leveldb/status.h: the result of an operation. The null state is
-- `none`; any other state is the byte array that `state_` points to. The length at its front is
-- stored by `memcpy`, here in little-endian order.
pub mod Message
use simple_leveldb.Base.{
  ℕ, zero, suc, ◌+◌, Bool, true, false, ◌==◌, if◌then◌else◌, [], ◌∷◌, ◌++◌, Bytes, length, take,
  drop, get_or, codes, Option, none, some, u32,
}
use simple_leveldb.Coding.{encode_fixed32, decode_fixed32}

pub data Code : Type 0 where
  k_ok k_not_found k_corruption k_not_supported k_invalid_argument k_io_error : Code

abbrev pub code_number : Code → ℕ
code_number k_ok = 0
code_number k_not_found = 1
code_number k_corruption = 2
code_number k_not_supported = 3
code_number k_invalid_argument = 4
code_number k_io_error = 5

-- `static_cast< enum code >`; `none` is a number that no enumerator has.
unfoldable pub code_of_number : ℕ → Option Code
code_of_number n =
    if n == 0
    then some k_ok
    else if n == 1
    then some k_not_found
    else if n == 2
    then some k_corruption
    else if n == 3
    then some k_not_supported
    else if n == 4
    then some k_invalid_argument
    else if n == 5
    then some k_io_error
    else none

pub record Status : Type 0 where
  pub state : Option Bytes

abbrev pub ok : Status
ok = record { state = none }

abbrev pub message_tail : Bytes → Bytes
message_tail [] = []
message_tail (c ∷ msg2) = b':' ∷ b' ' ∷ c ∷ msg2

-- The private constructor. The sizes are 32-bit unsigned, and as many bytes are copied.
unfoldable pub make : Code → Bytes → Bytes → Status
make code msg msg2 =
    let len1 = u32 (length msg) in
    let len2 = u32 (length msg2) in
    let size = u32 (len1 + (if len2 == 0 then 0 else u32 (2 + len2))) in
    record {
      state = some (
          encode_fixed32 size
          ++ (code_number code ∷ (take len1 msg ++ message_tail (take len2 msg2))));
    }

abbrev pub not_found : Bytes → Bytes → Status
not_found = make k_not_found

abbrev pub corruption : Bytes → Bytes → Status
corruption = make k_corruption

abbrev pub not_supported : Bytes → Bytes → Status
not_supported = make k_not_supported

abbrev pub invalid_argument : Bytes → Bytes → Status
invalid_argument = make k_invalid_argument

abbrev pub io_error : Bytes → Bytes → Status
io_error = make k_io_error

state_code : Option Bytes → Option Code
state_code none = some k_ok
state_code (some bytes) = code_of_number (get_or bytes 4 0)

unfoldable pub code : Status → Option Code
unfolding state_code code_of_number
code s = state_code s.state

state_is_null : Option Bytes → Bool
state_is_null none = true
state_is_null (some bytes) = false

unfoldable pub is_ok : Status → Bool
unfolding state_is_null
is_ok s = state_is_null s.state

abbrev is_code : Code → Option Code → Bool
is_code c none = false
is_code c (some d) = code_number c == code_number d

unfoldable pub is_not_found : Status → Bool
unfolding code
is_not_found s = is_code k_not_found (code s)

unfoldable pub is_corruption : Status → Bool
unfolding code
is_corruption s = is_code k_corruption (code s)

unfoldable pub is_io_error : Status → Bool
unfolding code
is_io_error s = is_code k_io_error (code s)

unfoldable pub is_not_supported : Status → Bool
unfolding code
is_not_supported s = is_code k_not_supported (code s)

unfoldable pub is_invalid_argument : Status → Bool
unfolding code
is_invalid_argument s = is_code k_invalid_argument (code s)

-- `none` is a read past the end of the array.
unfoldable pub copy_state : Bytes → Option Bytes
copy_state state = elim (decode_fixed32 state) [
  | none ↦ none
  | some size ↦ some (take (size + 5) state)
]

pub type_name : Code → Bytes
type_name k_ok = codes "OK"
type_name k_not_found = codes "NotFound: "
type_name k_corruption = codes "Corruption: "
type_name k_not_supported = codes "Not Implemented: "
type_name k_invalid_argument = codes "Invalid Argument: "
type_name k_io_error = codes "IO Error: "

pub with_message : Option Code → Option ℕ → Bytes → Option Bytes
with_message (some c) (some size) state = some (type_name c ++ take size (drop 5 state))
with_message _ _ state = none

pub print_state : Option Bytes → Option Bytes
print_state none = some (codes "OK")
print_state (some bytes) =
    with_message (code_of_number (get_or bytes 4 0)) (decode_fixed32 bytes) bytes

-- `none` is a code with no enumerator, for which the pointer to the type's name is never set, or
-- an array with no length at its front.
unfoldable pub to_string : Status → Option Bytes
unfolding print_state
to_string s = print_state s.state
