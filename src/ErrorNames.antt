-- ===== src/ErrorNames.antt =====
-- src/common/src/dbus-errors.c and src/common/include/zen/dbus-errors.h: the error codes and their names.
use zen_os.Base.{
  ℕ, Bool, true, Option, none, some, List, [], ◌∷◌, ◌++◌, Bytes, leb, if◌then◌else◌, get_elem?,
}
use zen_os.Base.Int.{ℤ, pos, negsuc}

-- enum ZenError
abbrev pub zen_ok : ℕ
zen_ok = 0

abbrev pub zen_err_invalid_argument : ℕ
zen_err_invalid_argument = 1

abbrev pub zen_err_not_found : ℕ
zen_err_not_found = 2

abbrev pub zen_err_permission_denied : ℕ
zen_err_permission_denied = 3

abbrev pub zen_err_already_exists : ℕ
zen_err_already_exists = 4

abbrev pub zen_err_not_supported : ℕ
zen_err_not_supported = 5

abbrev pub zen_err_timeout : ℕ
zen_err_timeout = 6

abbrev pub zen_err_out_of_memory : ℕ
zen_err_out_of_memory = 7

abbrev pub zen_err_io : ℕ
zen_err_io = 8

abbrev pub zen_err_internal : ℕ
zen_err_internal = 9

abbrev pub zen_err_count : ℕ
zen_err_count = 10

abbrev pub error_strings : List Bytes
error_strings =
    (b'S' ∷ b'u' ∷ b'c' ∷ b'c' ∷ b'e' ∷ b's' ∷ b's' ∷ [])
    ∷ (b'I' ∷ b'n' ∷ b'v' ∷ b'a' ∷ b'l' ∷ b'i' ∷ b'd' ∷ b' ' ∷ b'a' ∷ b'r' ∷ b'g' ∷ b'u' ∷ b'm'
        ∷ b'e' ∷ b'n' ∷ b't' ∷ [])
    ∷ (b'N' ∷ b'o' ∷ b't' ∷ b' ' ∷ b'f' ∷ b'o' ∷ b'u' ∷ b'n' ∷ b'd' ∷ [])
    ∷ (b'P' ∷ b'e' ∷ b'r' ∷ b'm' ∷ b'i' ∷ b's' ∷ b's' ∷ b'i' ∷ b'o' ∷ b'n' ∷ b' ' ∷ b'd' ∷ b'e'
        ∷ b'n' ∷ b'i' ∷ b'e' ∷ b'd' ∷ [])
    ∷ (b'A' ∷ b'l' ∷ b'r' ∷ b'e' ∷ b'a' ∷ b'd' ∷ b'y' ∷ b' ' ∷ b'e' ∷ b'x' ∷ b'i' ∷ b's' ∷ b't'
        ∷ b's' ∷ [])
    ∷ (b'N' ∷ b'o' ∷ b't' ∷ b' ' ∷ b's' ∷ b'u' ∷ b'p' ∷ b'p' ∷ b'o' ∷ b'r' ∷ b't' ∷ b'e' ∷ b'd'
        ∷ [])
    ∷ (b'T' ∷ b'i' ∷ b'm' ∷ b'e' ∷ b'o' ∷ b'u' ∷ b't' ∷ [])
    ∷ (b'O' ∷ b'u' ∷ b't' ∷ b' ' ∷ b'o' ∷ b'f' ∷ b' ' ∷ b'm' ∷ b'e' ∷ b'm' ∷ b'o' ∷ b'r' ∷ b'y'
        ∷ [])
    ∷ (b'I' ∷ b'/' ∷ b'O' ∷ b' ' ∷ b'e' ∷ b'r' ∷ b'r' ∷ b'o' ∷ b'r' ∷ [])
    ∷ (b'I' ∷ b'n' ∷ b't' ∷ b'e' ∷ b'r' ∷ b'n' ∷ b'a' ∷ b'l' ∷ b' ' ∷ b'e' ∷ b'r' ∷ b'r' ∷ b'o'
        ∷ b'r' ∷ [])
    ∷ []

-- "org.zenos.Error."
abbrev pub prefix : Bytes
prefix =
    b'o' ∷ b'r' ∷ b'g' ∷ b'.' ∷ b'z' ∷ b'e' ∷ b'n' ∷ b'o' ∷ b's' ∷ b'.' ∷ b'E' ∷ b'r' ∷ b'r' ∷ b'o'
    ∷ b'r' ∷ b'.' ∷ []

abbrev pub dbus_names : List Bytes
dbus_names =
    (prefix ++ b'N' ∷ b'o' ∷ b'n' ∷ b'e' ∷ [])
    ∷ (prefix
        ++ b'I' ∷ b'n' ∷ b'v' ∷ b'a' ∷ b'l' ∷ b'i' ∷ b'd' ∷ b'A' ∷ b'r' ∷ b'g' ∷ b'u' ∷ b'm' ∷ b'e'
          ∷ b'n' ∷ b't' ∷ [])
    ∷ (prefix ++ b'N' ∷ b'o' ∷ b't' ∷ b'F' ∷ b'o' ∷ b'u' ∷ b'n' ∷ b'd' ∷ [])
    ∷ (prefix
        ++ b'P' ∷ b'e' ∷ b'r' ∷ b'm' ∷ b'i' ∷ b's' ∷ b's' ∷ b'i' ∷ b'o' ∷ b'n' ∷ b'D' ∷ b'e' ∷ b'n'
          ∷ b'i' ∷ b'e' ∷ b'd' ∷ [])
    ∷ (prefix
        ++ b'A' ∷ b'l' ∷ b'r' ∷ b'e' ∷ b'a' ∷ b'd' ∷ b'y' ∷ b'E' ∷ b'x' ∷ b'i' ∷ b's' ∷ b't' ∷ b's'
          ∷ [])
    ∷ (prefix
        ++ b'N' ∷ b'o' ∷ b't' ∷ b'S' ∷ b'u' ∷ b'p' ∷ b'p' ∷ b'o' ∷ b'r' ∷ b't' ∷ b'e' ∷ b'd' ∷ [])
    ∷ (prefix ++ b'T' ∷ b'i' ∷ b'm' ∷ b'e' ∷ b'o' ∷ b'u' ∷ b't' ∷ [])
    ∷ (prefix ++ b'O' ∷ b'u' ∷ b't' ∷ b'O' ∷ b'f' ∷ b'M' ∷ b'e' ∷ b'm' ∷ b'o' ∷ b'r' ∷ b'y' ∷ [])
    ∷ (prefix ++ b'I' ∷ b'O' ∷ [])
    ∷ (prefix ++ b'I' ∷ b'n' ∷ b't' ∷ b'e' ∷ b'r' ∷ b'n' ∷ b'a' ∷ b'l' ∷ [])
    ∷ []

-- "Unknown error"
abbrev pub unknown_error : Bytes
unknown_error =
    b'U' ∷ b'n' ∷ b'k' ∷ b'n' ∷ b'o' ∷ b'w' ∷ b'n' ∷ b' ' ∷ b'e' ∷ b'r' ∷ b'r' ∷ b'o' ∷ b'r' ∷ []

-- `err < 0 || err >= ZEN_ERR_COUNT`
abbrev pub out_of_range : ℤ → Bool
out_of_range (pos n) = leb zen_err_count n
out_of_range (negsuc n) = true

-- A table, at an index that is not negative; none is what is behind its end.
abbrev entry : List Bytes → ℤ → Option Bytes
entry table (pos n) = get_elem? table n
entry table (negsuc n) = none

-- zen_error_string
unfoldable pub error_string : ℤ → Option Bytes
error_string err = if out_of_range err then some unknown_error else entry error_strings err

-- zen_error_dbus_name
unfoldable pub error_dbus_name : ℤ → Option Bytes
error_dbus_name err =
    if out_of_range err
    then some (prefix ++ b'I' ∷ b'n' ∷ b't' ∷ b'e' ∷ b'r' ∷ b'n' ∷ b'a' ∷ b'l' ∷ [])
    else entry dbus_names err
