-- ===== src/Status/Describe.antt =====
-- base/Status.cpp: `statusToString`, `exceptionToString` and the text that operator<< prints.
-- `std::to_string` and `strerror` are parameters.
use platform_system_libhidl.Status.Codes.{StatusCodes}
use platform_system_libhidl.Status.{
  Status, ex_none, ex_has_reply_header, ex_transaction_failed, transaction_error,
}
use platform_system_libhidl.Prelude.{
  ℤ, negsuc, eqb_ℤ, Bytes, codes, Option, none, some, List, [], if◌then◌else◌, ◌∷◌, ◌++◌,
}

-- The first pair with the key: the tables are built once, and hold each key once.
abbrev pub find_text : ℤ → List (ℤ × Bytes) → Option Bytes
find_text k [] = none
find_text k ((j, text) ∷ rest) = if eqb_ℤ j k then some text else find_text k rest

abbrev pub text_or : Option Bytes → Bytes → Bytes
text_or none text = text
text_or (some found) text = found

abbrev pub status_strings : StatusCodes → List (ℤ × Bytes)
status_strings c =
    (c.ok, codes "OK")
    ∷ (c.unknown_error, codes "UNKNOWN_ERROR")
    ∷ (c.no_memory, codes "NO_MEMORY")
    ∷ (c.invalid_operation, codes "INVALID_OPERATION")
    ∷ (c.bad_value, codes "BAD_VALUE")
    ∷ (c.bad_type, codes "BAD_TYPE")
    ∷ (c.name_not_found, codes "NAME_NOT_FOUND")
    ∷ (c.permission_denied, codes "PERMISSION_DENIED")
    ∷ (c.no_init, codes "NO_INIT")
    ∷ (c.already_exists, codes "ALREADY_EXISTS")
    ∷ (c.dead_object, codes "DEAD_OBJECT")
    ∷ (c.failed_transaction, codes "FAILED_TRANSACTION")
    ∷ (c.bad_index, codes "BAD_INDEX")
    ∷ (c.not_enough_data, codes "NOT_ENOUGH_DATA")
    ∷ (c.would_block, codes "WOULD_BLOCK")
    ∷ (c.timed_out, codes "TIMED_OUT")
    ∷ (c.unknown_transaction, codes "UNKNOWN_TRANSACTION")
    ∷ (c.fds_not_allowed, codes "FDS_NOT_ALLOWED")
    ∷ (c.unexpected_null, codes "UNEXPECTED_NULL")
    ∷ []

abbrev pub exception_strings : List (ℤ × Bytes)
exception_strings =
    (ex_none, codes "EX_NONE")
    ∷ (negsuc 0, codes "EX_SECURITY")
    ∷ (negsuc 1, codes "EX_BAD_PARCELABLE")
    ∷ (negsuc 2, codes "EX_ILLEGAL_ARGUMENT")
    ∷ (negsuc 3, codes "EX_NULL_POINTER")
    ∷ (negsuc 4, codes "EX_ILLEGAL_STATE")
    ∷ (negsuc 5, codes "EX_NETWORK_MAIN_THREAD")
    ∷ (negsuc 6, codes "EX_UNSUPPORTED_OPERATION")
    ∷ (ex_has_reply_header, codes "EX_HAS_REPLY_HEADER")
    ∷ (ex_transaction_failed, codes "EX_TRANSACTION_FAILED")
    ∷ []

-- `strerror(-s)` may give no text.
module _ (c : StatusCodes) (to_string : ℤ → Bytes) (strerror_neg : ℤ → Option Bytes) where
  unfoldable pub number_text : ℤ → Bytes
  number_text s = to_string s ++ elim (strerror_neg s) [ none ↦ [] | some err ↦ 32 ∷ err ]

  unfoldable pub status_to_string : ℤ → Bytes
  unfolding number_text
  status_to_string s = text_or (find_text s (status_strings c)) (number_text s)

  unfoldable pub exception_to_string : ℤ → Bytes
  exception_to_string ex = text_or (find_text ex exception_strings) (to_string ex)

  unfoldable pub description : Status → Bytes
  unfolding exception_to_string transaction_error
  description s =
      if eqb_ℤ s.exception ex_none
      then codes "No error"
      else codes "Status("
        ++ exception_to_string s.exception
        ++ codes "): '"
        ++ (if eqb_ℤ s.exception ex_transaction_failed
            then status_to_string (transaction_error c s) ++ codes ": "
            else [])
        ++ s.message
        ++ codes "'"
