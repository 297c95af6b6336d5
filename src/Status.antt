-- ===== src/Status.antt =====
-- base/include/hidl/Status.h, base/Status.cpp: `Status` and the texts that describe it. The values
-- of `status_t` come from utils/Errors.h, which is no part of the repository: they are parameters.
pub mod Codes
pub mod Return
pub mod Describe
pub mod Transport
use platform_system_libhidl.Status.Codes.{StatusCodes}
use platform_system_libhidl.Prelude.{ℤ, pos, negsuc, eqb_ℤ, Bytes, Bool, [], if◌then◌else◌}

-- enum Exception
abbrev pub ex_none : ℤ
ex_none = pos 0

abbrev pub ex_has_reply_header : ℤ
ex_has_reply_header = negsuc 127

abbrev pub ex_transaction_failed : ℤ
ex_transaction_failed = negsuc 128

pub record Status : Type 0 where
  pub exception : ℤ
  pub error_code : ℤ
  pub message : Bytes

-- Status() and Status::ok()
unfoldable pub ok_status : Status
ok_status = record { exception = ex_none; error_code = pos 0; message = [] }

-- mException == EX_NONE
abbrev pub is_ok : Status → Bool
is_ok s = eqb_ℤ s.exception ex_none

module _ (c : StatusCodes) where
  unfoldable pub from_exception_code : ℤ → Status
  from_exception_code code = record { exception = code; error_code = c.ok; message = [] }

  unfoldable pub from_exception_code_message : ℤ → Bytes → Status
  from_exception_code_message code message = record {
    exception = code;
    error_code = c.ok;
    message = message;
  }

  unfoldable pub set_exception : ℤ → Bytes → Status → Status
  set_exception ex message s = record { exception = ex; error_code = c.no_error; message = message }

  unfoldable pub set_from_status_t : ℤ → Status → Status
  set_from_status_t status s = record {
    exception = if eqb_ℤ status c.no_error then ex_none else ex_transaction_failed;
    error_code = status;
    message = [];
  }

  unfoldable pub from_status_t : ℤ → Status
  unfolding set_from_status_t ok_status
  from_status_t status = set_from_status_t status ok_status

  unfoldable pub transaction_error : Status → ℤ
  transaction_error s = if eqb_ℤ s.exception ex_transaction_failed then s.error_code else c.ok
