-- ===== src/Status/Codes.antt =====
-- The `status_t` values of utils/Errors.h that the code names, as parameters.
use platform_system_libhidl.Prelude.{ℤ, pos, ◌≡◌, ◌≢◌}

pub record StatusCodes : Type 0 where
  pub ok : ℤ
  pub no_error : ℤ
  pub unknown_error : ℤ
  pub no_memory : ℤ
  pub invalid_operation : ℤ
  pub bad_value : ℤ
  pub bad_type : ℤ
  pub name_not_found : ℤ
  pub permission_denied : ℤ
  pub no_init : ℤ
  pub already_exists : ℤ
  pub dead_object : ℤ
  pub failed_transaction : ℤ
  pub bad_index : ℤ
  pub not_enough_data : ℤ
  pub would_block : ℤ
  pub timed_out : ℤ
  pub unknown_transaction : ℤ
  pub fds_not_allowed : ℤ
  pub unexpected_null : ℤ

-- What Errors.h documents: OK and NO_ERROR are 0, and the errors that are compared are not.
pub record IsDocumented (c : StatusCodes) : Type 0 where
  pub ok_zero : c.ok ≡ pos 0
  pub no_error_zero : c.no_error ≡ pos 0
  pub dead_object_ne : c.dead_object ≢ pos 0
  pub bad_value_ne : c.bad_value ≢ pos 0
  pub name_not_found_ne : c.name_not_found ≢ pos 0
