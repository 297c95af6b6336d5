-- ===== src/Tests/Codes.antt =====
-- The values that utils/Errors.h gives on Linux.
use platform_system_libhidl.Status.Codes.{StatusCodes, IsDocumented}
use platform_system_libhidl.Prelude.{pos, negsuc, refl}

abbrev pub linux_codes : StatusCodes
linux_codes = record {
  ok = pos 0;
  no_error = pos 0;
  unknown_error = negsuc 2147483647;
  no_memory = negsuc 11;
  invalid_operation = negsuc 37;
  bad_value = negsuc 21;
  bad_type = negsuc 2147483646;
  name_not_found = negsuc 1;
  permission_denied = negsuc 0;
  no_init = negsuc 18;
  already_exists = negsuc 16;
  dead_object = negsuc 31;
  failed_transaction = negsuc 2147483645;
  bad_index = negsuc 74;
  not_enough_data = negsuc 60;
  would_block = negsuc 10;
  timed_out = negsuc 109;
  unknown_transaction = negsuc 73;
  fds_not_allowed = negsuc 2147483640;
  unexpected_null = negsuc 2147483639;
}

pub linux_codes-IsDocumented : IsDocumented linux_codes
linux_codes-IsDocumented = record {
  ok_zero = refl;
  no_error_zero = refl;
  dead_object_ne = λ e. cc;
  bad_value_ne = λ e. cc;
  name_not_found_ne = λ e. cc;
}
