-- ===== src/Tests/Tokens.antt =====
-- The world counts the calls; manager 1, interface 7. Every call succeeds but createToken.
use platform_system_libhidl.Status.{from_status_t}
use platform_system_libhidl.Status.Return.{of_value, of_status}
use platform_system_libhidl.Token.{
  TokenService, TokenState, token_state, is_bad_token_manager, retrieve_hal_interface,
}
use platform_system_libhidl.Token.Calls.{retrieve_hal_interface_lem}
use platform_system_libhidl.Converter.{HalBase, Converter, unlink_to_death}
use platform_system_libhidl.Converter.Obituaries.{obituary, unlink_zero_flags}
use platform_system_libhidl.Tests.Codes.{linux_codes}
use platform_system_libhidl.Prelude.Eq.{nat_eq}
use platform_system_libhidl.Prelude.{
  negsuc, done, ℕ, suc, refl, true, false, none, some, [], ◌≡◌, ◌∷◌,
}

abbrev service : TokenService ℕ ℕ ℕ
service = record {
  get_service = λ w. (some 1, suc w);
  link_to_death = λ m w. (of_value true, suc w);
  unlink_to_death = λ m w. (of_value true, suc w);
  get = λ m token w. (of_value (some 7), suc w);
  create_token = λ m i w. (none, of_status tt (from_status_t linux_codes (negsuc 31)), suc w);
  unregister = λ m token w. (of_value true, suc w);
}

abbrev fresh : TokenState ℕ ℕ
fresh = token_state none 0

fresh-linked : is_bad_token_manager service fresh ≡ (false, token_state (some 1) 2)
unfolding is_bad_token_manager of_value
fresh-linked = refl

retrieve_hal_interface_lem_example :
    retrieve_hal_interface service (3 ∷ []) fresh ≡ done (some 7, token_state (some 1) 3)
unfolding of_value
retrieve_hal_interface_lem_example =
    retrieve_hal_interface_lem service fresh 1 2 fresh-linked (3 ∷ [])

abbrev base : HalBase ℕ ℕ
base = record {
  link_to_death = λ o w. (of_value true, suc w);
  unlink_to_death = λ o w. (of_value true, suc w);
}

abbrev default_linked : Converter ℕ ℕ
default_linked = record { obituaries = obituary 5 6 0 ∷ []; world = 0 }

unlink_zero_flags_example :
    unlink_to_death linux_codes base (some 5) 6 0 default_linked
    ≡ done (linux_codes.name_not_found, none, default_linked)
unlink_zero_flags_example =
    unlink_zero_flags linux_codes base (some 5) 6 0 default_linked (refl, tt)
