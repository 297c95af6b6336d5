-- ===== src/Tests/Hybrid.antt =====
-- A token 9 for interface 7, in a reply that is a pair; the world counts the calls.
use platform_system_libhidl.Hybrid.{HybridOps, converter, make_hp_interface, on_transact}
use platform_system_libhidl.Hybrid.Exchange.{make_hp_interface-on_transact}
use platform_system_libhidl.Status.Return.{of_value}
use platform_system_libhidl.Token.{
  TokenService, token_state, is_bad_token_manager, create_hal_token,
}
use platform_system_libhidl.Tests.Codes.{linux_codes}
use platform_system_libhidl.Prelude.{
  negsuc, done, Bytes, codes, ℕ, suc, refl, Bool, true, false, none, some, [], ◌+◌, ◌≡◌, ◌∷◌,
}

abbrev tokens : TokenService ℕ ℕ ℕ
tokens = record {
  get_service = λ w. (some 1, suc w);
  link_to_death = λ m w. (of_value true, suc w);
  unlink_to_death = λ m w. (of_value true, suc w);
  get = λ m token w. (of_value (some 7), suc w);
  create_token = λ m i w. (some (9 ∷ []), of_value tt, suc w);
  unregister = λ m token w. (of_value true, suc w);
}

abbrev get_hal_token : ℕ
get_hal_token = 1598507092

abbrev replies : HybridOps ℕ ℕ (Bool × Bytes) ℕ
replies = record {
  write_bool = λ b p. (b, p.1);
  write_byte_array = λ t p. (p.0, t);
  read_bool = λ p. (p.0, p);
  read_byte_vector = λ p. (p.1, p);
  interface_token = (false, codes "IFoo");
  super_on_transact = λ code request reply flags w. (negsuc 73, reply, w);
  is_remote = true;
  transact = λ code request w. (linux_codes.no_error, (true, 9 ∷ []), suc w);
  cast_from = λ i w. (of_value (some (i + 100)), suc w);
}

created :
    create_hal_token tokens false 7 [] (token_state none 0)
    ≡ done (true, 9 ∷ [], token_state (some 1) 3)
unfolding create_hal_token
created = refl

served :
    on_transact replies linux_codes tokens get_hal_token false 7 get_hal_token
      replies.interface_token
      (false, [])
      0
      (token_state none 0)
    ≡ done (linux_codes.no_error, (true, 9 ∷ []), token_state (some 1) 3)
unfolding on_transact
served = refl

at_hand : is_bad_token_manager tokens (token_state none 21) ≡ (false, token_state (some 1) 23)
unfolding is_bad_token_manager of_value
at_hand = refl

make_hp_interface-on_transact_example :
    make_hp_interface replies linux_codes tokens get_hal_token (token_state none 20)
    ≡ done (record { base = converter 107; hal = some 107 }, token_state (some 1) 26)
unfolding of_value
make_hp_interface-on_transact_example =
    make_hp_interface-on_transact replies linux_codes tokens get_hal_token false 7 (false, [])
      (true, 9 ∷ []) (true, 9 ∷ []) (true, 9 ∷ []) 0 (token_state none 0) (token_state (some 1) 3)
      (9 ∷ []) none 1 20 21 23 24 25 (some 7) (some 107) refl created refl refl served refl at_hand
      refl refl refl
