-- ===== src/Tests/Managed.antt =====
-- A token manager: the world is the number of calls and the link of the death recipient. Each third
-- call of createToken fails, and a recipient is not registered before the fourth call.
use platform_system_libhidl.Status.{from_status_t, ok_status}
use platform_system_libhidl.Status.Return.{of_value, of_status}
use platform_system_libhidl.Token.{TokenService, TokenState, token_state}
use platform_system_libhidl.Token.Programs.{
  Event, retrieves, deletes, creates, dies, run, Links, link_to, observed, run-IsLinked,
}
use platform_system_libhidl.Tests.Codes.{linux_codes}
use platform_system_libhidl.Prelude.{
  ltb, negsuc, done, ℕ, suc, refl, Bool, true, false, Option, none, some, List, [], arith, ◌==◌,
  if◌then◌else◌, ◌%◌, ◌≡◌, ◌∷◌,
}

abbrev World : Type 0
World = ℕ × Option (ℕ × Bool)

abbrev manager : TokenService ℕ ℕ World
manager = record {
  get_service = λ w. (some w.0, (suc w.0, w.1));
  link_to_death = λ m w. (of_value (ltb 3 w.0), (suc w.0, some (m, ltb 3 w.0)));
  unlink_to_death = λ m w. (of_value true, (suc w.0, none));
  get = λ m token w. (of_value (some 7), (suc w.0, w.1));
  create_token = λ m i w.
      if w.0 % 3 == 0
      then (none, of_status tt (from_status_t linux_codes (negsuc 31)), (suc w.0, w.1))
      else (some (i ∷ []), of_value tt, (suc w.0, w.1));
  unregister = λ m token w. (of_value true, (suc w.0, w.1));
}

abbrev forget : World → World
forget w = (w.0, none)

manager-Links : Links manager forget (λ w. w.1)
unfolding of_value ok_status
manager-Links = record {
  linking = λ m w. refl;
  unlinking = λ m w. refl;
  finding = λ w. refl;
  getting = λ m token w. refl;
  creating = λ m i w. ground arith;
  unregistering = λ m token w. refl;
  forgetting = λ w. refl;
}

abbrev events : List (Event ℕ)
events = creates 5 [] ∷ creates 6 [] ∷ retrieves (5 ∷ []) ∷ dies ∷ deletes (5 ∷ []) ∷ []

run-IsLinked_example :
    (s' : TokenState ℕ World) × (run manager forget events (token_state none (0, none)) ≡ done s')
    × ((registered : Bool) × (s'.world.1 ≡ link_to registered s'.manager)
        × (observed s'.world.1 ≡ (if registered then s'.manager else none)))
run-IsLinked_example =
    run-IsLinked manager forget (λ w. w.1) manager-Links events (token_state none (0, none))
      (false, refl, refl)

-- Its death is not observed, and gTokenManager refers to it.
unregistered_is_kept :
    run manager forget (deletes [] ∷ []) (token_state none (0, none))
    ≡ done (token_state (some 0) (3, some (0, false)))
unfolding run of_value ok_status
unregistered_is_kept = refl
