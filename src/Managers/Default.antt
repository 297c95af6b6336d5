-- ===== src/Managers/Default.antt =====
-- Who gets a reference to the hwservicemanager, and when.
use platform_system_libhidl.Managers.{
  wait_for_hw_service_manager, manager_loop, default_service_manager1_1,
}
use platform_system_libhidl.Prelude.{
  replicate, ℕ, zero, suc, refl, Bool, true, false, Option, none, some, List, ◌≡◌, ◌∷◌, ◌++◌,
}

-- `n` seconds pass before the property is true, and `k` null answers come before the manager.
wait-replicate :
    (n : ℕ) (later : List Bool)
    → wait_for_hw_service_manager (replicate n false ++ true ∷ later) ≡ some later
unfolding wait_for_hw_service_manager
wait-replicate zero later = refl
wait-replicate (suc n) later = wait-replicate n later

module _ {M : Type 0} where
  manager_loop-replicate :
      (k : ℕ) (m : M) (later : List (Option M))
      → manager_loop none (replicate k none ++ some m ∷ later) ≡ some m
  unfolding manager_loop
  manager_loop-replicate zero m later = refl
  manager_loop-replicate (suc k) m later = manager_loop-replicate k m later

  -- Where /dev/hwbinder is accessible, the wait ends after any number of seconds without the
  -- property and any number of null context objects, with the first manager that appears; every
  -- later call returns the same manager at once, whatever then happens. Where it is not accessible,
  -- the result is null and the next call tries again.
  pub default_service_manager_lem :
      (n k : ℕ) (m : M) (ready ready' : List Bool) (contexts contexts' : List (Option M))
      (accessible : Bool)
      → (default_service_manager1_1 true
            (replicate n false ++ true ∷ ready)
            (replicate k none ++ some m ∷ contexts)
            none
          ≡ some (some m, some m))
        × (default_service_manager1_1 accessible ready' contexts' (some m) ≡ some (some m, some m))
        × (default_service_manager1_1 false ready' contexts' none ≡ some (none, none))
  unfolding default_service_manager1_1
  default_service_manager_lem n k m ready ready' contexts contexts' accessible =
      (rw (wait-replicate n ready, manager_loop-replicate k m contexts) refl, refl, refl)
