-- ===== src/Managers.antt =====
-- transport/ServiceManagement.cpp: the process-wide reference to the hwservicemanager, the methods
-- that the passthrough manager refuses, and the loading of all implementations of an interface.
pub mod Default
use platform_system_libhidl.Passthrough.{Build, open_libs}
use platform_system_libhidl.Prelude.{
  Run, fatal, Bytes, ℕ, Bool, true, not, Option, none, some, List, [], if◌then◌else◌, ◌∷◌,
}

-- The answers of WaitForProperty, one for each second: what is left of them once it was true, or
-- none if the caller still waits.
unfoldable pub wait_for_hw_service_manager : List Bool → Option (List Bool)
wait_for_hw_service_manager [] = none
wait_for_hw_service_manager (ready ∷ answers) =
    let later = wait_for_hw_service_manager answers in if ready then some answers else later

module _ {M : Type 0} where
  -- while (gDefaultServiceManager == NULL), on what fromBinder gives of the context object in each
  -- round: none if the caller still waits.
  unfoldable pub manager_loop : Option M → List (Option M) → Option M
  manager_loop (some m) answers = some m
  manager_loop none [] = none
  manager_loop none (answer ∷ answers) = manager_loop answer answers

  -- The result and gDefaultServiceManager, or none if the caller still waits. `accessible` tells
  -- whether /dev/hwbinder can be read and written.
  unfoldable pub default_service_manager1_1 :
      (accessible : Bool) → List Bool → List (Option M) → Option M → Option (Option M × Option M)
  unfolding wait_for_hw_service_manager manager_loop
  default_service_manager1_1 accessible ready contexts (some m) = some (some m, some m)
  default_service_manager1_1 accessible ready contexts none =
      if not accessible then some (none, none) else (elim (wait_for_hw_service_manager ready) [
        | none ↦ none
        | some later ↦ elim (manager_loop none contexts) [
          | none ↦ none
          | some m ↦ some (some m, some m)
        ]
      ])

  unfoldable pub default_service_manager :
      (accessible : Bool) → List Bool → List (Option M) → Option M → Option (Option M × Option M)
  unfolding default_service_manager1_1
  default_service_manager accessible ready contexts manager =
      default_service_manager1_1 accessible ready contexts manager

-- The methods of PassthroughServiceManager that only a binderized manager has.
pub data Refused : Type 0 where
  add get_transport list list_by_interface register_for_notifications : Refused
  register_passthrough_client unregister_for_notifications : Refused

unfoldable pub call_refused : {A : Type 0} → Refused → Run A
call_refused add = fatal
call_refused get_transport = fatal
call_refused list = fatal
call_refused list_by_interface = fatal
call_refused register_for_notifications = fatal
call_refused register_passthrough_client = fatal
call_refused unregister_for_notifications = fatal

-- `loaded` is what loading a library does; the libraries stay open.
unfoldable pub preload_passthrough_service :
    {S : Type 0}
    → (S → Bytes → Option (List Bytes))
    → (Bool → Bytes → S → Option ℕ × S)
    → Build
    → Bytes
    → S
    → S
unfolding open_libs
preload_passthrough_service listing load b descriptor s =
    open_libs listing load (λ handle lib symbol s'. (true, s')) b descriptor s
