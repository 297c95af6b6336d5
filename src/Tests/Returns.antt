-- ===== src/Tests/Returns.antt =====
-- Results of remote calls: a number, or the error DEAD_OBJECT.
use platform_system_libhidl.Status.{Status, is_ok, from_status_t}
use platform_system_libhidl.Status.Return.{Return, of_status, destroy}
use platform_system_libhidl.Status.Return.Checked.{
  Observer, asks_dead, describes, observe_all, noticed, destroy-observe_all,
}
use platform_system_libhidl.Tests.Codes.{linux_codes}
use platform_system_libhidl.Prelude.{
  negsuc, done, fatal, ℕ, List, [], if◌then◌else◌, ◌≡◌, ◌||◌, ◌∷◌,
}

abbrev dead : Status
dead = from_status_t linux_codes (negsuc 31)

abbrev observers : List (Observer ℕ)
observers = describes ∷ asks_dead ∷ []

destroy-observe_all_example :
    destroy (observe_all linux_codes observers (of_status 0 dead))
    ≡ (if is_ok dead || noticed linux_codes observers dead then done tt else fatal)
destroy-observe_all_example = destroy-observe_all linux_codes observers 0 dead

abbrev lost : Return ℕ
lost = of_status 0 dead
