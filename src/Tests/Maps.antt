-- ===== src/Tests/Maps.antt =====
-- Maps from numbers, scheduling policies of services that are numbers, and versions.
use platform_system_libhidl.ConcurrentMap
use platform_system_libhidl.ConcurrentMap.{ConcurrentMap, find, set, get, erase, erase_if_equal}
use platform_system_libhidl.ConcurrentMap.View.{find_lem}
use platform_system_libhidl.Scheduling.{SchedPrio, Policies, set_min_scheduler_policy}
use platform_system_libhidl.Scheduling.Accepts.{set_min_scheduler_policy_lem}
use platform_system_libhidl.Version.{HidlVersion, make_hidl_version, IsVersion}
use platform_system_libhidl.Prelude.Eq.{nat_eq}
use platform_system_libhidl.Prelude.{pos, ℕ, refl, true, false, some, [], arith, ◌==◌, ◌≡◌, ◌∷◌}

abbrev ages : ConcurrentMap ℕ ℕ
ages = record { entries = (1, 30) ∷ (2, 40) ∷ [] }

find_lem_example :
    (find 1 (set 2 50 ages) ≡ some 30)
    × (find 1 (erase 2 ages).0 ≡ some 30)
    × ((erase 2 ages).1 ≡ 1)
    × (find 1 (erase_if_equal ◌==◌ 2 50 ages).0 ≡ some 30)
    × ((erase_if_equal ◌==◌ 2 50 ages).1 ≡ 0)
    × (get 1 9 ages ≡ 30)
unfolding find set erase erase_if_equal get
find_lem_example = find_lem ◌==◌ 2 1 50 9 ages

abbrev linux_policies : Policies
linux_policies = record {
  normal = pos 0;
  fifo = pos 1;
  rr = pos 2;
  normal_ne_fifo = refl;
  normal_ne_rr = refl;
}

abbrev unset : SchedPrio
unset = record { sched_policy = pos 0; prio = pos 0 }

abbrev services : ConcurrentMap ℕ SchedPrio
services = record { entries = (8, unset) ∷ [] }

set_min_scheduler_policy_lem_example :
    ((set_min_scheduler_policy linux_policies false 7 (pos 1) (pos 50) services).1 ≡ true)
    × (ConcurrentMap.get 7 unset
          (set_min_scheduler_policy linux_policies false 7 (pos 1) (pos 50) services).0
        ≡ record { sched_policy = pos 1; prio = pos 50 })
set_min_scheduler_policy_lem_example =
    set_min_scheduler_policy_lem linux_policies false 7 7 (pos 1) (pos 50) unset services

abbrev v1_0 : HidlVersion
v1_0 = make_hidl_version 1 0

abbrev v1_2 : HidlVersion
v1_2 = make_hidl_version 1 2

v1_0-IsVersion : IsVersion v1_0
v1_0-IsVersion = record { major_range = omega arith; minor_range = omega arith }

v1_2-IsVersion : IsVersion v1_2
v1_2-IsVersion = record { major_range = omega arith; minor_range = omega arith }
