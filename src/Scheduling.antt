-- ===== src/Scheduling.antt =====
-- transport/HidlTransportSupport.cpp: `setMinSchedulerPolicy`. A service is the key `K` of
-- `gServicePrioMap`; whether it is remote is an argument. The policies are constants of the Linux
-- headers, and so parameters.
pub mod Accepts
use platform_system_libhidl.Prelude.Eq.{Eq}
use platform_system_libhidl.ConcurrentMap
use platform_system_libhidl.ConcurrentMap.{ConcurrentMap}
use platform_system_libhidl.Prelude.{
  set, ℤ, pos, negsuc, ltb_ℤ, eqb_ℤ, Bool, true, false, not, if◌then◌else◌, ◌≡◌, ◌&&◌, ◌||◌,
}

pub record SchedPrio : Type 0 where
  pub sched_policy : ℤ
  pub prio : ℤ

pub record Policies : Type 0 where
  pub normal : ℤ
  pub fifo : ℤ
  pub rr : ℤ
  pub normal_ne_fifo : eqb_ℤ fifo normal ≡ false
  pub normal_ne_rr : eqb_ℤ rr normal ≡ false

module _ {K : Type 0} ⦃e : Eq K⦄ (p : Policies) where
  unfoldable pub set_min_scheduler_policy :
      (is_remote : Bool) → K → ℤ → ℤ → ConcurrentMap K SchedPrio → ConcurrentMap K SchedPrio × Bool
  set_min_scheduler_policy is_remote service policy priority m =
      if is_remote
      then (m, false)
      else if not (eqb_ℤ policy p.normal) && not (eqb_ℤ policy p.fifo) && not (eqb_ℤ policy p.rr)
      then (m, false)
      else if eqb_ℤ policy p.normal && (ltb_ℤ priority (negsuc 19) || ltb_ℤ (pos 19) priority)
      then (m, false)
      else if ltb_ℤ priority (pos 1) || ltb_ℤ (pos 99) priority
      then (m, false)
      else (ConcurrentMap.set service (record { sched_policy = policy; prio = priority }) m, true)
