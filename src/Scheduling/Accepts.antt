-- ===== src/Scheduling/Accepts.antt =====
-- Which calls of `setMinSchedulerPolicy` succeed, and what they store.
use platform_system_libhidl.Prelude.Eq.{Eq}
use platform_system_libhidl.ConcurrentMap
use platform_system_libhidl.ConcurrentMap.{ConcurrentMap}
use platform_system_libhidl.ConcurrentMap.View.{get-set}
use platform_system_libhidl.Scheduling.{SchedPrio, Policies, set_min_scheduler_policy}
use platform_system_libhidl.Prelude.{
  Bool-cases, ℤ, pos, ltb_ℤ, eqb_ℤ, eqb_ℤ_iff, eqb_ℤ_refl, eqb_ℤ_comm, refl, inl, inr, Bool, true,
  false, not, arith, if◌then◌else◌, ◌≡◌, ◌&&◌, ◌||◌,
}

abbrev pub between : ℤ → ℤ → ℤ → Bool
between lo hi x = not (ltb_ℤ x lo) && not (ltb_ℤ hi x)

-- The calls that the code accepts: a local service, with SCHED_NORMAL and a priority of 1 to 19,
-- or with SCHED_FIFO or SCHED_RR and a priority of 1 to 99.
abbrev pub accepts : Policies → (is_remote : Bool) → ℤ → ℤ → Bool
accepts p is_remote policy priority =
    not is_remote
    && ((eqb_ℤ policy p.normal && between (pos 1) (pos 19) priority)
        || ((eqb_ℤ policy p.fifo || eqb_ℤ policy p.rr) && between (pos 1) (pos 99) priority))

-- SCHED_NORMAL is neither of the real-time policies.
normal_alone :
    (p : Policies) (policy : ℤ)
    → eqb_ℤ policy p.normal ≡ true
    → (eqb_ℤ policy p.fifo ≡ false) × (eqb_ℤ policy p.rr ≡ false)
normal_alone p policy h =
    let e = (eqb_ℤ_iff policy p.normal).0 h in
    (
      rw (e, eqb_ℤ_comm p.normal p.fifo) p.normal_ne_fifo,
      rw (e, eqb_ℤ_comm p.normal p.rr) p.normal_ne_rr,
    )

module _ {K : Type 0} ⦃e : Eq K⦄ (p : Policies) where
  -- The ladder of tests is the one test `accepts`.
  set_if_accepts :
      (is_remote : Bool) (service : K) (policy priority : ℤ) (m : ConcurrentMap K SchedPrio)
      → set_min_scheduler_policy p is_remote service policy priority m ≡ (
          if accepts p is_remote policy priority
          then (
            ConcurrentMap.set service (record { sched_policy = policy; prio = priority }) m,
            true,
          )
          else (m, false))
  unfolding set_min_scheduler_policy
  set_if_accepts true service policy priority m = refl
  set_if_accepts false service policy priority m = elim (Bool-cases (eqb_ℤ policy p.normal)) [
    | inl n ↦ let (f, r) = normal_alone p policy n in rw (n, f, r) (ground arith)
    | inr n ↦ elim (Bool-cases (eqb_ℤ policy p.fifo)) [
      | inl f ↦ rw (n, f) (ground arith)
      | inr f ↦ rw (n, f) (ground arith)
    ]
  ]

  -- The result tells whether the call is accepted. An accepted call makes the pair the service's
  -- entry and changes no other entry; a refused one leaves every entry as it was.
  pub set_min_scheduler_policy_lem :
      (is_remote : Bool) (service other : K) (policy priority : ℤ) (def : SchedPrio)
      (m : ConcurrentMap K SchedPrio)
      → ((set_min_scheduler_policy p is_remote service policy priority m).1
          ≡ accepts p is_remote policy priority)
        × (ConcurrentMap.get other def
              (set_min_scheduler_policy p is_remote service policy priority m).0
            ≡ (if accepts p is_remote policy priority && e.beq service other
                then record { sched_policy = policy; prio = priority }
                else ConcurrentMap.get other def m))
  set_min_scheduler_policy_lem is_remote service other policy priority def m =
      elim (Bool-cases (accepts p is_remote policy priority)) [
        | inl fits ↦
            rw (set_if_accepts is_remote service policy priority m, fits)
              (refl, get-set service other _ def m)
        | inr misfit ↦ rw (set_if_accepts is_remote service policy priority m, misfit) (refl, refl)
      ]

  -- Every priority below 1, so also -20 to 0, is refused for SCHED_NORMAL and changes nothing,
  -- although the range that the code checks for that policy, and documents, is -20 to 19.
  pub normal_refused :
      (is_remote : Bool) (service : K) (priority : ℤ) (m : ConcurrentMap K SchedPrio)
      → ltb_ℤ priority (pos 1) ≡ true
      → set_min_scheduler_policy p is_remote service p.normal priority m ≡ (m, false)
  normal_refused is_remote service priority m low =
      let (f, r) = normal_alone p p.normal (eqb_ℤ_refl p.normal) in
      rw (set_if_accepts is_remote service p.normal priority m) (ground (arith, f, r))
