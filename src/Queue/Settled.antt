-- ===== src/Queue/Settled.antt =====
-- The calls in progress settle: with no new call, whatever the order of the steps, the threads come
-- to rest, each blocked one on an empty queue.
use platform_system_libhidl.Queue
use platform_system_libhidl.Queue.Threads.{
  after_test, Phase, outside, notifying, sleeping, woken, System, pop_section, notify,
  notify_nobody, wake, asleep, busy, At, Inside, retries, notifies, notifies_nobody, inside, wakes,
  Reach, later,
}
use platform_system_libhidl.Queue.Counts.{total-notify, total-find, busy_cases}
use platform_system_libhidl.Queue.Wakeups.{Reach-Inv}
use platform_system_libhidl.Prelude.{
  ltb, ltb→lt, Bool-cases, Option-cases, length, total, total-set, ℕ, suc, refl, ap, inl, inr, some,
  arith, ◌+◌, ◌≤◌, ◌<◌, ◌≡◌, ◌∙◌, ◌⊎◌,
}

-- A notification costs a second step, of the thread that it wakes.
abbrev pub work : Phase → ℕ
work notifying = 2
work woken = 1
work _ = 0

asleep_cases : (p : Phase) → 0 < asleep p → p ≡ sleeping
asleep_cases outside h = absurd (omega arith)
asleep_cases notifying h = absurd (omega arith)
asleep_cases sleeping h = refl
asleep_cases woken h = absurd (omega arith)

module _ {ℓ} {T : Type ℓ} where
  -- A schedule with no new call: `n` steps of calls in progress, and `m` wake-ups of blocked
  -- threads for no reason.
  pub data Steps : System T → ℕ → ℕ → System T → Type ℓ where
    here : {s : System T} → Steps s 0 0 s
    next : {n m : ℕ} {s t u : System T} → Inside s t → Steps t n m u → Steps s (suc n) m u
    spurious :
        {n m : ℕ} {s u : System T} (i : ℕ)
        → At s i sleeping
        → Steps (wake i s) n m u
        → Steps s n (suc m) u

  Reach-Steps :
      {k limit n m : ℕ} {s t : System T} → Reach k limit s → Steps s n m t → Reach k limit t
  Reach-Steps r here = r
  Reach-Steps r (next st rest) = Reach-Steps (later r (inside st)) rest
  Reach-Steps r (spurious i e rest) = Reach-Steps (later r (wakes i e)) rest

  pop_section-work :
      (s : System T) (i : ℕ)
      → At s i woken
      → total work (pop_section i s).threads + 1 ≡ total work s.threads
  unfolding pop_section after_test
  pop_section-work s i e = elim (Option-cases (Queue.wait_pop s.queue)) [
    | inl n ↦ rw n (omega (arith, total-set work s.threads i woken sleeping e))
    | inr (r, n) ↦ rw n (omega (arith, total-set work s.threads i woken outside e))
  ]

  -- After every step of a call in progress there is less to do.
  Inside-work : {s t : System T} → Inside s t → total work t.threads < total work s.threads
  Inside-work {s} (retries i e) = omega (arith, pop_section-work s i e)
  Inside-work {s} (notifies i j e f) =
      unfold notify in omega (arith, total-notify work s.threads i j e f)
  Inside-work {s} (notifies_nobody i e none_asleep) =
      unfold notify_nobody in omega (arith, total-set work s.threads i notifying outside e)

  wake-work :
      (s : System T) (i : ℕ)
      → At s i sleeping
      → total work (wake i s).threads ≡ total work s.threads + 1
  unfolding wake
  wake-work s i e = omega (arith, total-set work s.threads i sleeping woken e)

  Steps-work :
      {n m : ℕ} {s t : System T}
      → Steps s n m t
      → n + total work t.threads ≤ total work s.threads + m
  Steps-work here = omega arith
  Steps-work (next st rest) = omega (arith, Inside-work st, Steps-work rest)
  Steps-work {n} {m} {s} (spurious i e rest) = omega (arith, wake-work s i e, Steps-work rest)

  -- A thread that notifies or was woken can go on.
  go_on : (s : System T) → 0 < total busy s.threads → (t : System T) × Inside s t
  go_on s h =
      let (i, p, e, b) = total-find busy s.threads h in
      elim (busy_cases p b) [
        | inl q ↦
            let e' : At s i notifying = e ∙ ap some q in
            elim (Bool-cases (ltb 0 (total asleep s.threads))) [
              | inl some_asleep ↦
                  let (j, r, f, a) =
                    total-find asleep s.threads (ltb→lt 0 (total asleep s.threads) some_asleep) in
                  (notify i j s, notifies i j e' (f ∙ ap some (asleep_cases r a)))
              | inr none_asleep ↦ (notify_nobody i s, notifies_nobody i e' (ground arith))
            ]
        | inr q ↦ (pop_section i s, retries i (e ∙ ap some q))
      ]

  -- No thread is about to act, and if one is blocked, the queue is empty.
  abbrev pub IsAtRest : System T → Type 0
  IsAtRest t =
      (total busy t.threads ≡ 0) × ((total asleep t.threads ≡ 0) ⊎ (length t.queue.items ≡ 0))

  -- From every reachable state, every schedule with no new call comes to rest: it has at most two
  -- steps for each thread about to notify, one for each that was woken and one more for each
  -- wake-up for no reason; and where it stops, either a call in progress can take another step, or
  -- no thread is about to act and, if one is blocked, the queue is empty.
  pub settles :
      {k limit n m : ℕ} (s t : System T)
      → Reach k limit s
      → Steps s n m t
      → (n ≤ total work s.threads + m) × (IsAtRest t ⊎ ((u : System T) × Inside t u))
  settles s t r steps =
      let inv = Reach-Inv (Reach-Steps r steps) in
      (
        omega (arith, Steps-work steps),
        elim (Bool-cases (ltb 0 (total busy t.threads))) [
          | inl more ↦ inr (go_on t (ltb→lt 0 (total busy t.threads) more))
          | inr quiet ↦ inl (ground arith, ground (arith, inv.noticed))
        ],
      )
