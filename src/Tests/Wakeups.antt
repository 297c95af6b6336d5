-- ===== src/Tests/Wakeups.antt =====
-- Two threads and a queue with room for two: one is blocked, the other has pushed and not notified.
use platform_system_libhidl.Queue.{make_queue}
use platform_system_libhidl.Queue.Threads.{
  notifying, woken, System, init, push_section, pop_section, notify_nobody, wake, At, Inside,
  retries, notifies_nobody, pushes, pops, Reach, start, later,
}
use platform_system_libhidl.Queue.Wakeups.{no_wakeup_lost, accepted_lem}
use platform_system_libhidl.Queue.Settled.{Steps, here, next, spurious, IsAtRest, work, settles}
use platform_system_libhidl.Prelude.{length, total, ℕ, refl, arith, ◌+◌, ◌≤◌, ◌≡◌, ◌⊎◌, ◌++◌}

abbrev blocked_then_pushed : System ℕ
blocked_then_pushed = push_section 1 7 (pop_section 0 (init 2 2))

reached : Reach 2 2 blocked_then_pushed
unfolding push_section pop_section make_queue
reached = later (later start (pops 0 refl)) (pushes 1 7 refl)

no_wakeup_lost_example :
    (j : ℕ) × (At blocked_then_pushed j notifying ⊎ At blocked_then_pushed j woken)
unfolding push_section pop_section make_queue
no_wakeup_lost_example = no_wakeup_lost blocked_then_pushed 0 reached refl (omega arith)

accepted_lem_example :
    (blocked_then_pushed.taken ++ blocked_then_pushed.queue.items ≡ blocked_then_pushed.accepted)
    × (length blocked_then_pushed.queue.items ≤ 2)
accepted_lem_example = accepted_lem blocked_then_pushed reached

-- The thread that was blocked wakes for no reason and takes the item; the other one notifies nobody.
abbrev taken_early : System ℕ
taken_early = pop_section 0 (wake 0 blocked_then_pushed)

taken_early-Steps : Steps blocked_then_pushed 2 1 (notify_nobody 1 taken_early)
unfolding push_section pop_section make_queue wake
taken_early-Steps =
    spurious 0 refl (next (retries 0 refl) (next (notifies_nobody 1 refl refl) here))

settles_example :
    (2 ≤ total work blocked_then_pushed.threads + 1)
    × (IsAtRest (notify_nobody 1 taken_early)
        ⊎ ((u : System ℕ) × Inside (notify_nobody 1 taken_early) u))
settles_example =
    settles blocked_then_pushed (notify_nobody 1 taken_early) reached taken_early-Steps
