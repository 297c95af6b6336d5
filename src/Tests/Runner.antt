-- ===== src/Tests/Runner.antt =====
-- Tasks are numbers; the queue has room for two.
use platform_system_libhidl.TaskRunner.{
  world, Action, pushes, destroys, works, run, work_rounds, client_destroy, started,
}
use platform_system_libhidl.TaskRunner.Fifo.{history, accepted, history-run}
use platform_system_libhidl.TaskRunner.Shutdown.{waiting, destroy-drains, destroy_full}
use platform_system_libhidl.Prelude.{ℕ, true, false, List, [], arith, ◌≡◌, ◌∷◌, ◌++◌}

abbrev actions : List (Action ℕ)
actions = pushes 4 ∷ pushes 5 ∷ works ∷ pushes 6 ∷ pushes 7 ∷ works ∷ destroys ∷ works ∷ []

history-run_example :
    history (run actions (started 2)) ≡ history (started 2) ++ accepted actions (started 2)
history-run_example = history-run actions (started 2)

abbrev two : List ℕ
two = 4 ∷ 5 ∷ []

destroy-drains_example :
    work_rounds {F = ℕ} 3 (client_destroy (world (waiting two) 3 true false (9 ∷ [])))
    ≡ world [] 3 false true (9 ∷ 4 ∷ 5 ∷ [])
destroy-drains_example = destroy-drains (4 ∷ 5 ∷ []) 3 (9 ∷ []) (omega arith)

destroy_full_example :
    (run {F = ℕ}
      (works ∷ works ∷ works ∷ [])
      (client_destroy (world (waiting two) 2 true false []))).stopped
    ≡ false
destroy_full_example = destroy_full (4 ∷ 5 ∷ []) 2 [] (works ∷ works ∷ works ∷ []) (omega arith)
