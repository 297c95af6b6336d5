-- ===== src/TaskRunner/Shutdown.antt =====
-- What `TaskRunner::~TaskRunner` does to the background thread: it pushes an empty task, which
-- ends the loop if the queue has room for it.
use platform_system_libhidl.Prelude.{
  ℕ, suc, ◌≤◌, ◌<◌, ◌≡◌, refl, true, false, none, some, List, [], ◌∷◌, ◌++◌, arith, append-nil,
  append_assoc, length, ◌∙◌, sym, ap, ltb,
}
use platform_system_libhidl.TaskRunner.{
  Task, world, Action, client_destroy, work_rounds, run, pushes, destroys, works,
}

module _ {F : Type 0} where
  -- A queue of callable tasks.
  abbrev pub waiting : List F → List (Task F)
  waiting [] = []
  waiting (f ∷ fs) = some f ∷ waiting fs

  length-waiting : (fs : List F) → length (waiting fs) ≡ length fs
  length-waiting [] = refl
  length-waiting (f ∷ fs) = ap suc (length-waiting fs)

  work_rounds-sentinel :
      (fs : List F) (limit : ℕ) (ran : List F)
      → work_rounds (suc (length fs)) (world (waiting fs ++ none ∷ []) limit false false ran)
        ≡ world [] limit false true (ran ++ fs)
  unfolding work_rounds
  work_rounds-sentinel [] limit ran = ap (world [] limit false true) (sym (append-nil ran))
  work_rounds-sentinel (f ∷ fs) limit ran =
      work_rounds-sentinel fs limit (ran ++ f ∷ [])
      ∙ ap (world [] limit false true) (append_assoc ran (f ∷ []) fs)

  -- If the queue has room when the runner is destroyed, the thread runs every waiting task, in
  -- order, in one round each, and then leaves its loop with the queue empty.
  pub destroy-drains :
      (fs : List F) (limit : ℕ) (ran : List F)
      → length fs < limit
      → work_rounds (suc (length fs)) (client_destroy (world (waiting fs) limit true false ran))
        ≡ world [] limit false true (ran ++ fs)
  unfolding client_destroy
  destroy-drains fs limit ran room =
      let fits : ltb (length (waiting fs)) limit ≡ true = ground (arith, length-waiting fs) in
      rw fits (work_rounds-sentinel fs limit ran)

  stopped-run :
      (acts : List (Action F)) (fs : List F) (limit : ℕ) (ran : List F)
      → (run acts (world (waiting fs) limit false false ran)).stopped ≡ false
  unfolding run
  stopped-run [] fs limit ran = refl
  stopped-run (pushes f ∷ rest) fs limit ran = stopped-run rest fs limit ran
  stopped-run (destroys ∷ rest) fs limit ran = stopped-run rest fs limit ran
  stopped-run (works ∷ rest) [] limit ran = stopped-run rest [] limit ran
  stopped-run (works ∷ rest) (f ∷ fs) limit ran = stopped-run rest fs limit (ran ++ f ∷ [])

  -- If the queue is full when the runner is destroyed, the empty task is dropped, and the thread
  -- never leaves its loop, whatever happens afterwards.
  pub destroy_full :
      (fs : List F) (limit : ℕ) (ran : List F) (acts : List (Action F))
      → limit ≤ length fs
      → (run acts (client_destroy (world (waiting fs) limit true false ran))).stopped ≡ false
  unfolding client_destroy
  destroy_full fs limit ran acts full =
      let refused : ltb (length (waiting fs)) limit ≡ false = ground (arith, length-waiting fs) in
      rw refused (stopped-run acts fs limit ran)
