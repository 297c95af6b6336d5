-- ===== src/TaskRunner/Fifo.antt =====
-- Tasks run in the order in which `push` accepted them, and the queue keeps within its limit.
use platform_system_libhidl.Prelude.{
  ℕ, ◌≤◌, ◌≡◌, refl, Bool, true, false, none, some, List, [], ◌∷◌, ◌++◌, arith, append-nil,
  append_assoc, length, length-append, if◌then◌else◌, ltb, Bool-cases, inl, inr, ◌∙◌, ap, sym,
}
use platform_system_libhidl.Queue
use platform_system_libhidl.Queue.{SynchronizedQueue}
use platform_system_libhidl.TaskRunner.{
  Task, World, world, Action, client_push, client_destroy, work, act, run, pushes, destroys, works,
}

module _ {F : Type 0} where
  -- The callables among queued tasks.
  abbrev pub callables : List (Task F) → List F
  callables [] = []
  callables (none ∷ ts) = callables ts
  callables (some f ∷ ts) = f ∷ callables ts

  -- The task that an action adds: that of a push on a live runner whose queue has room.
  abbrev pub takes : Action F → World F → List F
  takes (pushes f) w =
      if w.alive then (if ltb (length w.queue.items) w.queue.limit then f ∷ [] else []) else []
  takes destroys w = []
  takes works w = []

  -- The tasks that an interleaving adds, in its order.
  unfoldable pub accepted : List (Action F) → World F → List F
  unfolding act
  accepted [] w = []
  accepted (a ∷ rest) w = takes a w ++ accepted rest (act a w)

  -- What has run, then what waits.
  abbrev pub history : World F → List F
  history w = w.ran ++ callables w.queue.items

  callables-append : (ts us : List (Task F)) → callables (ts ++ us) ≡ callables ts ++ callables us
  callables-append [] us = refl
  callables-append (none ∷ ts) us = callables-append ts us
  callables-append (some f ∷ ts) us = rw (callables-append ts us)

  history-work_world :
      (items : List (Task F)) (limit : ℕ) (alive stopped : Bool) (ran : List F)
      → history (work (world items limit alive stopped ran)) ≡ ran ++ callables items
  unfolding work
  history-work_world items limit alive true ran = refl
  history-work_world [] limit alive false ran = refl
  history-work_world (none ∷ ts) limit alive false ran = refl
  history-work_world (some f ∷ ts) limit alive false ran = append_assoc ran (f ∷ []) (callables ts)

  history-work : (w : World F) → history (work w) ≡ history w
  history-work w = history-work_world w.queue.items w.queue.limit w.alive w.stopped w.ran

  -- What one push of `f` adds to the history.
  abbrev entry : F → World F → List F
  entry f w = if ltb (length w.queue.items) w.queue.limit then f ∷ [] else []

  history-client_push : (f : F) (w : World F) → history (client_push f w) ≡ history w ++ entry f w
  unfolding client_push
  history-client_push f w = elim (Bool-cases (ltb (length w.queue.items) w.queue.limit)) [
    | inl room ↦ rw room (
        ap (λ xs. w.ran ++ xs) (callables-append w.queue.items (some f ∷ []))
        ∙ sym (append_assoc w.ran (callables w.queue.items) (f ∷ [])))
    | inr full ↦ rw full (sym (append-nil _))
  ]

  history-client_destroy : (w : World F) → history (client_destroy w) ≡ history w
  unfolding client_destroy
  history-client_destroy w = elim (Bool-cases (ltb (length w.queue.items) w.queue.limit)) [
    | inl room ↦
        rw room (ap (λ xs. w.ran ++ xs) (callables-append w.queue.items (none ∷ []) ∙ append-nil _))
    | inr full ↦ rw full
  ]

  history-act : (a : Action F) (w : World F) → history (act a w) ≡ history w ++ takes a w
  unfolding act
  history-act (pushes f) w = elim (Bool-cases w.alive) [
    | inl live ↦ rw live (history-client_push f w)
    | inr dead ↦ rw dead (sym (append-nil _))
  ]
  history-act destroys w = elim (Bool-cases w.alive) [
    | inl live ↦ rw live (history-client_destroy w ∙ sym (append-nil _))
    | inr dead ↦ rw dead (sym (append-nil _))
  ]
  history-act works w = history-work w ∙ sym (append-nil _)

  -- Whatever the interleaving: the tasks that ran, followed by those that still wait, are those
  -- that were there before, followed by the accepted ones, in the order of their acceptance. No
  -- task is lost, repeated or overtaken.
  pub history-run :
      (acts : List (Action F)) (w : World F) → history (run acts w) ≡ history w ++ accepted acts w
  unfolding run accepted
  history-run [] w = sym (append-nil _)
  history-run (a ∷ rest) w =
      history-run rest (act a w)
      ∙ ap (λ xs. xs ++ accepted rest (act a w)) (history-act a w)
      ∙ append_assoc (history w) (takes a w) (accepted rest (act a w))

  -- No action takes the queue past its limit.
  within-act :
      (a : Action F) (w : World F)
      → length w.queue.items ≤ w.queue.limit
      → (length (act a w).queue.items ≤ (act a w).queue.limit)
        × ((act a w).queue.limit ≡ w.queue.limit)
  unfolding act Queue.push
  within-act (pushes f) w h = ground (arith, length-append w.queue.items (some f ∷ []))
  within-act destroys w h = ground (arith, length-append w.queue.items (none ∷ []))
  within-act works w h = ground arith

  -- Whatever the interleaving, the queue never holds more tasks than the limit that it started with.
  pub within-run :
      (acts : List (Action F)) (w : World F)
      → length w.queue.items ≤ w.queue.limit
      → (length (run acts w).queue.items ≤ w.queue.limit)
        × ((run acts w).queue.limit ≡ w.queue.limit)
  unfolding run
  within-run [] w h = (h, refl)
  within-run (a ∷ rest) w h =
      let (now, same) = within-act a w h in
      let (later, same') = within-run rest (act a w) now in (rw same at later, same' ∙ same)
