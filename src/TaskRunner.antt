-- ===== src/TaskRunner.antt =====
-- base/include/hidl/TaskRunner.h, base/TaskRunner.cpp: a background thread that runs the tasks
-- pushed to a bounded queue. A `std::function` is `none` when it holds no callable. The client's
-- calls and the rounds of the background loop interleave; each round is one `wait_pop` with the
-- call of what it returned.
pub mod Fifo
pub mod Shutdown
use platform_system_libhidl.Prelude.{
  ℕ, zero, suc, Bool, true, false, Option, none, some, List, [], ◌∷◌, ◌++◌, if◌then◌else◌,
}
use platform_system_libhidl.Queue
use platform_system_libhidl.Queue.{SynchronizedQueue}

abbrev pub Task : Type 0 → Type 0
Task F = Option F

-- `mQueue` is a `shared_ptr`, null until `start`.
abbrev pub Runner : Type 0 → Type 0
Runner F = Option (SynchronizedQueue (Task F))

module _ {F : Type 0} where
  abbrev pub task_runner : Runner F
  task_runner = none

  unfoldable pub start : ℕ → Runner F → Runner F
  unfolding Queue.make_queue
  start limit r = some (Queue.make_queue limit)

  push_to : Task F → Runner F → Runner F × Bool
  push_to t none = (none, false)
  push_to none (some q) = (some q, false)
  push_to (some f) (some q) = let (q', success) = Queue.push (some f) q in (some q', success)

  unfoldable pub push : Task F → Runner F → Runner F × Bool
  unfolding push_to Queue.push
  push t r = push_to t r

  -- The destructor. The thread holds its own reference to the queue, which lives on.
  unfoldable pub destroy : Runner F → Runner F
  unfolding Queue.push
  destroy none = none
  destroy (some q) = some (Queue.push none q).0

-- A started runner with its thread. `ran` lists the tasks called so far, oldest first.
pub record World (F : Type 0) : Type 0 where
  pub queue : SynchronizedQueue (Task F)
  pub alive : Bool
  pub stopped : Bool
  pub ran : List F

module _ {F : Type 0} where
  abbrev pub world : List (Task F) → ℕ → Bool → Bool → List F → World F
  world items limit alive stopped ran = record {
    queue = record { items = items; limit = limit };
    alive = alive;
    stopped = stopped;
    ran = ran;
  }

  unfoldable pub started : ℕ → World F
  unfolding Queue.make_queue
  started limit = record { queue = Queue.make_queue limit; alive = true; stopped = false; ran = [] }

  unfoldable pub client_push : F → World F → World F
  unfolding Queue.push
  client_push f w = record w { queue = (Queue.push (some f) w.queue).0 }

  unfoldable pub client_destroy : World F → World F
  unfolding Queue.push
  client_destroy w = record w { queue = (Queue.push none w.queue).0; alive = false }

  after_pop : World F → Option (Task F × SynchronizedQueue (Task F)) → World F
  after_pop w none = w
  after_pop w (some (none, q)) = record w { queue = q; stopped = true }
  after_pop w (some (some f, q)) = record w { queue = q; ran = w.ran ++ f ∷ [] }

  -- One round of `while (!!(nextTask = q->wait_pop())) { nextTask(); }`. A blocked round and a
  -- thread that has left its loop change nothing.
  unfoldable pub work : World F → World F
  unfolding after_pop Queue.wait_pop
  work w = if w.stopped then w else after_pop w (Queue.wait_pop w.queue)

  -- `k` rounds with no call of the client between them.
  unfoldable pub work_rounds : ℕ → World F → World F
  unfolding work
  work_rounds zero w = w
  work_rounds (suc k) w = work_rounds k (work w)

-- What can happen next. The client calls nothing on a runner that it has destroyed.
pub data Action (F : Type 0) : Type 0 where
  pushes : F → Action F
  destroys : Action F
  works : Action F

module _ {F : Type 0} where
  unfoldable pub act : Action F → World F → World F
  unfolding client_push client_destroy work
  act (pushes f) w = if w.alive then client_push f w else w
  act destroys w = if w.alive then client_destroy w else w
  act works w = work w

  -- An interleaving of the client and the thread is a list of actions.
  unfoldable pub run : List (Action F) → World F → World F
  unfolding act
  run [] w = w
  run (a ∷ rest) w = run rest (act a w)
