-- ===== src/Queue/Threads.antt =====
-- base/include/hidl/SynchronizedQueue.h: any number of threads that call `push` and `wait_pop` of
-- one queue. A section under `mMutex` is one step; `notify_one`, which `push` calls after it has
-- released the mutex, is a step of its own, and so is each new test of a thread that was woken.
use platform_system_libhidl.Queue
use platform_system_libhidl.Queue.{SynchronizedQueue, make_queue}
use platform_system_libhidl.Prelude.{
  get_elem?, set, replicate, total, ℕ, Option, none, some, List, [], if◌then◌else◌, ◌≡◌, ◌∷◌, ◌++◌,
}

-- Where a thread is: in no method, in `push` before `notify_one`, blocked on `mCondition`, or woken
-- and about to take the mutex again.
pub data Phase : Type 0 where
  outside notifying sleeping woken : Phase

-- `accepted` lists the items whose `push` succeeded, `taken` those that `wait_pop` returned, both
-- oldest first.
pub record System {ℓ} (T : Type ℓ) : Type ℓ where
  pub queue : SynchronizedQueue T
  pub threads : List Phase
  pub accepted : List T
  pub taken : List T

module _ {ℓ} {T : Type ℓ} where
  -- The `k` threads have called nothing yet.
  abbrev pub init : (k limit : ℕ) → System T
  init k limit = record {
    queue = make_queue limit;
    threads = replicate k outside;
    accepted = [];
    taken = [];
  }

  -- The section of `push`: success or not, the thread goes on to `notify_one`.
  unfoldable pub push_section : ℕ → T → System T → System T
  unfolding Queue.push
  push_section i item s =
      let (q, success) = Queue.push item s.queue in
      record s {
        queue = q;
        threads = set s.threads i notifying;
        accepted = if success then s.accepted ++ item ∷ [] else s.accepted;
      }

  unfoldable pub after_test : ℕ → System T → Option (T × SynchronizedQueue T) → System T
  after_test i s none = record s { threads = set s.threads i sleeping }
  after_test i s (some (item, q)) = record s {
    queue = q;
    threads = set s.threads i outside;
    taken = s.taken ++ item ∷ [];
  }

  -- The section of `wait_pop` at the test of the condition: the thread takes an item and leaves, or
  -- blocks.
  unfoldable pub pop_section : ℕ → System T → System T
  unfolding after_test Queue.wait_pop
  pop_section i s = after_test i s (Queue.wait_pop s.queue)

  -- notify_one() of thread `i` wakes thread `j`; where none is blocked it only returns.
  unfoldable pub notify : ℕ → ℕ → System T → System T
  notify i j s = record s { threads = set (set s.threads i outside) j woken }

  unfoldable pub notify_nobody : ℕ → System T → System T
  notify_nobody i s = record s { threads = set s.threads i outside }

  -- A blocked thread may also wake without a notification.
  unfoldable pub wake : ℕ → System T → System T
  wake i s = record s { threads = set s.threads i woken }

abbrev pub asleep : Phase → ℕ
asleep sleeping = 1
asleep _ = 0

abbrev pub busy : Phase → ℕ
busy notifying = 1
busy woken = 1
busy _ = 0

module _ {ℓ} {T : Type ℓ} where
  abbrev pub At : System T → ℕ → Phase → Type 0
  At s i p = get_elem? s.threads i ≡ some p

  -- A step of a thread in a call that has begun. notify_one wakes a blocked thread if there is one.
  pub data Inside (s : System T) : System T → Type ℓ where
    retries : (i : ℕ) → At s i woken → Inside s (pop_section i s)
    notifies : (i j : ℕ) → At s i notifying → At s j sleeping → Inside s (notify i j s)
    notifies_nobody :
        (i : ℕ) → At s i notifying → total asleep s.threads ≡ 0 → Inside s (notify_nobody i s)

  -- Any step: also a call that begins, and a wake-up for no reason.
  pub data Step (s : System T) : System T → Type ℓ where
    inside : {t : System T} → Inside s t → Step s t
    pushes : (i : ℕ) (item : T) → At s i outside → Step s (push_section i item s)
    pops : (i : ℕ) → At s i outside → Step s (pop_section i s)
    wakes : (i : ℕ) → At s i sleeping → Step s (wake i s)

  pub data Reach (k limit : ℕ) : System T → Type ℓ where
    start : Reach k limit (init k limit)
    later : {s t : System T} → Reach k limit s → Step s t → Reach k limit t
