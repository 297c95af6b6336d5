-- ===== src/Queue.antt =====
-- base/include/hidl/SynchronizedQueue.h: a bounded queue. Each method holds `mMutex` throughout,
-- so it is one atomic step; `wait_pop` gives `none` where the caller blocks.
pub mod Threads
pub mod Counts
pub mod Wakeups
pub mod Settled
use platform_system_libhidl.Prelude.{
  ℕ, Bool, true, false, Option, none, some, List, [], ◌∷◌, ◌++◌, ltb, if◌then◌else◌, length,
}

pub record SynchronizedQueue {ℓ} (T : Type ℓ) : Type ℓ where
  pub items : List T
  pub limit : ℕ

module _ {ℓ} {T : Type ℓ} where
  unfoldable pub make_queue : ℕ → SynchronizedQueue T
  make_queue limit = record { items = []; limit = limit }

  pop_items : List T → ℕ → Option (T × SynchronizedQueue T)
  pop_items [] limit = none
  pop_items (item ∷ rest) limit = some (item, record { items = rest; limit = limit })

  unfoldable pub wait_pop : SynchronizedQueue T → Option (T × SynchronizedQueue T)
  unfolding pop_items
  wait_pop q = pop_items q.items q.limit

  unfoldable pub push : T → SynchronizedQueue T → SynchronizedQueue T × Bool
  push item q =
      if ltb (length q.items) q.limit
      then (record q { items = q.items ++ item ∷ [] }, true)
      else (q, false)

  unfoldable pub size : SynchronizedQueue T → ℕ
  size q = length q.items
