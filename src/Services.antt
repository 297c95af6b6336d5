-- ===== src/Services.antt =====
-- transport/ServiceManagement.cpp: the name of a service's process, and the wait for a service.
pub mod Name
pub mod Wait
use platform_system_libhidl.Passthrough.{starts_with}
use platform_system_libhidl.Prelude.{
  ltb, take, drop, Bytes, ℕ, zero, suc, Bool, true, false, not, Option, none, some, List, [], ◌==◌,
  if◌then◌else◌, ◌+◌, ◌-◌, ◌&&◌, ◌∷◌,
}

-- text.rfind(c) and, with a position, text.rfind(c, pos); none is npos.
unfoldable pub last_index : ℕ → Bytes → Option ℕ
last_index c [] = none
last_index c (x ∷ xs) = elim (last_index c xs) [
  | some i ↦ some (suc i)
  | none ↦ if x == c then some 0 else none
]

unfoldable pub rfind : ℕ → Bytes → Option ℕ → Option ℕ
unfolding last_index
rfind c text none = last_index c text
rfind c text (some i) = last_index c (take (suc i) text)

-- `pos - 1` on size_t: that of 0 is npos, and that of npos is as good as npos.
unfoldable pub before : Option ℕ → Option ℕ
before none = none
before (some zero) = none
before (some (suc i)) = some i

-- `cmdline` is the first word of /proc/self/cmdline, none if the file does not open.
unfoldable pub binary_name : (cmdline : Option Bytes) → Bytes
unfolding rfind
binary_name none = []
binary_name (some cmdline) = elim (rfind 47 cmdline none) [
  | none ↦ cmdline
  | some i ↦ drop (i + 1) cmdline
]

-- The name that tryShortenProcessName gives the thread, if it gives one.
unfoldable pub short_name : Bytes → Bytes → Option Bytes
unfolding rfind before
short_name process_name package_name =
    if not (starts_with process_name package_name)
    then none
    else elim (rfind 46 package_name (before (rfind 46 package_name none))) [
      | none ↦ none
      | some i ↦ some (take 15 (drop (i + 1) process_name))
    ]

unfoldable pub try_shorten_process_name : (cmdline : Option Bytes) → Bytes → Option Bytes
unfolding short_name
try_shorten_process_name cmdline package_name = short_name (binary_name cmdline) package_name

-- The waiter's mRegistered.
pub record Waiter : Type 0 where
  pub registered : Bool

-- The waiter, and whether the waiting thread is notified.
unfoldable pub on_registration : Waiter → Waiter × Bool
on_registration w = if w.registered then (w, false) else (record w { registered = true }, true)

-- What happens around a waiting thread: a binder thread runs the section of onRegistration under
-- `mMutex`; one that has set mRegistered calls notify_one, which is a step of its own; a second of
-- wait_for is over; or the thread wakes for no reason.
pub data Wake : Type 0 where
  registration notification a_second no_reason : Wake

-- The waiter, and how many binder threads are about to call notify_one.
pub record Waiting : Type 0 where
  pub waiter : Waiter
  pub notifying : ℕ

-- The state afterwards, and whether a thread that is blocked in wait_for wakes.
unfoldable pub happen : Wake → Waiting → Waiting × Bool
unfolding on_registration
happen registration s =
    let (w, notifies) = on_registration s.waiter in
    (record { waiter = w; notifying = if notifies then s.notifying + 1 else s.notifying }, false)
happen notification s = (record s { notifying = s.notifying - 1 }, ltb 0 s.notifying)
happen a_second s = (s, true)
happen no_reason s = (s, true)

-- What happens before the thread calls wait.
unfoldable pub beforehand : List Wake → Waiting → Waiting
unfolding happen
beforehand [] s = s
beforehand (k ∷ ks) s = beforehand ks (happen k s).0

-- A thread that is blocked in wait_for tests mRegistered only when it wakes: if it is not set, it
-- blocks again, after a second with a warning and by the next turn of the loop.
unfoldable pub blocked : Waiting → List Wake → Option (Waiting × List Wake)
unfolding happen
blocked s [] = none
blocked s (k ∷ ks) =
    let (s', wakes) = happen k s in
    let later = blocked s' ks in if wakes && s'.waiter.registered then some (s', ks) else later

-- wait, on what happens: none if the thread is still blocked at the end, or else the state and what
-- happens after wait returned. wait_for tests mRegistered before it blocks.
unfoldable pub wait : Waiting → List Wake → Option (Waiting × List Wake)
unfolding blocked
wait s ks = let later = blocked s ks in if s.waiter.registered then some (s, ks) else later

-- What registerForNotifications answers.
pub data Answer : Type 0 where
  transport_error refused accepted : Answer

-- How waitForHwService ends; `unregistered` is what unregisterForNotifications is answered.
pub data WaitEnd : Type 0 where
  no_manager transport_failed not_registered still_waiting : WaitEnd
  came : (unregistered : Bool) → List Wake → WaitEnd

abbrev pub new_waiter : Waiting
new_waiter = record { waiter = record { registered = false }; notifying = 0 }

-- `early` happens between registerForNotifications and wait, `ks` from then on.
unfoldable pub wait_for_hw_service :
    (manager : Bool) → Answer → (unregister : Bool) → (early ks : List Wake) → WaitEnd
unfolding beforehand wait
wait_for_hw_service false answer unregister early ks = no_manager
wait_for_hw_service true transport_error unregister early ks = transport_failed
wait_for_hw_service true refused unregister early ks = not_registered
wait_for_hw_service true accepted unregister early ks =
    elim (wait (beforehand early new_waiter) ks) [
      | none ↦ still_waiting
      | some (s, rest) ↦ came unregister rest
    ]
