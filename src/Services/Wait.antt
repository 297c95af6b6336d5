-- ===== src/Services/Wait.antt =====
-- When the wait for a service ends.
use platform_system_libhidl.Services.{
  Wake, registration, notification, a_second, no_reason, Waiting, happen, beforehand, blocked, wait,
  new_waiter, on_registration, WaitEnd, still_waiting, came, accepted, wait_for_hw_service,
}
use platform_system_libhidl.Prelude.{
  ltb, ℕ, suc, refl, ap, inl, inr, Bool, true, false, Option, none, some, List, [], arith,
  if◌then◌else◌, ◌-◌, ◌≡◌, ◌⊎◌, ◌∷◌,
}

-- Is there a registration among these?
abbrev pub registers : List Wake → Bool
registers [] = false
registers (registration ∷ ks) = true
registers (k ∷ ks) = registers ks

-- What happens after the first wake-up.
abbrev pub after_wake : List Wake → Option (List Wake)
after_wake [] = none
after_wake (registration ∷ ks) = after_wake ks
after_wake (k ∷ ks) = some ks

-- What happens after the first wake-up that follows a registration.
abbrev pub after_registration : List Wake → Option (List Wake)
after_registration [] = none
after_registration (registration ∷ ks) = after_wake ks
after_registration (k ∷ ks) = after_registration ks

-- mRegistered is set, and its binder thread has not called notify_one.
abbrev set_with : ℕ → Waiting
set_with n = record { waiter = record { registered = true }; notifying = suc n }

-- A wait is over with these events left, or it is not over.
abbrev EndsWith : Option (Waiting × List Wake) → Option (List Wake) → Type 0
EndsWith none none = Unit
EndsWith none (some rest) = ⊥
EndsWith (some (s, rest)) none = ⊥
EndsWith (some (s, rest)) (some rest') = rest ≡ rest'

blocked-after_wake : (n : ℕ) (ks : List Wake) → EndsWith (blocked (set_with n) ks) (after_wake ks)
unfolding blocked happen on_registration
blocked-after_wake n [] = tt
blocked-after_wake n (registration ∷ ks) = blocked-after_wake n ks
blocked-after_wake n (notification ∷ ks) =
    let about_to : ltb 0 (suc n) ≡ true = ground arith in rw about_to refl
blocked-after_wake n (a_second ∷ ks) = refl
blocked-after_wake n (no_reason ∷ ks) = refl

blocked-after_registration :
    (ks : List Wake) → EndsWith (blocked new_waiter ks) (after_registration ks)
unfolding blocked happen on_registration
blocked-after_registration [] = tt
blocked-after_registration (registration ∷ ks) = blocked-after_wake 0 ks
blocked-after_registration (notification ∷ ks) = blocked-after_registration ks
blocked-after_registration (a_second ∷ ks) = blocked-after_registration ks
blocked-after_registration (no_reason ∷ ks) = blocked-after_registration ks

stays_set :
    (ks : List Wake) (n : ℕ)
    → let s : Waiting = record { waiter = record { registered = true }; notifying = n } in
      (beforehand ks s).waiter.registered ≡ true
unfolding beforehand happen on_registration
stays_set [] n = refl
stays_set (registration ∷ ks) n = stays_set ks n
stays_set (notification ∷ ks) n = stays_set ks (n - 1)
stays_set (a_second ∷ ks) n = stays_set ks n
stays_set (no_reason ∷ ks) n = stays_set ks n

-- What happened early has set mRegistered, or has left the waiter as it was.
beforehand-registers :
    (ks : List Wake)
    → ((registers ks ≡ true) × ((beforehand ks new_waiter).waiter.registered ≡ true))
      ⊎ ((registers ks ≡ false) × (beforehand ks new_waiter ≡ new_waiter))
unfolding beforehand happen on_registration
beforehand-registers [] = inr (refl, refl)
beforehand-registers (registration ∷ ks) = inl (refl, stays_set ks 1)
beforehand-registers (notification ∷ ks) = beforehand-registers ks
beforehand-registers (a_second ∷ ks) = beforehand-registers ks
beforehand-registers (no_reason ∷ ks) = beforehand-registers ks

-- The end of the wait.
abbrev pub ends : Bool → Option (List Wake) → WaitEnd
ends unregister none = still_waiting
ends unregister (some rest) = came unregister rest

ends-EndsWith :
    (unregister : Bool) (w : Option (Waiting × List Wake)) (o : Option (List Wake))
    → EndsWith w o
    → (elim w [ none ↦ still_waiting | some (s, rest) ↦ came unregister rest ]) ≡ ends unregister o
ends-EndsWith unregister none none e = refl
ends-EndsWith unregister none (some rest) e = absurd e
ends-EndsWith unregister (some (s, rest)) none e = absurd e
ends-EndsWith unregister (some (s, rest)) (some rest') e = ap (came unregister) e

-- Once the manager accepted the waiter, waitForHwService returns at once if there was a
-- registration before it waits. Otherwise it returns when the thread first wakes after the first
-- registration: by the notification, at the end of a second or for no reason, whatever wakes it
-- before and however often it is registered. It gives back the answer to its unregistration. With
-- no registration, or no wake-up after it, it waits on.
pub wait_for_hw_service_lem :
    (unregister : Bool) (early ks : List Wake)
    → wait_for_hw_service true accepted unregister early ks
      ≡ ends unregister (if registers early then some ks else after_registration ks)
unfolding wait_for_hw_service wait
wait_for_hw_service_lem unregister early ks = elim (beforehand-registers early) [
  | inl (early_one, flag) ↦ rw (wait_for_hw_service, early_one, wait, flag) refl
  | inr (not_yet, same) ↦
      rw (wait_for_hw_service, not_yet, same)
        (ends-EndsWith unregister (blocked new_waiter ks) (after_registration ks)
          (blocked-after_registration ks))
]
