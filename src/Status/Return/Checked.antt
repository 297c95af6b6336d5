-- ===== src/Status/Return/Checked.antt =====
-- The protocol of `Return<T>`: which objects may be destroyed, and what moving does.
use platform_system_libhidl.Status.Codes.{StatusCodes}
use platform_system_libhidl.Status.{Status, is_ok, ok_status, transaction_error}
use platform_system_libhidl.Status.Return.{
  Return, of_status, check, is_dead_object, value, with_default, destroy, move_assign, move_ctor,
}
use platform_system_libhidl.Prelude.{
  eqb_ℤ, done, fatal, refl, Bool, true, false, List, [], arith, if◌then◌else◌, ◌≡◌, ◌∙◌, ◌||◌, ◌∷◌,
}

-- What a client may ask of a `Return<T>` without taking the value by the cast.
pub data Observer {ℓ} (T : Type ℓ) : Type ℓ where
  asks_ok asks_dead describes : Observer T
  takes_default : T → Observer T

module _ {ℓ} {T : Type ℓ} (c : StatusCodes) where
  unfoldable pub observe : Observer T → Return T → Return T
  unfolding check is_dead_object with_default
  observe asks_ok r = check r
  observe asks_dead r = (is_dead_object c r).1
  observe describes r = r
  observe (takes_default t) r = (with_default t r).1

  unfoldable pub observe_all : List (Observer T) → Return T → Return T
  unfolding observe
  observe_all [] r = r
  observe_all (o ∷ os) r = observe_all os (observe o r)

  -- Whether an observer takes notice of a status `s`.
  abbrev pub notices : Observer T → Status → Bool
  notices asks_ok s = true
  notices asks_dead s = eqb_ℤ (transaction_error c s) c.dead_object
  notices describes s = false
  notices (takes_default t) s = true

  abbrev pub noticed : List (Observer T) → Status → Bool
  noticed [] s = false
  noticed (o ∷ os) s = notices o s || noticed os s

  observe-fields :
      (o : Observer T) (r : Return T)
      → ((observe o r).status ≡ r.status)
        × ((observe o r).checked ≡ (notices o r.status || r.checked))
  unfolding observe
  observe-fields asks_ok r = (refl, refl)
  observe-fields asks_dead r = ground arith
  observe-fields describes r = (refl, refl)
  observe-fields (takes_default t) r = (refl, refl)

  observe_all-fields :
      (os : List (Observer T)) (r : Return T)
      → ((observe_all os r).status ≡ r.status)
        × ((observe_all os r).checked ≡ (noticed os r.status || r.checked))
  unfolding observe_all
  observe_all-fields [] r = (refl, refl)
  observe_all-fields (o ∷ os) r =
      let (same, seen) = observe_all-fields os (observe o r) in
      let (same', seen') = observe-fields o r in (same ∙ same', ground arith)

  -- After any observers, the destruction of a new `Return` is fatal exactly if its status is an
  -- error that none of them noticed: isOk() and withDefault() notice every status, isDeadObject()
  -- only a dead object, description() none.
  pub destroy-observe_all :
      (os : List (Observer T)) (init : T) (s : Status)
      → destroy (observe_all os (of_status init s))
        ≡ (if is_ok s || noticed os s then done tt else fatal)
  unfolding destroy of_status
  destroy-observe_all os init s = ground (arith, observe_all-fields os (of_status init s))

module _ {ℓ} {T : Type ℓ} where
  -- The cast to T and the assertion give the value of a successful call and abort on a failed one;
  -- afterwards the destruction is harmless.
  pub value_lem :
      (r : Return T)
      → (value r ≡ (if is_ok r.status then done (r.val, check r) else fatal))
        × (destroy (check r) ≡ done tt)
  unfolding value destroy
  value_lem r = (ground arith, refl)

  -- withDefault never aborts, chooses by the status, and leaves the object safe to destroy.
  pub with_default_lem :
      (t : T) (r : Return T)
      → ((with_default t r).0 ≡ (if is_ok r.status then r.val else t))
        × (destroy (with_default t r).1 ≡ done tt)
  unfolding with_default destroy
  with_default_lem t r = (refl, refl)

  -- What a move assignment leaves in its source: the overwritten status, marked as checked.
  abbrev pub moved_from : Return T → Return T → Return T
  moved_from r other = record { status = r.status; checked = true; val = other.val }

  -- Move assignment aborts exactly if the overwritten status is an error that nobody checked.
  -- Otherwise this object becomes the other one, with its flag, and the other one is safe to
  -- destroy.
  pub move_assign_lem :
      (r other : Return T)
      → (move_assign r other
          ≡ (if r.checked || is_ok r.status then done (other, moved_from r other) else fatal))
        × (destroy (moved_from r other) ≡ done tt)
  unfolding move_assign destroy
  move_assign_lem r other = (ground arith, refl)

  -- The move constructor never aborts: the new object is the old one, and the old one is safe to
  -- destroy, whatever the status.
  pub move_ctor_lem :
      (init : T) (other : Return T)
      → (other' : Return T) × (move_ctor init other ≡ done (other, other'))
        × (destroy other' ≡ done tt)
  unfolding move_ctor destroy ok_status
  move_ctor_lem init other =
      (record { status = ok_status; checked = true; val = other.val }, refl, refl)
