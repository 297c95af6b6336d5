-- ===== src/Token/Programs.antt =====
-- Programs of calls through the token manager: the death recipient is linked to the manager that the
-- process holds, and to no other.
use platform_system_libhidl.Status.{is_ok}
use platform_system_libhidl.Token.{
  TokenService, TokenState, token_state, service_died, connect, is_bad_token_manager,
  retrieve_hal_interface, delete_hal_token, create_hal_token,
}
use platform_system_libhidl.Token.Calls.{
  after, retrieve_hal_interface_lem, delete_hal_token_lem, create_hal_token_lem,
}
use platform_system_libhidl.Prelude.{
  Bool-cases, Run, done, Bytes, refl, inl, inr, Bool, true, false, Option, none, some, List, [],
  arith, if◌then◌else◌, ◌>>=◌, ◌≡◌, ◌∙◌, ◌⊎◌, ◌∷◌,
}

-- What happens: a call, or the death of the manager that is observed, between two calls.
pub data Event (I : Type 0) : Type 0 where
  retrieves deletes : Bytes → Event I
  creates : I → Bytes → Event I
  dies : Event I

module _ {M I W : Type 0} (t : TokenService M I W) (forget : W → W) where
  -- serviceDied runs after the system has forgotten the link.
  unfoldable pub happen : Event I → TokenState M W → Run (TokenState M W)
  unfolding retrieve_hal_interface delete_hal_token create_hal_token service_died
  happen (retrieves token) s = retrieve_hal_interface t token s >>= λ r. done r.1
  happen (deletes token) s = delete_hal_token t token s >>= λ r. done r.1
  happen (creates i token) s = create_hal_token t false i token s >>= λ r. done r.2
  happen dies s = done (service_died t (record s { world = forget s.world }))

  unfoldable pub run : List (Event I) → TokenState M W → Run (TokenState M W)
  unfolding happen
  run [] s = done s
  run (e ∷ es) s = happen e s >>= run es

-- To whom the process's death recipient is linked, as the world tells it, and what that call of
-- linkToDeath answered: whether the recipient was registered. A linkToDeath whose transaction is
-- fine sets it, unlinkToDeath and the report of the death end it, and the other calls keep it.
pub record Links {M I W : Type 0} (t : TokenService M I W) (forget : W → W)
    (link : W → Option (M × Bool)) : Type 0 where
  pub linking :
      (m : M) (w : W)
      → link (t.link_to_death m w).1 ≡ (
          if is_ok (t.link_to_death m w).0.status
          then some (m, (t.link_to_death m w).0.val)
          else link w)
  pub unlinking : (m : M) (w : W) → link (t.unlink_to_death m w).1 ≡ none
  pub finding : (w : W) → link (t.get_service w).1 ≡ link w
  pub getting : (m : M) (token : Bytes) (w : W) → link (t.get m token w).1 ≡ link w
  pub creating : (m : M) (i : I) (w : W) → link (t.create_token m i w).2 ≡ link w
  pub unregistering : (m : M) (token : Bytes) (w : W) → link (t.unregister m token w).1 ≡ link w
  pub forgetting : (w : W) → link (forget w) ≡ none

-- The manager whose death is reported to the process: the one linked, if it registered the recipient.
abbrev pub observed : {M : Type 0} → Option (M × Bool) → Option M
observed none = none
observed (some (m, registered)) = if registered then some m else none

-- A link to the manager, with that answer, if there is a manager.
abbrev pub link_to : {M : Type 0} → Bool → Option M → Option (M × Bool)
link_to registered none = none
link_to registered (some m) = some (m, registered)

module _ {M I W : Type 0} (t : TokenService M I W) (forget : W → W) (link : W → Option (M × Bool))
    (laws : Links t forget link) where
  -- The recipient is linked to gTokenManager, with some answer, or to nobody if that is null.
  abbrev pub IsLinked : TokenState M W → Type 0
  IsLinked s =
      (registered : Bool) × (link s.world ≡ link_to registered s.manager)
      × (observed (link s.world) ≡ (if registered then s.manager else none))

  unlinked : (w : W) → link w ≡ none → IsLinked (token_state none w)
  unlinked w e = (false, e, rw e refl)

  linked :
      (m : M) (w : W) (registered : Bool)
      → link w ≡ some (m, registered)
      → IsLinked (token_state (some m) w)
  linked m w registered e = (registered, e, rw e refl)

  -- What isBadTokenManager finds.
  abbrev Found : Bool × TokenState M W → Type 0
  Found r =
      ((w : W) × (r ≡ (true, token_state none w)) × (link w ≡ none))
      ⊎ ((m : M) × (w : W) × (registered : Bool) × (r ≡ (false, token_state (some m) w))
          × (link w ≡ some (m, registered)))

  connect-Found : (answer : Option M × W) → link answer.1 ≡ none → Found (connect t answer)
  unfolding connect
  connect-Found (none, w) e = inl (w, refl, e)
  connect-Found (some m, w) e = elim (Bool-cases (is_ok (t.link_to_death m w).0.status)) [
    | inl ok ↦ inr (
      m,
      (t.link_to_death m w).1,
      (t.link_to_death m w).0.val,
      ground (arith, ok),
      laws.linking m w ∙ rw ok refl,
    )
    | inr bad ↦ inl ((t.link_to_death m w).1, ground (arith, bad), laws.linking m w ∙ rw bad e)
  ]

  manager-Found :
      (o : Option M) (w : W)
      → IsLinked (token_state o w)
      → Found (is_bad_token_manager t (token_state o w))
  unfolding is_bad_token_manager
  manager-Found none w (registered, e, _) = connect-Found (t.get_service w) (laws.finding w ∙ e)
  manager-Found (some m) w (registered, e, _) = inr (m, w, registered, refl, e)

  after-IsLinked :
      (m : M) (ok : Bool) (w : W) (registered : Bool)
      → link w ≡ some (m, registered)
      → IsLinked (after t m ok w)
  after-IsLinked m true w registered e = linked m w registered e
  after-IsLinked m false w registered e = unlinked (t.unlink_to_death m w).1 (laws.unlinking m w)

  happen-IsLinked :
      (e : Event I) (s : TokenState M W)
      → IsLinked s
      → (s' : TokenState M W) × (happen t forget e s ≡ done s') × IsLinked s'
  unfolding happen retrieve_hal_interface delete_hal_token create_hal_token service_died
  happen-IsLinked (retrieves token) s o = elim (manager-Found s.manager s.world o) [
    | inl (w, r, n) ↦ (token_state none w, rw r refl, unlinked w n)
    | inr (m, w, registered, r, n) ↦ (
      after t m (is_ok (t.get m token w).0.status) (t.get m token w).1,
      rw (retrieve_hal_interface_lem t s m w r token) refl,
      after-IsLinked m _ _ registered (laws.getting m token w ∙ n),
    )
  ]
  happen-IsLinked (deletes token) s o = elim (manager-Found s.manager s.world o) [
    | inl (w, r, n) ↦ (token_state none w, rw r refl, unlinked w n)
    | inr (m, w, registered, r, n) ↦ (
      after t m (is_ok (t.unregister m token w).0.status) (t.unregister m token w).1,
      rw (delete_hal_token_lem t s m w r token) refl,
      after-IsLinked m _ _ registered (laws.unregistering m token w ∙ n),
    )
  ]
  happen-IsLinked (creates i token) s o = elim (manager-Found s.manager s.world o) [
    | inl (w, r, n) ↦ (token_state none w, rw r refl, unlinked w n)
    | inr (m, w, registered, r, n) ↦ (
      after t m (is_ok (t.create_token m i w).1.status) (t.create_token m i w).2,
      rw (create_hal_token_lem t s m w r i token) refl,
      after-IsLinked m _ _ registered (laws.creating m i w ∙ n),
    )
  ]
  happen-IsLinked dies s o =
      (token_state none (forget s.world), refl, unlinked (forget s.world) (laws.forgetting s.world))

  -- If a linkToDeath whose transaction is fine links the recipient to the manager that is asked,
  -- registered or not as it answers, unlinkToDeath and the report of a death end the link, and no
  -- other call changes it: a program of calls, with the manager's death between any two of them and
  -- with any answers and failed transactions, runs to its end. The recipient is then linked to the
  -- manager in gTokenManager, or to none where that is null, and the death observed is that of
  -- gTokenManager if the link was answered with true, and nobody's if it was answered with false:
  -- isBadTokenManager keeps the manager all the same.
  pub run-IsLinked :
      (es : List (Event I)) (s : TokenState M W)
      → IsLinked s
      → (s' : TokenState M W) × (run t forget es s ≡ done s') × IsLinked s'
  unfolding run
  run-IsLinked [] s o = (s, refl, o)
  run-IsLinked (e ∷ es) s o =
      let (s1, r, o1) = happen-IsLinked e s o in
      let (s2, r', o2) = run-IsLinked es s1 o1 in (s2, rw (run, r) r', o2)
