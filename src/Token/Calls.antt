-- ===== src/Token/Calls.antt =====
-- What the calls through the token manager return and what they leave in gTokenManager.
use platform_system_libhidl.Status.{is_ok}
use platform_system_libhidl.Token.{
  TokenService, TokenState, token_state, is_bad_token_manager, retrieve_hal_interface,
  delete_hal_token, create_hal_token, connect,
}
use platform_system_libhidl.Prelude.{
  is_some, done, fault, Bytes, refl, Bool, true, false, not, Option, none, some, arith,
  if◌then◌else◌, ◌≡◌,
}

module _ {M I W : Type 0} (t : TokenService M I W) where
  connect-manager :
      (answer : Option M × W) → (connect t answer).0 ≡ not (is_some (connect t answer).1.manager)
  unfolding connect
  connect-manager (none, w) = refl
  connect-manager (some m, w) = ground arith

  is_bad-manager :
      (o : Option M) (w : W)
      → (is_bad_token_manager t (token_state o w)).0
        ≡ not (is_some (is_bad_token_manager t (token_state o w)).1.manager)
  unfolding is_bad_token_manager
  is_bad-manager none w = connect-manager (t.get_service w)
  is_bad-manager (some m) w = refl

  -- isBadTokenManager returns false exactly if it leaves gTokenManager set: no caller goes on with
  -- a null reference, and none gives up while there is one.
  pub is_bad_token_manager_lem :
      (s : TokenState M W)
      → (is_bad_token_manager t s).0 ≡ not (is_some (is_bad_token_manager t s).1.manager)
  is_bad_token_manager_lem s = is_bad-manager s.manager s.world

  -- What a call leaves of the manager `m`, by whether its transaction succeeded: a failed one
  -- unlinks the death recipient and forgets the manager.
  abbrev pub after : M → Bool → W → TokenState M W
  after m true w = token_state (some m) w
  after m false w = token_state none (t.unlink_to_death m w).1

  module _ (s : TokenState M W) (m : M) (w : W)
      (linked : is_bad_token_manager t s ≡ (false, token_state (some m) w)) where
    -- With a manager at hand retrieveHalInterface never aborts: it returns what the manager found,
    -- or null after a failed transaction, which also forgets the manager.
    pub retrieve_hal_interface_lem :
        (token : Bytes)
        → retrieve_hal_interface t token s
          ≡ done (
            if is_ok (t.get m token w).0.status then (t.get m token w).0.val else none,
            after m (is_ok (t.get m token w).0.status) (t.get m token w).1,
          )
    unfolding retrieve_hal_interface
    retrieve_hal_interface_lem token = rw linked (ground arith)

    -- With a manager at hand deleteHalToken never aborts: it returns the manager's answer, or
    -- false after a failed transaction, which also forgets the manager.
    pub delete_hal_token_lem :
        (token : Bytes)
        → delete_hal_token t token s
          ≡ done (
            if is_ok (t.unregister m token w).0.status
                then (t.unregister m token w).0.val
                else false,
            after m (is_ok (t.unregister m token w).0.status) (t.unregister m token w).1,
          )
    unfolding delete_hal_token
    delete_hal_token_lem token = rw linked (ground arith)

    -- If the manager's death is not reported in the gap before isBadTransaction, createHalToken
    -- never aborts and returns whether the transaction succeeded.
    pub create_hal_token_lem :
        (i : I) (token : Bytes)
        → create_hal_token t false i token s
          ≡ done (
            is_ok (t.create_token m i w).1.status,
            elim (t.create_token m i w).0 [ none ↦ token | some new ↦ new ],
            after m (is_ok (t.create_token m i w).1.status) (t.create_token m i w).2,
          )
    unfolding create_hal_token
    create_hal_token_lem i token = rw linked (ground arith)

    -- With a manager at hand: if the transaction fails and serviceDied runs before
    -- isBadTransaction, which createHalToken calls without the lock, the call goes through a null
    -- gTokenManager.
    create_hal_token_fault :
        (i : I) (token : Bytes)
        → is_ok (t.create_token m i w).1.status ≡ false
        → create_hal_token t true i token s ≡ fault
    unfolding create_hal_token
    create_hal_token_fault i token failed = rw linked (ground arith)
