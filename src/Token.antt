-- ===== src/Token.antt =====
-- transport/token/1.0/utils/HybridInterface.cpp: the process-wide reference to the token manager
-- and the three calls through it. The manager is a remote service: what it answers is the
-- parameter `TokenService`, over a world `W` of everything outside the process.
pub mod Calls
pub mod Programs
use platform_system_libhidl.Status.{is_ok}
use platform_system_libhidl.Status.Return
use platform_system_libhidl.Status.Return.{Return}
use platform_system_libhidl.Prelude.{
  Run, done, fault, Bytes, Bool, true, false, not, Option, none, some, if◌then◌else◌, ◌>>=◌, ◌>>◌,
}

-- M: references to the manager, I: interfaces. A token is a `hidl_vec<uint8_t>`.
pub record TokenService (M I W : Type 0) : Type 0 where
  -- ITokenManager::getService()
  pub get_service : W → Option M × W
  pub link_to_death : M → W → Return Bool × W
  pub unlink_to_death : M → W → Return Bool × W
  pub get : M → Bytes → W → Return (Option I) × W
  -- createToken, with what it hands its callback, if it calls it
  pub create_token : M → I → W → Option Bytes × Return (Unit {0}) × W
  pub unregister : M → Bytes → W → Return Bool × W

-- `manager` is gTokenManager.
pub record TokenState (M W : Type 0) : Type 0 where
  pub manager : Option M
  pub world : W

abbrev pub token_state : {M W : Type 0} → Option M → W → TokenState M W
token_state m w = record { manager = m; world = w }

module _ {M I W : Type 0} (t : TokenService M I W) where
  -- TokenManagerDeathRecipient::serviceDied
  unfoldable pub service_died : TokenState M W → TokenState M W
  service_died s = record s { manager = none }

  -- A new reference is kept only if its death can be observed.
  observe_death : M → Return Bool × W → Bool × TokenState M W
  observe_death m (transaction, w) =
      if not (is_ok transaction.status)
      then (true, record { manager = none; world = w })
      else (false, record { manager = some m; world = w })

  connect : Option M × W → Bool × TokenState M W
  unfolding observe_death
  connect (none, w) = (true, record { manager = none; world = w })
  connect (some m, w) = observe_death m (t.link_to_death m w)

  is_bad_at : Option M → TokenState M W → Bool × TokenState M W
  unfolding connect
  is_bad_at (some m) s = (false, s)
  is_bad_at none s = connect (t.get_service s.world)

  unfoldable pub is_bad_token_manager : TokenState M W → Bool × TokenState M W
  unfolding is_bad_at
  is_bad_token_manager s = is_bad_at s.manager s

  -- gTokenManager->unlinkToDeath(...), then gTokenManager = nullptr. The call through a null
  -- reference is undefined.
  drop_manager : Option M → TokenState M W → Run (TokenState M W)
  drop_manager none s = fault
  drop_manager (some m) s =
      done (record { manager = none; world = (t.unlink_to_death m s.world).1 })

  -- isBadTransaction: the result and the transaction, which isOk() has marked.
  unfoldable pub is_bad_transaction :
      {R : Type 0} → Return R → TokenState M W → Run (Bool × Return R × TokenState M W)
  unfolding drop_manager Return.check
  is_bad_transaction r s =
      if is_ok r.status
      then done (false, Return.check r, s)
      else do s' ← drop_manager s.manager s; done (true, Return.check r, s')

  -- `gTokenManager->call(...)`, assigned to a local `transaction`.
  call :
      {R : Type 0}
      → (M → W → Return R × W)
      → Option M
      → TokenState M W
      → Run (Return R × TokenState M W)
  call f none s = fault
  call f (some m) s = let (r, w) = f m s.world in done (r, record s { world = w })

  retrieve_locked : Bytes → Bool × TokenState M W → Run (Option I × TokenState M W)
  unfolding call is_bad_transaction Return.move_assign Return.of_value Return.value
  retrieve_locked token (true, s) = done (none, s)
  retrieve_locked token (false, s) = do
    (r, s') ← call (λ m w. t.get m token w) s.manager s
    (transaction, old) ← Return.move_assign (Return.of_value none) r
    (bad, transaction', s'') ← is_bad_transaction transaction s'
    if bad then done (none, s'') else do (v, r') ← Return.value transaction'; done (v, s'')

  unfoldable pub retrieve_hal_interface : Bytes → TokenState M W → Run (Option I × TokenState M W)
  unfolding is_bad_token_manager retrieve_locked
  retrieve_hal_interface token s = retrieve_locked token (is_bad_token_manager s)

  unregister_locked : Bytes → Bool × TokenState M W → Run (Bool × TokenState M W)
  unfolding call is_bad_transaction Return.move_assign Return.of_value Return.value
  unregister_locked token (true, s) = done (false, s)
  unregister_locked token (false, s) = do
    (r, s') ← call (λ m w. t.unregister m token w) s.manager s
    (transaction, old) ← Return.move_assign (Return.of_value false) r
    (bad, transaction', s'') ← is_bad_transaction transaction s'
    if bad then done (false, s'') else do (v, r') ← Return.value transaction'; done (v, s'')

  unfoldable pub delete_hal_token : Bytes → TokenState M W → Run (Bool × TokenState M W)
  unfolding is_bad_token_manager unregister_locked
  delete_hal_token token s = unregister_locked token (is_bad_token_manager s)

  -- The result, the token that the callback stored, and the state. The lock is given up before
  -- isBadTransaction: `died` says that serviceDied runs in between.
  create_locked :
      (died : Bool) → I → Bytes → Bool × TokenState M W → Run (Bool × Bytes × TokenState M W)
  unfolding is_bad_transaction Return.move_assign Return.of_value service_died
  create_locked died i token (true, s) = done (false, token, s)
  create_locked died i token (false, s) = elim s.manager [
    | none ↦ fault
    | some m ↦
        let (stored, r, w) = t.create_token m i s.world in
        let token' : Bytes = elim stored [ none ↦ token | some new ↦ new ] in
        let s' : TokenState M W = record { manager = some m; world = w } in
        do
          (transaction, old) ← Return.move_assign (Return.of_value tt) r
          (bad, transaction', s'') ←
              is_bad_transaction transaction (if died then service_died s' else s')
          done (not bad, token', s'')
  ]

  unfoldable pub create_hal_token :
      (died : Bool) → I → Bytes → TokenState M W → Run (Bool × Bytes × TokenState M W)
  unfolding is_bad_token_manager create_locked
  create_hal_token died i token s = create_locked died i token (is_bad_token_manager s)
