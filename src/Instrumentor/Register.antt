-- ===== src/Instrumentor/Register.antt =====
-- When callbacks are registered, and from which directories.
use platform_system_libhidl.Instrumentor.{
  SystemOps, HidlInstrumentor, paths_loop, configure_instrumentation, make_instrumentor,
}
use platform_system_libhidl.Prelude.{
  Bool-cases, Option-cases, Bytes, codes, ℕ, zero, suc, refl, ap, inl, inr, Bool, true, false, none,
  List, [], ◌≡◌, ◌≢◌, ◌⊎◌, ◌||◌, ◌∷◌, ◌++◌,
}

-- A disabled instrumentor holds no callbacks.
unfoldable pub is_tidy : {Cb : Type 0} → HidlInstrumentor Cb → Bool
is_tidy m = m.enable_instrumentation || elim m.instrumentation_callbacks [ [] ↦ true | _ ↦ false ]

module _ {D H Cb W : Type 0} (o : SystemOps D H Cb W) where
  -- `n` calls of configureInstrumentation after the construction.
  abbrev pub configured : (debuggable lp64 : Bool) → Bytes → Bytes → W → ℕ → HidlInstrumentor Cb × W
  configured debuggable lp64 pkg interface w zero =
      make_instrumentor o debuggable lp64 pkg interface w
  configured debuggable lp64 pkg interface w (suc n) =
      let (m, w') = configured debuggable lp64 pkg interface w n in
      configure_instrumentation o debuggable lp64 m w'

  -- What the property says at the next call.
  abbrev pub asked : W → Bool
  asked w = (o.property_get_bool (codes "hal.instrumentation.enable") false w).0

  abbrev pub after_asked : W → W
  after_asked w = (o.property_get_bool (codes "hal.instrumentation.enable") false w).1

  configure_cases :
      (debuggable lp64 : Bool) (m : HidlInstrumentor Cb) (w : W)
      → is_tidy m ≡ true
      → ((configure_instrumentation o debuggable lp64 m w).0.enable_instrumentation ≡ asked w)
        × (is_tidy (configure_instrumentation o debuggable lp64 m w).0 ≡ true)
        × ((asked w ≢ m.enable_instrumentation)
            ⊎ (configure_instrumentation o debuggable lp64 m w ≡ (m, after_asked w)))
  unfolding configure_instrumentation is_tidy
  configure_cases debuggable lp64 m w t = elim (Bool-cases (asked w)) [
    | inl q ↦ elim (Bool-cases m.enable_instrumentation) [
      | inl r ↦ rw (configure_instrumentation, q, r) (refl, refl, inr refl)
      | inr r ↦ rw (configure_instrumentation, q, r) (refl, refl, inl (λ x. cc))
    ]
    | inr q ↦ elim (Bool-cases m.enable_instrumentation) [
      | inl r ↦ rw (configure_instrumentation, q, r) (refl, refl, inl (λ x. cc))
      | inr r ↦ rw (configure_instrumentation, q, r) (refl, rw r at t, inr refl)
    ]
  ]

  abbrev fresh : Bytes → Bytes → HidlInstrumentor Cb
  fresh pkg interface = record {
    enable_instrumentation = false;
    instrumentation_callbacks = [];
    instrumentation_lib_package = pkg;
    interface_name = interface;
  }

  configured-is_tidy :
      (debuggable lp64 : Bool) (pkg interface : Bytes) (w : W) (n : ℕ)
      → is_tidy (configured debuggable lp64 pkg interface w n).0 ≡ true
  unfolding make_instrumentor is_tidy
  configured-is_tidy debuggable lp64 pkg interface w zero =
      (configure_cases debuggable lp64 (fresh pkg interface) w refl).1
  configured-is_tidy debuggable lp64 pkg interface w (suc n) =
      (configure_cases debuggable lp64 (configured debuggable lp64 pkg interface w n).0
        (configured debuggable lp64 pkg interface w n).1
        (configured-is_tidy debuggable lp64 pkg interface w n)).1

  -- After the construction and any number of calls of configureInstrumentation, an instrumentor that
  -- is not enabled holds no callbacks; a further call makes it enabled exactly if the property says
  -- so, and where that is what it is already, the call registers and drops nothing.
  pub configured_lem :
      (debuggable lp64 : Bool) (pkg interface : Bytes) (start : W) (n : ℕ)
      → let (m, w) = configured debuggable lp64 pkg interface start n in
        let next = configure_instrumentation o debuggable lp64 m w in
        (is_tidy m ≡ true)
        × (next.0.enable_instrumentation ≡ asked w)
        × ((asked w ≢ m.enable_instrumentation) ⊎ (next ≡ (m, after_asked w)))
  configured_lem debuggable lp64 pkg interface start n =
      let tidy = configured-is_tidy debuggable lp64 pkg interface start n in
      let (enabled, _, same) =
        configure_cases debuggable lp64 (configured debuggable lp64 pkg interface start n).0
          (configured debuggable lp64 pkg interface start n).1 tidy in
      (tidy, enabled, same)

  -- A directory that does not exist hides the ones behind it: if it can never be opened, then the
  -- callbacks that the loop registers are those of the directories before it.
  paths_loop_missing :
      (m : HidlInstrumentor Cb) (before : List Bytes) (missing : Bytes) (after : List Bytes)
      (callbacks : List Cb) (w : W)
      → ((v : W) → o.opendir missing v ≡ (none, v))
      → paths_loop o m (before ++ missing ∷ after) callbacks w ≡ paths_loop o m before callbacks w
  unfolding paths_loop
  paths_loop_missing m [] missing after callbacks w h =
      rw (ap (λ r. r.0) (h w)) (ap (λ r. (callbacks, r.1)) (h w))
  paths_loop_missing m (path ∷ paths) missing after callbacks w h =
      elim (Option-cases (o.opendir path w).0) [
        | inl q ↦ rw (q, paths_loop) refl
        | inr ((d, files), q) ↦ rw (q, paths_loop) (paths_loop_missing m paths missing after _ _ h)
      ]
