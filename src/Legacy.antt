-- ===== src/Legacy.antt =====
-- transport/include/hidl/LegacySupport.h: the registration of a passthrough implementation as a
-- service. getService, registerAsService and the thread pool are parameters over a world W; a
-- service S is not null. The log is left out.
use platform_system_libhidl.Prelude.{
  Bool-cases, ℤ, pos, eqb_ℤ, Run, done, fatal_if, Bytes, ℕ, refl, ap, inl, inr, Bool, true, false,
  not, Option, none, some, if◌then◌else◌, ◌>>=◌, ◌≡◌, ◌∙◌, ◌&&◌, ◌>>◌,
}

pub record LegacyOps (S W : Type 0) : Type 0 where
  pub ok : ℤ
  -- Interface::getService(name, true)
  pub get_service : Bytes → W → Option S × W
  pub is_remote : S → Bool
  pub register_as_service : S → Bytes → W → ℤ × W
  pub configure_rpc_threadpool : (max_threads : ℕ) → (caller_will_join : Bool) → W → W
  -- the world when the calling thread has left the pool
  pub join_rpc_threadpool : W → W

-- EXIT_FAILURE
abbrev exit_failure : ℤ
exit_failure = pos 1

module _ {S W : Type 0} (o : LegacyOps S W) where
  -- `checked` tells whether the build keeps LOG_FATAL_IF.
  unfoldable pub register_passthrough_service_implementation :
      (checked : Bool) → Bytes → W → Run (ℤ × W)
  register_passthrough_service_implementation checked name w =
      let (service, w') = o.get_service name w in
      elim service [
        | none ↦ done (exit_failure, w')
        | some s ↦ (do fatal_if (checked && o.is_remote s); done (o.register_as_service s name w'))
      ]

  unfoldable pub default_passthrough_service_implementation :
      (checked : Bool) → Bytes → (max_threads : ℕ) → W → Run (ℤ × W)
  unfolding register_passthrough_service_implementation
  default_passthrough_service_implementation checked name max_threads w = do
    (result, w') ←
        register_passthrough_service_implementation checked name
          (o.configure_rpc_threadpool max_threads true w)
    done (if not (eqb_ℤ result o.ok) then (result, w') else (pos 0, o.join_rpc_threadpool w'))

  registered :
      (name : Bytes) (w w' : W) (s : S)
      → o.get_service name w ≡ (some s, w')
      → o.is_remote s ≡ false
      → register_passthrough_service_implementation true name w
        ≡ done (o.register_as_service s name w')
  unfolding register_passthrough_service_implementation
  registered name w w' s found near =
      rw (register_passthrough_service_implementation, found, found, near) refl

  -- A process that serves joins the pool only after a registration that succeeded: if the build keeps
  -- the check, the implementation is there and not remote, the call returns 0 behind the pool exactly
  -- if registerAsService returned OK, and its status without the pool otherwise.
  pub default_passthrough_lem :
      (name : Bytes) (max_threads : ℕ) (w w' : W) (s : S)
      → o.get_service name (o.configure_rpc_threadpool max_threads true w) ≡ (some s, w')
      → o.is_remote s ≡ false
      → default_passthrough_service_implementation true name max_threads w
        ≡ done (
            if eqb_ℤ (o.register_as_service s name w').0 o.ok
            then (pos 0, o.join_rpc_threadpool (o.register_as_service s name w').1)
            else o.register_as_service s name w')
  unfolding default_passthrough_service_implementation
  default_passthrough_lem name max_threads w w' s found near =
      let start : W = o.configure_rpc_threadpool max_threads true w in
      ap
        (λ r.
          r >>= λ x. done (if not (eqb_ℤ x.0 o.ok) then x else (pos 0, o.join_rpc_threadpool x.1)))
        (registered name start w' s found near)
      ∙ elim (Bool-cases (eqb_ℤ (o.register_as_service s name w').0 o.ok)) [
        | inl e ↦ rw e refl
        | inr e ↦ rw e refl
      ]
