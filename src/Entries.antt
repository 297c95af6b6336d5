-- ===== src/Entries.antt =====
-- transport/allocator/1.0/default/service.cpp and transport/memory/1.0/default/HidlFetch.cpp: the
-- process of the allocator, and the function by which the mapper's library is asked for a mapper.
-- Construction, registration and the thread pool are parameters over a world W.
use platform_system_libhidl.Allocator.{HidlMemory, allocate_one}
use platform_system_libhidl.Prelude.{
  Bool-cases, is_some, ℤ, pos, negsuc, ltb_ℤ, eqb_ℤ, eqb_ℤ_iff, Run, done, fatal, fault, Bytes,
  codes, eqb_bytes, ℕ, refl, inl, inr, Bool, true, false, not, Option, none, some, List,
  if◌then◌else◌, ◌≡◌, ◌⊎◌,
}

module _ {M W : Type 0} (construct : W → M × W) where
  -- HIDL_FETCH_IMapper(const char *); the comparison of a null pointer with a string is undefined.
  unfoldable pub fetch_mapper : Option Bytes → W → Run (Option M × W)
  fetch_mapper none w = fault
  fetch_mapper (some name) w =
      if eqb_bytes name (codes "ashmem")
      then (let (mapper, w') = construct w in done (some mapper, w'))
      else done (none, w)

  -- Every memory that the allocator makes carries the name under which the mapper is found, and the
  -- empty memory of a failed allocation does not: for its name no mapper is constructed.
  pub fetch_mapper-allocate_one :
      (ashmem_create_region : ℕ → W → ℤ × W) (close : ℤ → W → W)
      (callback : Bool → List HidlMemory → W → W) (size : ℕ) (w v : W)
      → let memory = (allocate_one ashmem_create_region close callback size w).0 in
        fetch_mapper (some memory.name) v ≡ (
          if is_some memory.handle
          then done (some (construct v).0, (construct v).1)
          else done (none, v))
  unfolding fetch_mapper allocate_one
  fetch_mapper-allocate_one ashmem_create_region close callback size w v =
      elim (Bool-cases (ltb_ℤ (ashmem_create_region size w).0 (pos 0))) [
        | inl n ↦ rw n refl
        | inr n ↦ rw n refl
      ]

module _ {W : Type 0} (configure_rpc_threadpool : (max_threads : ℕ) → (will_join : Bool) → W → W)
    (register_as_service : Bytes → W → ℤ × W) (join_rpc_threadpool : W → W) where
  -- main() of the allocator's process: the exit code.
  unfoldable pub run_allocator : W → Run (ℤ × W)
  run_allocator w =
      let (status, w') = register_as_service (codes "ashmem") (configure_rpc_threadpool 1 true w) in
      if not (eqb_ℤ status (pos 0)) then fatal else done (negsuc 0, join_rpc_threadpool w')

  -- The process serves only when it is registered, and ends by aborting or with the exit code -1.
  pub run_allocator_lem :
      (w : W)
      → let (status, w') =
          register_as_service (codes "ashmem") (configure_rpc_threadpool 1 true w) in
        (run_allocator w ≡ done (negsuc 0, join_rpc_threadpool w')) × (status ≡ pos 0)
        ⊎ (run_allocator w ≡ fatal) × (eqb_ℤ status (pos 0) ≡ false)
  unfolding run_allocator
  run_allocator_lem w =
      let status = (register_as_service (codes "ashmem") (configure_rpc_threadpool 1 true w)).0 in
      elim (Bool-cases (eqb_ℤ status (pos 0))) [
        | inl z ↦ inl (rw z refl, (eqb_ℤ_iff status (pos 0)).0 z)
        | inr z ↦ inr (rw z refl, z)
      ]
