-- ===== src/Allocator.antt =====
-- transport/allocator/1.0/default/AshmemAllocator.cpp: the allocator of shared memory. The calls
-- of the system, `ashmem_create_region` and `close`, and the client's callback are parameters.
pub mod Regions
use platform_system_libhidl.MqDescriptor.{NativeHandle, close_all}
use platform_system_libhidl.Vec.{uint32_max}
use platform_system_libhidl.Prelude.{
  ltb, is_some, length, ℤ, pos, ltb_ℤ, Bytes, codes, ℕ, zero, suc, Bool, true, false, Option, none,
  some, List, [], if◌then◌else◌, ◌∷◌,
}

-- hidl_memory: its handle, its name and its size.
pub record HidlMemory : Type 0 where
  pub handle : Option NativeHandle
  pub name : Bytes
  pub size : ℕ

-- hidl_memory()
abbrev pub no_memory : HidlMemory
no_memory = record { handle = none; name = []; size = 0 }

-- The memory that allocateOne returns for a region.
abbrev pub memory_of : ℕ → ℤ → HidlMemory
memory_of size fd = record {
  handle = some (record { fds = fd ∷ []; ints = [] });
  name = codes "ashmem";
  size = size;
}

module _ {W : Type 0} (ashmem_create_region : ℕ → W → ℤ × W) (close : ℤ → W → W)
    (callback : Bool → List HidlMemory → W → W) where
  unfoldable pub allocate_one : ℕ → W → HidlMemory × W
  allocate_one size w =
      let (fd, w') = ashmem_create_region size w in
      (if ltb_ℤ fd (pos 0) then no_memory else memory_of size fd, w')

  unfoldable pub cleanup : HidlMemory → W → W
  unfolding close_all
  cleanup memory w = elim memory.handle [ none ↦ w | some h ↦ close_all close h.fds w ]

  -- allocate; the callback gets one memory.
  unfoldable pub allocate : ℕ → W → W
  unfolding allocate_one cleanup
  allocate size w =
      let (memory, w') = allocate_one size w in
      cleanup memory (callback (is_some memory.handle) (memory ∷ []) w')

  -- The loop that fills the batch, with `k` rounds left: the memories before the first failure.
  unfoldable pub allocate_loop : ℕ → ℕ → W → List HidlMemory × W
  allocate_loop size zero w = ([], w)
  allocate_loop size (suc k) w =
      let (memory, w') = allocate_one size w in
      elim memory.handle [
        | none ↦ ([], w')
        | some h ↦ let (rest, w'') = allocate_loop size k w' in (memory ∷ rest, w'')
      ]

  -- The loop of cleanup calls at the end of batchAllocate.
  unfoldable pub cleanup_loop : List HidlMemory → W → W
  unfolding cleanup
  cleanup_loop [] w = w
  cleanup_loop (memory ∷ rest) w = cleanup_loop rest (cleanup memory w)

  unfoldable pub batch_allocate : (size count : ℕ) → W → W
  unfolding allocate_loop cleanup_loop
  batch_allocate size count w =
      if ltb uint32_max count
      then callback false [] w
      else (let (batch, w') = allocate_loop size count w in
          cleanup_loop batch
            (if ltb (length batch) count then callback false [] w' else callback true batch w'))
