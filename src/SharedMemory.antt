-- ===== src/SharedMemory.antt =====
-- base/include/hidl/HidlSupport.h: hidl_memory; transport/memory/1.0/default: AshmemMapper and
-- AshmemMemory. A memory's handle and name are a hidl_handle and a hidl_string; the world W holds
-- the descriptors and the mappings, a Heap the strings. mmap and munmap are parameters.
pub mod Mapped
use platform_system_libhidl.Blocks.{Heap}
use platform_system_libhidl.Handle
use platform_system_libhidl.Handle.{HidlHandle, empty_handle, handle_ctor}
use platform_system_libhidl.MqDescriptor.{NativeHandle}
use platform_system_libhidl.Strings
use platform_system_libhidl.Strings.{HidlString, empty_string}
use platform_system_libhidl.Prelude.{
  ℤ, Run, done, fault, ℕ, Bool, true, false, Option, none, some, [], ◌∷◌, ◌>>=◌, ◌>>◌,
}

pub record HidlMemory : Type 0 where
  pub handle : HidlHandle
  pub size : ℕ
  pub name : HidlString

-- An AshmemMemory: mMemory and mData.
pub record AshmemMemory : Type 0 where
  pub memory : HidlMemory
  pub mapped : ℕ

module _ {W : Type 0} (clone : NativeHandle → W → Option NativeHandle × W)
    (close : NativeHandle → W → W) (k init : ℕ) where
  -- The members that the copy and the move constructor start from; mSize is not set then.
  abbrev pub blank_memory : HidlMemory
  blank_memory = record { handle = empty_handle; size = 0; name = empty_string k }

  -- hidl_memory(); `literal` is the address of "".
  unfoldable pub default_memory : (literal : ℕ) → Heap ℕ → Run (HidlMemory × Heap ℕ)
  unfolding Strings.cstr_ctor
  default_memory literal h = do
    (name, h') ← Strings.cstr_ctor k init literal h
    done (record { handle = handle_ctor none; size = 0; name = name }, h')

  -- operator=(const hidl_memory &); `same` tells whether both are one object.
  unfoldable pub copy_assign :
      (same : Bool) → HidlMemory → HidlMemory → W → Heap ℕ → Run (HidlMemory × W × Heap ℕ)
  unfolding Handle.copy_assign Strings.copy_assign
  copy_assign true this other w h = done (this, w, h)
  copy_assign false this other w h = do
    (handle, w') ← Handle.copy_assign clone close this.handle other.handle w
    (name, h') ← Strings.copy_assign k init this.name other.name h
    done (record { handle = handle; size = other.size; name = name }, w', h')

  unfoldable pub copy_ctor : HidlMemory → W → Heap ℕ → Run (HidlMemory × W × Heap ℕ)
  unfolding copy_assign
  copy_ctor other w h = copy_assign false blank_memory other w h

  -- hidl_memory(const hidl_string &, const native_handle_t *, size_t)
  unfoldable pub make_memory :
      HidlString → Option NativeHandle → ℕ → Heap ℕ → Run (HidlMemory × Heap ℕ)
  unfolding Strings.copy_ctor
  make_memory name handle size h = do
    (copied, h') ← Strings.copy_ctor k init name h
    done (record { handle = handle_ctor handle; size = size; name = copied }, h')

  -- operator=(hidl_memory &&): this memory and `other` afterwards.
  unfoldable pub move_assign :
      (same : Bool)
      → HidlMemory
      → HidlMemory
      → W
      → Heap ℕ
      → Run (HidlMemory × HidlMemory × W × Heap ℕ)
  unfolding Handle.move_assign Strings.move_assign
  move_assign true this other w h = done (this, this, w, h)
  move_assign false this other w h =
      let (handle, other_handle, w') = Handle.move_assign clone close this.handle other.handle w in
      do
        ((name, other_name), h') ← Strings.move_assign k this.name other.name h
        done (
          record { handle = handle; size = other.size; name = name },
          record { handle = other_handle; size = 0; name = other_name },
          w',
          h',
        )

  unfoldable pub move_ctor : HidlMemory → W → Heap ℕ → Run (HidlMemory × HidlMemory × W × Heap ℕ)
  unfolding move_assign
  move_ctor other w h = move_assign false blank_memory other w h

  -- ~hidl_memory(): the destructors of the name and the handle.
  unfoldable pub destroy : HidlMemory → W → Heap ℕ → Run (W × Heap ℕ)
  unfolding Handle.destroy Strings.clear
  destroy m w h = do
    (name, h') ← Strings.clear k m.name h
    done (Handle.destroy clone close m.handle w, h')

  module _ (mmap : (size : ℕ) → (fd : ℤ) → W → Option ℕ × W)
      (munmap : (address size : ℕ) → W → W) where
    -- AshmemMapper::mapMemory; mmap gives none for MAP_FAILED. The handle is not tested for null.
    unfoldable pub map_memory : HidlMemory → W → Heap ℕ → Run (Option AshmemMemory × W × Heap ℕ)
    unfolding copy_ctor
    map_memory mem w h = elim mem.handle.handle [
      | none ↦ fault
      | some native ↦ elim native.fds [
        | [] ↦ done (none, w, h)
        | fd ∷ fds ↦
            let (address, w') = mmap mem.size fd w in
            elim address [
              | none ↦ done (none, w', h)
              | some a ↦ (do
                (memory, w'', h') ← copy_ctor mem w' h
                done (some (record { memory = memory; mapped = a }), w'', h'))
            ]
      ]
    ]

    -- ~AshmemMemory()
    unfoldable pub destroy_mapping : AshmemMemory → W → Heap ℕ → Run (W × Heap ℕ)
    unfolding destroy
    destroy_mapping m w h = destroy m.memory (munmap m.mapped m.memory.size w) h

-- getPointer and getSize; update, read, commit and the ranged calls do nothing.
unfoldable pub get_pointer : AshmemMemory → ℕ
get_pointer m = m.mapped

unfoldable pub get_size : AshmemMemory → ℕ
get_size m = m.memory.size
