-- ===== src/Handle.antt =====
-- base/HidlSupport.cpp: `hidl_handle`. `native_handle_clone` and the call that closes the
-- descriptors of a handle, libcutils functions, are parameters over a world `W`.
pub mod Ownership
pub mod Pool
pub mod Fair
pub mod Conserved
use platform_system_libhidl.MqDescriptor.{NativeHandle}
use platform_system_libhidl.Prelude.{
  Run, done, fatal, Bool, true, false, Option, none, some, if◌then◌else◌,
}

-- mHandle and mOwnsHandle
pub record HidlHandle : Type 0 where
  pub handle : Option NativeHandle
  pub owns : Bool

-- hidl_handle()
abbrev pub empty_handle : HidlHandle
empty_handle = record { handle = none; owns = false }

-- hidl_handle(const native_handle_t *)
abbrev pub handle_ctor : Option NativeHandle → HidlHandle
handle_ctor handle = record { handle = handle; owns = false }

module _ {W : Type 0} (clone : NativeHandle → W → Option NativeHandle × W)
    (close : NativeHandle → W → W) where
  unfoldable pub free_handle : HidlHandle → W → HidlHandle × W
  free_handle this w = elim this.handle [
    | none ↦ (this, w)
    | some h ↦ if this.owns then (record this { handle = none }, close h w) else (this, w)
  ]

  -- ~hidl_handle()
  unfoldable pub destroy : HidlHandle → W → W
  unfolding free_handle
  destroy this w = (free_handle this w).1

  -- operator=(const hidl_handle &), for two different objects.
  unfoldable pub copy_assign : HidlHandle → HidlHandle → W → Run (HidlHandle × W)
  copy_assign this other w =
      let (this', w') = free_handle this w in
      elim other.handle [
        | none ↦ done (record this' { handle = none; owns = false }, w')
        | some h ↦
            let (cloned, w'') = clone h w' in
            elim cloned [
              | none ↦ fatal
              | some c ↦ done (record this' { handle = some c; owns = true }, w'')
            ]
      ]

  unfoldable pub copy_ctor : HidlHandle → W → Run (HidlHandle × W)
  unfolding copy_assign
  copy_ctor other w = copy_assign empty_handle other w

  -- operator=(const native_handle_t *)
  unfoldable pub assign_native : HidlHandle → Option NativeHandle → W → HidlHandle × W
  assign_native this native_handle w =
      let (this', w') = free_handle this w in
      (record this' { handle = native_handle; owns = false }, w')

  -- operator=(hidl_handle &&), for two different objects: this handle and `other` afterwards.
  unfoldable pub move_assign : HidlHandle → HidlHandle → W → HidlHandle × HidlHandle × W
  move_assign this other w =
      let (this', w') = free_handle this w in
      (
        record this' { handle = other.handle; owns = other.owns },
        record other { handle = none; owns = false },
        w',
      )

  unfoldable pub move_ctor : HidlHandle → W → HidlHandle × HidlHandle × W
  unfolding move_assign
  move_ctor other w = move_assign empty_handle other w

  unfoldable pub set_to : HidlHandle → Option NativeHandle → Bool → W → HidlHandle × W
  set_to this handle should_own w =
      let (this', w') = free_handle this w in
      (record this' { handle = handle; owns = should_own }, w')
