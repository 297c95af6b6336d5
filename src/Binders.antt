-- ===== src/Binders.antt =====
-- transport/include/hidl/HidlBinderSupport.h, transport/HidlTransportUtils.cpp: the binder object of
-- an interface and the interface of a binder object. I: interfaces, B: binder objects, F: the
-- constructors that generated code registers, C: child interfaces of casts, W: the world. Pointers
-- are values; a weak pointer is promoted to the object while that is alive.
pub mod Cached
pub mod Back
use platform_system_libhidl.Casts.{CastOps, can_cast_interface}
use platform_system_libhidl.ConcurrentMap
use platform_system_libhidl.ConcurrentMap.{ConcurrentMap}
use platform_system_libhidl.Prelude.Eq.{Eq, bytes_eq}
use platform_system_libhidl.Status.Return
use platform_system_libhidl.Status.Return.{Return}
use platform_system_libhidl.Prelude.{
  Run, done, Bytes, ℕ, Bool, true, false, not, Option, none, some, [], if◌then◌else◌, ◌||◌, ◌∷◌,
  ◌>>=◌, ◌>>◌,
}

pub record BinderOps (I B F W : Type 0) : Type 0 where
  -- interfaceDescriptor(), with the C string that it hands its callback, if it calls it
  pub interface_descriptor : I → W → Option Bytes × Return (Unit {0}) × W
  -- IInterface::asBinder(static_cast<BpInterface<IType> *>(iface))
  pub as_binder : I → B
  -- the call of a registered constructor, which may return null
  pub construct : F → I → W → Option B × W
  pub is_alive : B → W → Bool
  -- localBinder() != nullptr
  pub is_local : B → Bool
  pub get_impl : B → I
  -- new ProxyType(binderIface)
  pub new_proxy : B → I

-- `bn_map` is gBnMap, `bn_constructors` is gBnConstructorMap.
pub record BinderState (I B F W : Type 0) : Type 0 where
  pub bn_map : ConcurrentMap I (Option B)
  pub bn_constructors : ConcurrentMap Bytes (Option F)
  pub world : W

module _ {I B F C W : Type 0} ⦃e : Eq I⦄ (o : BinderOps I B F W) (c : CastOps I C W) where
  unfoldable pub get_descriptor : I → W → Run (Bytes × W)
  unfolding Return.check Return.destroy
  get_descriptor i w =
      let (types, ret, w') = o.interface_descriptor i w in
      do Return.destroy (Return.check ret); done (elim types [ none ↦ [] | some t ↦ t ], w')

  -- wBnObj.promote()
  unfoldable pub promote : Option B → W → Option B
  promote none w = none
  promote (some b) w = if o.is_alive b w then some b else none

  -- A binder object made for `i` by the constructor that is registered for its descriptor.
  unfoldable pub make_binder : I → Option F → BinderState I B F W → Option B × BinderState I B F W
  unfolding ConcurrentMap.set_locked
  make_binder i none s = (none, s)
  make_binder i (some f) s =
      let (made, w) = o.construct f i s.world in
      elim made [
        | none ↦ (none, record s { world = w })
        | some b ↦
            (some b, record s { bn_map = ConcurrentMap.set_locked i (some b) s.bn_map; world = w })
      ]

  -- toBinder for a local interface, once its descriptor is known; gBnMap is locked.
  unfoldable pub local_binder : I → Bytes → BinderState I B F W → Option B × BinderState I B F W
  unfolding make_binder promote ConcurrentMap.get_locked ConcurrentMap.get
  local_binder i [] s = (none, s)
  local_binder i (d ∷ ds) s = elim (promote (ConcurrentMap.get_locked i none s.bn_map) s.world) [
    | some b ↦ (some b, s)
    | none ↦ make_binder i (ConcurrentMap.get (d ∷ ds) none s.bn_constructors) s
  ]

  unfoldable pub to_binder : Option I → BinderState I B F W → Run (Option B × BinderState I B F W)
  unfolding get_descriptor local_binder
  to_binder none s = done (none, s)
  to_binder (some i) s = if c.is_remote i then done (some (o.as_binder i), s) else (do
    (descriptor, w) ← get_descriptor i s.world
    done (local_binder i descriptor (record s { world = w })))

  -- fromBinder to the interface type `descriptor`.
  unfoldable pub from_binder : Bytes → Option B → W → Run (Option I × W)
  unfolding can_cast_interface Return.value Return.destroy
  from_binder descriptor none w = done (none, w)
  from_binder descriptor (some b) w =
      if not (o.is_local b) then done (some (o.new_proxy b), w) else (do
        (ret, w') ← can_cast_interface c (some (o.get_impl b)) descriptor false w
        (can_cast, ret') ← Return.value ret
        Return.destroy ret'
        done (if can_cast then some (o.get_impl b) else none, w'))

-- operator== of strong pointers.
abbrev pub same_pointer : {A : Type 0} ⦃e : Eq A⦄ → Option A → Option A → Bool
same_pointer none none = true
same_pointer none (some b) = false
same_pointer (some a) none = false
same_pointer ⦃e⦄ (some a) (some b) = e.beq a b

is_remote_pointer : {I C W : Type 0} → CastOps I C W → Option I → Bool
is_remote_pointer c none = false
is_remote_pointer c (some i) = c.is_remote i

-- The binder objects' `==` is that of B.
unfoldable pub interfaces_equal :
    {I B F C W : Type 0} ⦃e : Eq I⦄ ⦃eb : Eq B⦄
    → BinderOps I B F W
    → CastOps I C W
    → Option I
    → Option I
    → BinderState I B F W
    → Run (Bool × BinderState I B F W)
unfolding is_remote_pointer to_binder
interfaces_equal o c left right s =
    if not (is_remote_pointer c left) || not (is_remote_pointer c right)
    then done (same_pointer left right, s)
    else (do
      (l, s') ← to_binder o c left s
      (r, s'') ← to_binder o c right s'
      done (same_pointer l r, s''))

-- wrapPassthrough. `constructors` is gBsConstructorMap, and `call` runs one of its functions, which
-- may return null.
unfoldable pub wrap_passthrough :
    {I B F C G W : Type 0} ⦃e : Eq I⦄
    → BinderOps I B F W
    → CastOps I C W
    → (call : G → I → W → Option I × W) → ConcurrentMap Bytes (Option G)
    → Option I
    → W
    → Run (Option I × W)
unfolding get_descriptor ConcurrentMap.get
wrap_passthrough o c call constructors none w = done (none, w)
wrap_passthrough o c call constructors (some i) w = if c.is_remote i then done (some i, w) else (do
  (descriptor, w') ← get_descriptor o c i w
  done (elim descriptor [
    | [] ↦ (none, w')
    | d ∷ ds ↦ elim (ConcurrentMap.get (d ∷ ds) none constructors) [
      | none ↦ (none, w')
      | some f ↦ call f i w'
    ]
  ]))

-- hidl_binder_death_recipient: what it knows of its recipient and its interface, each a weak
-- pointer that may be null.
pub record DeathRecipient (R I : Type 0) : Type 0 where
  pub recipient : Option R
  pub cookie : ℕ
  pub base : Option I

-- binderDied: the object afterwards and the call of serviceDied, if there is one. `alive` tells
-- whether the recipient can be promoted.
unfoldable pub binder_died :
    {R I : Type 0} → (R → Bool) → DeathRecipient R I → DeathRecipient R I × Option (R × ℕ × I)
binder_died alive d = (
  record d { base = none },
  elim d.recipient [
    | none ↦ none
    | some r ↦ elim d.base [
      | none ↦ none
      | some i ↦ if alive r then some (r, d.cookie, i) else none
    ]
  ],
)
