-- ===== src/Binders/Back.antt =====
-- The interface that fromBinder finds for the binder object of toBinder.
use platform_system_libhidl.Casts.{CastOps, can_cast_interface}
use platform_system_libhidl.ConcurrentMap
use platform_system_libhidl.Status.Return
use platform_system_libhidl.Binders.{
  BinderOps, BinderState, promote, make_binder, local_binder, to_binder, from_binder,
  interfaces_equal, DeathRecipient, binder_died,
}
use platform_system_libhidl.Binders.Cached.{to_binder-local, get_descriptor_total, promote-some}
use platform_system_libhidl.ConcurrentMap.View.{get-set}
use platform_system_libhidl.Prelude.Eq.{Eq, bytes_eq}
use platform_system_libhidl.Prelude.{
  Bool-cases, Option-cases, done, done_inj, subst, Bytes, refl, sym, inl, inr, Bool, true, false,
  Option, none, some, [], arith, if◌then◌else◌, ◌≡◌, ◌∙◌, ◌&&◌, ◌∷◌,
}

module _ {I B F C W : Type 0} ⦃e : Eq I⦄ (o : BinderOps I B F W) (c : CastOps I C W) where
  -- `b` is a local binder object whose implementation is `i`.
  abbrev pub IsStub : I → Option B → Type 0
  IsStub i none = Unit {0}
  IsStub i (some b) = (o.is_local b ≡ true) × (o.get_impl b ≡ i)

  -- The registered constructors make stubs of the interface that they are given.
  abbrev pub MakesStubs : Type 0
  MakesStubs = (f : F) (i : I) (w : W) → IsStub i (o.construct f i w).0

  -- Each entry of gBnMap is a stub of its key.
  abbrev pub HoldsStubs : BinderState I B F W → Type 0
  HoldsStubs s = (i : I) → IsStub i (ConcurrentMap.get i none s.bn_map)

  set-HoldsStubs :
      (i : I) (b : B) (s : BinderState I B F W) (w : W)
      → IsStub i (some b)
      → HoldsStubs s
      → HoldsStubs (record s { bn_map = ConcurrentMap.set i (some b) s.bn_map; world = w })
  set-HoldsStubs i b s w h hs j = elim (Bool-cases (e.beq i j)) [
    | inl q ↦
        rw (get-set i j (some b) none s.bn_map, q)
          (subst (λ k. IsStub k (some b)) ((e.beq_iff i j).0 q) h)
    | inr q ↦ rw (get-set i j (some b) none s.bn_map, q) (hs j)
  ]

  make_binder-IsStub :
      (i : I) (f : Option F) (s : BinderState I B F W)
      → MakesStubs
      → HoldsStubs s
      → IsStub i (make_binder o c i f s).0 × HoldsStubs (make_binder o c i f s).1
  unfolding make_binder ConcurrentMap.set
  make_binder-IsStub i none s m h = (tt, h)
  make_binder-IsStub i (some f) s m h = elim (Option-cases (o.construct f i s.world).0) [
    | inl n ↦ rw (make_binder, n) (tt, h)
    | inr (b, n) ↦
        rw (make_binder, n)
          (let stub : IsStub i (some b) = rw n at (m f i s.world) in
            (stub, set-HoldsStubs i b s (o.construct f i s.world).1 stub h))
  ]

  local_binder-IsStub :
      (i : I) (d : Bytes) (s : BinderState I B F W)
      → MakesStubs
      → HoldsStubs s
      → IsStub i (local_binder o c i d s).0 × HoldsStubs (local_binder o c i d s).1
  unfolding local_binder ConcurrentMap.get
  local_binder-IsStub i [] s m h = (tt, h)
  local_binder-IsStub i (d ∷ ds) s m h =
      elim (Option-cases (promote o c (ConcurrentMap.get_locked i none s.bn_map) s.world)) [
        | inl n ↦
            rw (local_binder, n)
              (make_binder-IsStub i (ConcurrentMap.get (d ∷ ds) none s.bn_constructors) s m h)
        | inr (b, n) ↦
            rw (local_binder, n)
              (let held = promote-some o c (ConcurrentMap.get_locked i none s.bn_map) s.world b n in
                (rw held at (h i), h))
      ]

  -- If the registered constructors make stubs and gBnMap holds stubs of its keys, then whatever
  -- toBinder finds for a local interface is a stub of it, and gBnMap still holds stubs of its keys.
  pub to_binder-IsStub :
      (i : I) (b : Option B) (s s' : BinderState I B F W)
      → c.is_remote i ≡ false
      → MakesStubs
      → HoldsStubs s
      → to_binder o c (some i) s ≡ done (b, s')
      → IsStub i b × HoldsStubs s'
  to_binder-IsStub i b s s' l m h found =
      let (d, w, described) = get_descriptor_total o c i s.world in
      let made = done_inj _ _ (sym (to_binder-local o c i s d w l described) ∙ found) in
      subst (λ r. IsStub i r.0 × HoldsStubs r.1) made
        (local_binder-IsStub i d (record s { world = w }) m h)

  from_binder-IsStub :
      (i : I) (b : B) (t : Bytes) (w w' : W)
      → IsStub i (some b)
      → can_cast_interface c (some i) t false w ≡ done (Return.of_value true, w')
      → from_binder o c t (some b) w ≡ done (some i, w')
  unfolding from_binder Return.value
  from_binder-IsStub i b t w w' (h, k) q = rw (from_binder, h, k, q) refl

  -- There and back: if the registered constructors make stubs of the interfaces that they are given
  -- and each entry of gBnMap is a stub of its key, fromBinder of the binder object that toBinder
  -- found for a local interface, cast to a type that the interface has, is the interface itself and
  -- no proxy.
  pub from_binder-to_binder :
      (i : I) (b : B) (s s' : BinderState I B F W) (t : Bytes) (w w' : W)
      → c.is_remote i ≡ false
      → MakesStubs
      → HoldsStubs s
      → to_binder o c (some i) s ≡ done (some b, s')
      → can_cast_interface c (some i) t false w ≡ done (Return.of_value true, w')
      → from_binder o c t (some b) w ≡ done (some i, w')
  from_binder-to_binder i b s s' t w w' l m h found q =
      from_binder-IsStub i b t w w' (to_binder-IsStub i (some b) s s' l m h found).0 q

  -- A remote interface's binder object is its proxy's, whose fromBinder is a new proxy; neither
  -- changes a map.
  pub remote_binder :
      (i : I) (s : BinderState I B F W) (t : Bytes) (w : W)
      → c.is_remote i ≡ true
      → o.is_local (o.as_binder i) ≡ false
      → (to_binder o c (some i) s ≡ done (some (o.as_binder i), s))
        × (from_binder o c t (some (o.as_binder i)) w
            ≡ done (some (o.new_proxy (o.as_binder i)), w))
  unfolding to_binder from_binder
  remote_binder i s t w r h = (rw (to_binder, r) refl, rw (from_binder, h) refl)

-- A second binderDied reports nothing, whether or not the recipient is alive at either time.
binder_died_once :
    {R I : Type 0} (alive alive' : R → Bool) (d : DeathRecipient R I)
    → (binder_died alive' (binder_died alive d).0).1 ≡ none
unfolding binder_died
binder_died_once alive alive' d = elim (Option-cases d.recipient) [
  | inl n ↦ rw (binder_died, n) refl
  | inr (r, n) ↦ rw (binder_died, n) refl
]

-- interfacesEqual compares the binder objects of two remote interfaces, and the pointers otherwise;
-- it never aborts and leaves the maps alone.
pub interfaces_equal_lem :
    {I B F C W : Type 0} ⦃e : Eq I⦄ ⦃eb : Eq B⦄ (o : BinderOps I B F W) (c : CastOps I C W)
    (i j : I) (s : BinderState I B F W)
    → interfaces_equal o c (some i) (some j) s
      ≡ done (
        if c.is_remote i && c.is_remote j
            then eb.beq (o.as_binder i) (o.as_binder j)
            else e.beq i j,
        s,
      )
unfolding interfaces_equal to_binder
interfaces_equal_lem o c i j s = ground arith
