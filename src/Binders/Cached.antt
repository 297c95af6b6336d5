-- ===== src/Binders/Cached.antt =====
-- One binder object for each local interface.
use platform_system_libhidl.Casts.{CastOps}
use platform_system_libhidl.ConcurrentMap
use platform_system_libhidl.ConcurrentMap.{ConcurrentMap}
use platform_system_libhidl.ConcurrentMap.View.{get-set}
use platform_system_libhidl.Binders.{
  BinderOps, BinderState, get_descriptor, promote, make_binder, local_binder, to_binder,
}
use platform_system_libhidl.Prelude.Eq.{Eq, bytes_eq}
use platform_system_libhidl.Prelude.{
  Bool-cases, Option-cases, done, done_inj, subst, Bytes, ℕ, refl, sym, ap, inl, inr, true, false,
  Option, none, some, [], arith, if◌then◌else◌, ◌>>=◌, ◌≡◌, ◌∙◌, ◌∷◌,
}

module _ {I B F C W : Type 0} ⦃e : Eq I⦄ (o : BinderOps I B F W) (c : CastOps I C W) where
  pub promote-some : (m : Option B) (w : W) (b : B) → promote o c m w ≡ some b → m ≡ some b
  unfolding promote
  promote-some none w b h = cc
  promote-some (some a) w b h = ground arith

  -- Where the result is a binder object, gBnMap holds it for the interface, and is otherwise as it
  -- was.
  abbrev Entered : I → I → Option B → BinderState I B F W → BinderState I B F W → Type 0
  Entered i j none s s' = s'.bn_map ≡ s.bn_map
  Entered i j (some b) s s' =
      ConcurrentMap.get j none s'.bn_map
      ≡ (if e.beq i j then some b else ConcurrentMap.get j none s.bn_map)

  make_binder-Entered :
      (i j : I) (f : Option F) (s : BinderState I B F W)
      → Entered i j (make_binder o c i f s).0 s (make_binder o c i f s).1
  unfolding make_binder ConcurrentMap.set
  make_binder-Entered i j none s = refl
  make_binder-Entered i j (some f) s = elim (Option-cases (o.construct f i s.world).0) [
    | inl n ↦ rw (make_binder, n) refl
    | inr (b, n) ↦ rw (make_binder, n) (get-set i j (some b) none s.bn_map)
  ]

  kept-Entered :
      (i j : I) (b : B) (s : BinderState I B F W)
      → ConcurrentMap.get_locked i none s.bn_map ≡ some b
      → Entered i j (some b) s s
  unfolding ConcurrentMap.get
  kept-Entered i j b s h = elim (Bool-cases (e.beq i j)) [
    | inl q ↦
        rw q (sym (ap (λ k. ConcurrentMap.get_locked k none s.bn_map) ((e.beq_iff i j).0 q)) ∙ h)
    | inr q ↦ rw q
  ]

  local_binder-Entered :
      (i j : I) (d : Bytes) (s : BinderState I B F W)
      → Entered i j (local_binder o c i d s).0 s (local_binder o c i d s).1
  unfolding local_binder
  local_binder-Entered i j [] s = refl
  local_binder-Entered i j (d ∷ ds) s =
      elim (Option-cases (promote o c (ConcurrentMap.get_locked i none s.bn_map) s.world)) [
        | inl n ↦
            rw (local_binder, n)
              (make_binder-Entered i j (ConcurrentMap.get (d ∷ ds) none s.bn_constructors) s)
        | inr (b, n) ↦
            let held = promote-some (ConcurrentMap.get_locked i none s.bn_map) s.world b n in
            rw (local_binder, n) (kept-Entered i j b s held)
      ]

  local_binder-kept :
      (i : I) (b : B) (d : ℕ) (ds : Bytes) (s : BinderState I B F W)
      → ConcurrentMap.get i none s.bn_map ≡ some b
      → o.is_alive b s.world ≡ true
      → local_binder o c i (d ∷ ds) s ≡ (some b, s)
  unfolding local_binder ConcurrentMap.get promote
  local_binder-kept i b d ds s h alive = rw (local_binder, h, promote, alive) refl

  pub to_binder-local :
      (i : I) (s : BinderState I B F W) (d : Bytes) (w : W)
      → c.is_remote i ≡ false
      → get_descriptor o c i s.world ≡ done (d, w)
      → to_binder o c (some i) s ≡ done (local_binder o c i d (record s { world = w }))
  unfolding to_binder get_descriptor
  to_binder-local i s d w l h =
      rw l (ap (λ r. r >>= λ q. done (local_binder o c i q.0 (record s { world = q.1 }))) h)

  -- The descriptor that getDescriptor finds, which never aborts.
  pub get_descriptor_total :
      (i : I) (w : W) → (d : Bytes) × (w' : W) × (get_descriptor o c i w ≡ done (d, w'))
  unfolding get_descriptor
  get_descriptor_total i w = (_, _, refl)

  pub to_binder-Entered :
      (i j : I) (b : B) (s s' : BinderState I B F W)
      → c.is_remote i ≡ false
      → to_binder o c (some i) s ≡ done (some b, s')
      → Entered i j (some b) s s'
  to_binder-Entered i j b s s' l h =
      let (d, w, described) = get_descriptor_total i s.world in
      let made = done_inj _ _ (sym (to_binder-local i s d w l described) ∙ h) in
      subst (λ r. Entered i j r.0 (record s { world = w }) r.1) made
        (local_binder-Entered i j d (record s { world = w }))

  -- One binder object for each local interface: once toBinder has made one, toBinder in any later
  -- state where the map's entry for the interface is still there, the interface still answers with
  -- a descriptor and the object is alive, gives the same object and changes no map; and the first
  -- call entered the object for the interface and left the other entries as they were.
  pub to_binder_cached :
      (i : I) (b : B) (s s' later : BinderState I B F W) (d : ℕ) (ds : Bytes) (w : W)
      → c.is_remote i ≡ false
      → to_binder o c (some i) s ≡ done (some b, s')
      → ConcurrentMap.get i none later.bn_map ≡ ConcurrentMap.get i none s'.bn_map
      → get_descriptor o c i later.world ≡ done (d ∷ ds, w)
      → o.is_alive b w ≡ true
      → (to_binder o c (some i) later ≡ done (some b, record later { world = w }))
        × ((j : I)
            → ConcurrentMap.get j none s'.bn_map
              ≡ (if e.beq i j then some b else ConcurrentMap.get j none s.bn_map))
  to_binder_cached i b s s' later d ds w l h kept described alive =
      let entered : ConcurrentMap.get i none s'.bn_map ≡ some b =
        rw ((e.beq_iff i i).1 refl) at (to_binder-Entered i i b s s' l h) in
      (
        (to_binder-local i later (d ∷ ds) w l described)
            ∙ ap done
                (local_binder-kept i b d ds (record later { world = w }) (kept ∙ entered) alive),
        λ j. to_binder-Entered i j b s s' l h,
      )
