-- ===== src/Handle/Fair.antt =====
-- How each method of hidl_handle changes the ledger and what its objects own.
use platform_system_libhidl.Handle.{
  HidlHandle, empty_handle, free_handle, copy_assign, move_assign, assign_native, set_to,
}
use platform_system_libhidl.MqDescriptor.{NativeHandle}
use platform_system_libhidl.Handle.Pool.{Ledger, Pool, clone_noted, close_noted, hand_over}
use platform_system_libhidl.Prelude.{
  Option-cases, total, done, fatal, ℕ, refl, inl, inr, Bool, true, false, Option, none, some, arith,
  if◌then◌else◌, ◌+◌, ◌≡◌, ◌∙◌, ◌⊎◌, ◌∷◌,
}

module _ (q : NativeHandle → Bool) where
  abbrev pub passes : NativeHandle → ℕ
  passes h = if q h then 1 else 0

  abbrev pub passes_some : Option NativeHandle → ℕ
  passes_some none = 0
  passes_some (some h) = passes h

  -- The handle that an object owns, if it passes the test.
  abbrev pub owned : HidlHandle → ℕ
  owned o = if o.owns then passes_some o.handle else 0

  module _ {W : Type 0} where
    -- As many handles that pass the test were acquired as were closed or are owned.
    abbrev pub IsBalanced : Pool W → Type 0
    IsBalanced p =
        total passes p.ledger.acquired ≡ total passes p.ledger.closed + total owned p.objects

    -- Objects that own `before` in sum and then own `after`, and a ledger, change fairly.
    abbrev pub IsFair : Ledger W → ℕ → Ledger W → ℕ → Type 0
    IsFair l before l' after =
        total passes l'.acquired + total passes l.closed + before
        ≡ total passes l.acquired + total passes l'.closed + after

    module _ (clone : NativeHandle → W → Option NativeHandle × W)
        (close : NativeHandle → W → W) where
      abbrev pub cloning : NativeHandle → Ledger W → Option NativeHandle × Ledger W
      cloning = clone_noted clone close

      abbrev pub closing : NativeHandle → Ledger W → Ledger W
      closing = close_noted clone close

      free_handle_fields-IsFair :
          (handle : Option NativeHandle) (owns : Bool) (l : Ledger W)
          → let this : HidlHandle = record { handle = handle; owns = owns } in
            IsFair l (owned this) (free_handle cloning closing this l).1 0
      unfolding free_handle close_noted
      free_handle_fields-IsFair none true l = omega arith
      free_handle_fields-IsFair none false l = omega arith
      free_handle_fields-IsFair (some h) true l = omega arith
      free_handle_fields-IsFair (some h) false l = omega arith

      -- Freeing an object's handle closes what it owned.
      pub free_handle-IsFair :
          (this : HidlHandle) (l : Ledger W)
          → IsFair l (owned this) (free_handle cloning closing this l).1 0
      free_handle-IsFair this l = free_handle_fields-IsFair this.handle this.owns l

      cloned :
          (h : NativeHandle) (l : Ledger W) (c : NativeHandle)
          → (clone h l.world).0 ≡ some c
          → (total passes (cloning h l).1.acquired
              ≡ owned (record { handle = some c; owns = true }) + total passes l.acquired)
            × (total passes (cloning h l).1.closed ≡ total passes l.closed)
      unfolding clone_noted
      cloned h l c n = (rw n refl, refl)

      cloning-clone : (h : NativeHandle) (l : Ledger W) → (cloning h l).0 ≡ (clone h l.world).0
      unfolding clone_noted
      cloning-clone h l = refl

      -- The assignment frees what `this` owns, and then the clone of what `other` has fails.
      abbrev pub FailsCopy : (this other : HidlHandle) → Ledger W → Type 0
      FailsCopy this other l =
          (h : NativeHandle) × (other.handle ≡ some h)
          × ((clone h (free_handle cloning closing this l).1.world).0 ≡ none)

      pub copy_assign-IsFair :
          (this other : HidlHandle) (l : Ledger W)
          → (FailsCopy this other l × (copy_assign cloning closing this other l ≡ fatal))
            ⊎ ((this' : HidlHandle) × (l' : Ledger W) × (copy_assign cloning closing this other l
                  ≡ done (this', l'))
                × IsFair l (owned this) l' (owned this'))
      unfolding copy_assign
      copy_assign-IsFair this other l =
          let freed = free_handle cloning closing this l in
          elim (Option-cases other.handle) [
            | inl e ↦
                inr (empty_handle, freed.1, rw (copy_assign, e) refl, free_handle-IsFair this l)
            | inr (h, e) ↦ elim (Option-cases (clone h freed.1.world).0) [
              | inl n ↦ inl ((h, e, n), rw (copy_assign, e, cloning-clone h freed.1 ∙ n) refl)
              | inr (c, n) ↦ inr (
                record { handle = some c; owns = true },
                (cloning h freed.1).1,
                rw (copy_assign, e, cloning-clone h freed.1 ∙ n) refl,
                omega (arith, free_handle-IsFair this l, cloned h freed.1 c n),
              )
            ]
          ]

      pub move_assign-IsFair :
          (this other : HidlHandle) (l : Ledger W)
          → let (this', other', l') = move_assign cloning closing this other l in
            IsFair l (owned this + owned other) l' (owned this' + owned other')
      unfolding move_assign
      move_assign-IsFair this other l = omega (arith, free_handle-IsFair this l)

      pub assign_native-IsFair :
          (this : HidlHandle) (h : Option NativeHandle) (l : Ledger W)
          → let (this', l') = assign_native cloning closing this h l in
            IsFair l (owned this) l' (owned this')
      unfolding assign_native
      assign_native-IsFair this h l = free_handle-IsFair this l

      pub set_to-IsFair :
          (this : HidlHandle) (h : Option NativeHandle) (own : Bool) (l : Ledger W)
          → let (this', l') = set_to cloning closing this h own (hand_over clone close own h l) in
            IsFair l (owned this) l' (owned this')
      unfolding set_to hand_over
      set_to-IsFair this h false l = free_handle-IsFair this l
      set_to-IsFair this none true l = free_handle-IsFair this l
      set_to-IsFair this (some h) true l =
          omega (arith, free_handle-IsFair this (record l { acquired = h ∷ l.acquired }))
