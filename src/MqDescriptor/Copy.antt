-- ===== src/MqDescriptor/Copy.antt =====
-- The copy and the end of a queue's descriptor: the file descriptors of the process.
use platform_system_libhidl.MqDescriptor.{
  NativeHandle, MqDescriptor, dup_all, copy_handle, copy_ctor, close_all, destroy,
}
use platform_system_libhidl.Prelude.{
  Bool-cases, ℤ, negsuc, eqb_ℤ, eqb_ℤ_iff, refl, inl, inr, Bool, true, false, not, Option, none,
  some, List, [], arith, if◌then◌else◌, ◌≡◌, ◌∷◌,
}

-- Whether a descriptor is one of these.
unfoldable pub has : ℤ → List ℤ → Bool
has x [] = false
has x (fd ∷ fds) = if eqb_ℤ x fd then true else has x fds

module _ {W : Type 0} (close : ℤ → W → W) (is_open : W → ℤ → Bool)
    (close_closes : (fd : ℤ) (w : W) (x : ℤ)
      → is_open (close fd w) x ≡ (if eqb_ℤ x fd then false else is_open w x)) where
  pub is_open-close_all :
      (fds : List ℤ) (w : W) (x : ℤ)
      → is_open (close_all close fds w) x ≡ (if has x fds then false else is_open w x)
  unfolding close_all has
  is_open-close_all [] w x = refl
  is_open-close_all (fd ∷ fds) w x =
      let ih = is_open-close_all fds (close fd w) x in let c = close_closes fd w x in ground arith

module _ {W : Type 0} (dup : ℤ → W → ℤ × W) (close : ℤ → W → W) (is_open : W → ℤ → Bool)
    (dup_fresh : (fd : ℤ) (w : W) → is_open w (dup fd w).0 ≡ false)
    (dup_opens : (fd : ℤ) (w : W) (x : ℤ)
      → is_open (dup fd w).1 x
        ≡ (if eqb_ℤ x (dup fd w).0 then not (eqb_ℤ x (negsuc 0)) else is_open w x))
    (close_closes : (fd : ℤ) (w : W) (x : ℤ)
      → is_open (close fd w) x ≡ (if eqb_ℤ x fd then false else is_open w x)) where
  dup_all-keeps :
      (fds : List ℤ) (w : W) (x : ℤ)
      → is_open w x ≡ true
      → (has x (dup_all dup fds w).0 ≡ false) × (is_open (dup_all dup fds w).1 x ≡ true)
  unfolding dup_all has
  dup_all-keeps [] w x o = (refl, o)
  dup_all-keeps (fd ∷ fds) w x o =
      let f = dup_fresh fd w in
      let e = dup_opens fd w x in
      let q = eqb_ℤ_iff x (dup fd w).0 in
      let r : is_open (dup fd w).1 x ≡ true = ground arith in
      let ih = dup_all-keeps fds (dup fd w).1 x r in ground arith

  dup_all-others :
      (fds : List ℤ) (w : W) (x : ℤ)
      → has x (dup_all dup fds w).0 ≡ false
      → is_open (dup_all dup fds w).1 x ≡ is_open w x
  unfolding dup_all has
  dup_all-others [] w x h = refl
  dup_all-others (fd ∷ fds) w x h =
      let e = dup_opens fd w x in let ih = dup_all-others fds (dup fd w).1 x in ground arith

  close_all-dup_all :
      (fds : List ℤ) (w : W) (x : ℤ)
      → is_open (close_all close (dup_all dup fds w).0 (dup_all dup fds w).1) x ≡ is_open w x
  close_all-dup_all fds w x =
      let c =
        is_open-close_all close is_open close_closes (dup_all dup fds w).0 (dup_all dup fds w).1
          x in
      let others = dup_all-others fds w x in
      elim (Bool-cases (is_open w x)) [
        | inl o ↦ let k = dup_all-keeps fds w x o in ground arith
        | inr o ↦ elim (Bool-cases (has x (dup_all dup fds w).0)) [
          | inl h ↦ ground arith
          | inr h ↦ let k = others h in ground arith
        ]
      ]

  handle_lem :
      (q : MqDescriptor) (h : Option NativeHandle) (w : W) (x : ℤ)
      → ((if is_open w x then is_open (copy_handle dup h w).1 x else true) ≡ true)
        × (is_open
              (destroy close
                (record q { handle = (copy_handle dup h w).0 })
                (copy_handle dup h w).1)
              x
            ≡ is_open w x)
  unfolding copy_handle destroy
  handle_lem q none w x = ground arith
  handle_lem q (some h) w x = elim (Bool-cases (is_open w x)) [
    | inl o ↦
        let k = dup_all-keeps h.fds w x o in let c = close_all-dup_all h.fds w x in ground arith
    | inr o ↦ let c = close_all-dup_all h.fds w x in ground arith
  ]

  -- Where dup returns -1 or a descriptor that was not open, and close closes one descriptor: the
  -- copy of a queue's descriptor has its grantors, quantum and flags, every descriptor that was
  -- open is open after the copy, and the end of the copy leaves open exactly what was open before
  -- the copy.
  pub destroy-copy_queue :
      (q : MqDescriptor) (w : W) (x : ℤ)
      → ((copy_ctor dup q w).0.grantors ≡ q.grantors)
        × ((copy_ctor dup q w).0.quantum ≡ q.quantum)
        × ((copy_ctor dup q w).0.flags ≡ q.flags)
        × ((if is_open w x then is_open (copy_ctor dup q w).1 x else true) ≡ true)
        × (is_open (destroy close (copy_ctor dup q w).0 (copy_ctor dup q w).1) x ≡ is_open w x)
  unfolding copy_ctor
  destroy-copy_queue q w x = let k = handle_lem q q.handle w x in (refl, refl, refl, k.0, k.1)
