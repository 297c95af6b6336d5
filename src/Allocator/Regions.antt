-- ===== src/Allocator/Regions.antt =====
-- The file descriptors of shared memory regions.
use platform_system_libhidl.MqDescriptor.{close_all}
use platform_system_libhidl.MqDescriptor.Copy.{has, is_open-close_all}
use platform_system_libhidl.Allocator.{
  HidlMemory, no_memory, memory_of, allocate_one, cleanup, allocate, allocate_loop, cleanup_loop,
  batch_allocate,
}
use platform_system_libhidl.Vec.{uint32_max}
use platform_system_libhidl.Prelude.{
  ltb, Bool-cases, length, ℤ, pos, ltb_ℤ, eqb_ℤ, eqb_ℤ_iff, ℕ, zero, suc, refl, sym, inl, inr, Bool,
  true, false, none, some, List, [], arith, if◌then◌else◌, ◌≡◌, ◌∙◌, ◌∷◌,
}

-- The descriptors of a memory, and of several.
abbrev pub fds_of : HidlMemory → List ℤ
fds_of memory = elim memory.handle [ none ↦ [] | some h ↦ h.fds ]

module _ {W : Type 0} (ashmem_create_region : ℕ → W → ℤ × W) (close : ℤ → W → W)
    (callback : Bool → List HidlMemory → W → W) (is_open : W → ℤ → Bool)
    (create_fresh : (size : ℕ) (w : W) → is_open w (ashmem_create_region size w).0 ≡ false)
    (create_opens : (size : ℕ) (w : W) (x : ℤ)
      → is_open (ashmem_create_region size w).1 x ≡ (
          if ltb_ℤ (ashmem_create_region size w).0 (pos 0)
          then is_open w x
          else if eqb_ℤ x (ashmem_create_region size w).0
          then true
          else is_open w x))
    (close_closes : (fd : ℤ) (w : W) (x : ℤ)
      → is_open (close fd w) x ≡ (if eqb_ℤ x fd then false else is_open w x))
    (callback_keeps : (success : Bool) (batch : List HidlMemory) (w : W) (x : ℤ)
      → is_open (callback success batch w) x ≡ is_open w x) where
  abbrev pub one : ℕ → W → HidlMemory × W
  one = allocate_one ashmem_create_region close callback

  is_open-cleanup :
      (memory : HidlMemory) (w : W) (x : ℤ)
      → is_open (cleanup ashmem_create_region close callback memory w) x
        ≡ (if has x (fds_of memory) then false else is_open w x)
  unfolding cleanup has
  is_open-cleanup memory w x =
      elim memory.handle
        as (λ h.
          is_open (elim h [ none ↦ w | some h' ↦ close_all close h'.fds w ]) x
          ≡ (if has x (elim h [ none ↦ [] | some h' ↦ h'.fds ]) then false else is_open w x)) [
            | none ↦ refl
            | some h ↦ is_open-close_all close is_open close_closes h.fds w x
          ]

  -- Cleaning up opens nothing.
  closed-cleanup_loop :
      (batch : List HidlMemory) (v : W) (x : ℤ)
      → is_open v x ≡ false
      → is_open (cleanup_loop ashmem_create_region close callback batch v) x ≡ false
  unfolding cleanup_loop
  closed-cleanup_loop [] v x closed = closed
  closed-cleanup_loop (memory ∷ rest) v x closed =
      let c = is_open-cleanup memory v x in
      closed-cleanup_loop rest (cleanup ashmem_create_region close callback memory v) x
        (ground arith)

  allocate_loop-zero :
      (size : ℕ) (w : W) → allocate_loop ashmem_create_region close callback size 0 w ≡ ([], w)
  unfolding allocate_loop
  allocate_loop-zero size w = refl

  allocate_one-made :
      (size : ℕ) (w : W)
      → ltb_ℤ (ashmem_create_region size w).0 (pos 0) ≡ false
      → allocate_one ashmem_create_region close callback size w
        ≡ (memory_of size (ashmem_create_region size w).0, (ashmem_create_region size w).1)
  unfolding allocate_one
  allocate_one-made size w made = rw made

  allocate_one-failed :
      (size : ℕ) (w : W)
      → ltb_ℤ (ashmem_create_region size w).0 (pos 0) ≡ true
      → allocate_one ashmem_create_region close callback size w
        ≡ (no_memory, (ashmem_create_region size w).1)
  unfolding allocate_one
  allocate_one-failed size w failed = rw failed

  allocate_loop-failed :
      (size k : ℕ) (w : W)
      → ltb_ℤ (ashmem_create_region size w).0 (pos 0) ≡ true
      → allocate_loop ashmem_create_region close callback size (suc k) w
        ≡ ([], (ashmem_create_region size w).1)
  unfolding allocate_loop
  allocate_loop-failed size k w failed =
      rw (allocate_loop, allocate_one-failed size w failed, allocate_one-failed size w failed)

  allocate_loop-made :
      (size k : ℕ) (w : W)
      → ltb_ℤ (ashmem_create_region size w).0 (pos 0) ≡ false
      → allocate_loop ashmem_create_region close callback size (suc k) w ≡ (
        memory_of size (ashmem_create_region size w).0
            ∷ (allocate_loop ashmem_create_region close callback size k
                (ashmem_create_region size w).1).0,
        (allocate_loop ashmem_create_region close callback size k
            (ashmem_create_region size w).1).1,
      )
  unfolding allocate_loop
  allocate_loop-made size k w made =
      rw (allocate_loop, allocate_one-made size w made, allocate_one-made size w made)

  is_open-cleanup_loop :
      (size : ℕ) (k : ℕ) (w v : W) (x : ℤ)
      → is_open v x ≡ is_open (allocate_loop ashmem_create_region close callback size k w).1 x
      → is_open
          (cleanup_loop ashmem_create_region close callback
            (allocate_loop ashmem_create_region close callback size k w).0
            v)
          x
        ≡ is_open w x
  unfolding cleanup_loop has
  is_open-cleanup_loop size zero w v x same =
      let e = allocate_loop-zero size w in rw e (rw e at same)
  is_open-cleanup_loop size (suc k) w v x same =
      let opens = create_opens size w x in
      let fresh = create_fresh size w in
      elim (Bool-cases (ltb_ℤ (ashmem_create_region size w).0 (pos 0))) [
        | inl failed ↦
            let e = allocate_loop-failed size k w failed in rw e (rw e at same ∙ opens ∙ rw failed)
        | inr made ↦
            let e = allocate_loop-made size k w made in
            let (fd, w') = ashmem_create_region size w in
            let memory = memory_of size fd in
            let c = is_open-cleanup memory v x in
            let v' = cleanup ashmem_create_region close callback memory v in
            let rest = (allocate_loop ashmem_create_region close callback size k w').0 in
            elim (Bool-cases (eqb_ℤ x fd)) [
              | inl is ↦
                  let x_fd = (eqb_ℤ_iff x fd).0 is in
                  let closed : is_open v' x ≡ false = c ∙ rw is in
                  rw e (closed-cleanup_loop rest v' x closed ∙ sym (rw x_fd fresh))
              | inr other ↦
                  let kept : is_open v' x ≡ is_open v x = c ∙ rw other in
                  let opened : is_open w' x ≡ is_open w x = opens ∙ rw (made, other) in
                  rw e (is_open-cleanup_loop size k w' v' x (kept ∙ rw e at same) ∙ opened)
            ]
      ]

  -- Where ashmem_create_region opens the region it returns, which is not open before, or fails,
  -- and the client's callback leaves the descriptors as they are: after allocate and after
  -- batchAllocate, whatever failed on the way, exactly the descriptors are open that were before.
  pub batch_allocate-keeps :
      (size count : ℕ) (w : W) (x : ℤ)
      → (is_open (allocate ashmem_create_region close callback size w) x ≡ is_open w x)
        × (is_open (batch_allocate ashmem_create_region close callback size count w) x
            ≡ is_open w x)
  unfolding allocate allocate_one batch_allocate has
  batch_allocate-keeps size count w x = (
    let (fd, w') = ashmem_create_region size w in
        let opens = create_opens size w x in
        elim (Bool-cases (ltb_ℤ fd (pos 0))) [
          | inl failed ↦
              rw (failed, allocate) (callback_keeps false (no_memory ∷ []) w' x ∙ opens ∙ rw failed)
          | inr made ↦
              let memory = memory_of size fd in
              let c = is_open-cleanup memory (callback true (memory ∷ []) w') x in
              rw (made, allocate)
                (c ∙ elim (Bool-cases (eqb_ℤ x fd)) [
                  | inl is ↦ rw is (sym (rw ((eqb_ℤ_iff x fd).0 is) (create_fresh size w)))
                  | inr other ↦
                      rw other (callback_keeps true (memory ∷ []) w' x ∙ opens ∙ rw (made, other))
                ])
        ],
    elim (Bool-cases (ltb uint32_max count)) [
      | inl big ↦ rw big (callback_keeps false [] w x)
      | inr fits ↦
          let (batch, w') = allocate_loop ashmem_create_region close callback size count w in
          elim (Bool-cases (ltb (length batch) count)) [
            | inl short ↦
                rw (fits, short)
                  (is_open-cleanup_loop size count w (callback false [] w') x
                    (callback_keeps false [] w' x))
            | inr full ↦
                rw (fits, full)
                  (is_open-cleanup_loop size count w (callback true batch w') x
                    (callback_keeps true batch w' x))
          ]
    ],
  )
