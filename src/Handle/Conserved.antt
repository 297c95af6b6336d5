-- ===== src/Handle/Conserved.antt =====
-- What a program over hidl_handles closes: each native handle that an object came to own, once.
use platform_system_libhidl.Handle.{
  HidlHandle, empty_handle, copy_assign, move_assign, assign_native, set_to, destroy,
}
use platform_system_libhidl.MqDescriptor.{NativeHandle}
use platform_system_libhidl.Handle.Pool.{
  Ledger, Pool, Op, copies, moves, assigns, sets, ends, clone_noted, close_noted, hand_over, on_one,
  on_two, perform, run, IsFailingCopy, StopsAtCopy,
}
use platform_system_libhidl.Handle.Fair
use platform_system_libhidl.Handle.Fair.{owned, IsBalanced, IsFair}
use platform_system_libhidl.Prelude.{
  Bool-cases, Option-cases, get_elem?, set, total-set, get_elem?-set_other, Run, done, fatal, ℕ,
  refl, ap, inl, inr, Bool, Option, some, List, [], arith, ◌==◌, ◌>>=◌, ◌+◌, ◌≡◌, ◌∙◌, ◌⊎◌, ◌∷◌,
}

module _ (q : NativeHandle → Bool) {W : Type 0} (clone : NativeHandle → W → Option NativeHandle × W)
    (close : NativeHandle → W → W) where
  on_one-IsBalanced :
      (f : HidlHandle → Ledger W → HidlHandle × Ledger W)
      (fair : (this : HidlHandle) (l : Ledger W)
        → IsFair q l (owned q this) (f this l).1 (owned q (f this l).0))
      (i : ℕ) (p : Pool W)
      → IsBalanced q p
      → IsBalanced q (on_one clone close i f p)
  unfolding on_one
  on_one-IsBalanced f fair i p b = elim (Option-cases (get_elem? p.objects i)) [
    | inl e ↦ rw (on_one, e) b
    | inr (this, e) ↦
        rw (on_one, e)
          (omega (
            arith,
            b,
            fair this p.ledger,
            total-set (owned q) p.objects i this (f this p.ledger).0 e,
          ))
  ]

  on_two-IsBalanced :
      (f : HidlHandle → HidlHandle → Ledger W → Run (HidlHandle × HidlHandle × Ledger W))
      (Fails : HidlHandle → HidlHandle → Ledger W → Type 0)
      (fair : (this other : HidlHandle) (l : Ledger W)
        → (Fails this other l × (f this other l ≡ fatal))
          ⊎ ((this' other' : HidlHandle) × (l' : Ledger W) × (f this other l
                ≡ done (this', other', l'))
              × IsFair q l (owned q this + owned q other) l' (owned q this' + owned q other')))
      (i j : ℕ) (p : Pool W)
      → IsBalanced q p
      → (((this other : HidlHandle) × (get_elem? p.objects i ≡ some this)
            × (get_elem? p.objects j ≡ some other)
            × Fails this other p.ledger)
          × (on_two clone close i j f p ≡ fatal))
        ⊎ ((p' : Pool W) × (on_two clone close i j f p ≡ done p') × IsBalanced q p')
  unfolding on_two
  on_two-IsBalanced f Fails fair i j p b = elim (Bool-cases (i == j)) [
    | inl same ↦ inr (p, rw (on_two, same) refl, b)
    | inr apart ↦ elim (Option-cases (get_elem? p.objects i)) [
      | inl e ↦ inr (p, rw (on_two, apart, e) refl, b)
      | inr (this, e) ↦ elim (Option-cases (get_elem? p.objects j)) [
        | inl e' ↦ inr (p, rw (on_two, apart, e, e') refl, b)
        | inr (other, e') ↦ elim (fair this other p.ledger) [
          | inl (failing, r) ↦
              inl ((this, other, e, e', failing), rw (on_two, apart, e, e', r) refl)
          | inr (this', other', l', r, fair') ↦ inr (
            record { objects = set (set p.objects i this') j other'; ledger = l' },
            rw (on_two, apart, e, e', r) refl,
            omega (
              arith,
              b,
              fair',
              total-set (owned q) p.objects i this this' e,
              total-set (owned q) (set p.objects i this') j other other'
                  (get_elem?-set_other p.objects i j this' apart ∙ e'),
            ),
          )
        ]
      ]
    ]
  ]

  perform-IsBalanced :
      (o : Op) (p : Pool W)
      → IsBalanced q p
      → (IsFailingCopy clone close o p × (perform clone close o p ≡ fatal))
        ⊎ ((p' : Pool W) × (perform clone close o p ≡ done p') × IsBalanced q p')
  unfolding perform destroy
  perform-IsBalanced (copies i j) p b =
      elim (on_two-IsBalanced
        (λ this other l.
          copy_assign (clone_noted clone close) (close_noted clone close) this other l >>= λ r.
          done (r.0, other, r.1))
        (Fair.FailsCopy q clone close)
        (λ this other l. elim (Fair.copy_assign-IsFair q clone close this other l) [
          | inl (failing, r) ↦ inl (failing, ap (λ x. x >>= λ r. done (r.0, other, r.1)) r)
          | inr (this', l', r, fair) ↦
              inr (
                this',
                other,
                l',
                ap (λ x. x >>= λ r. done (r.0, other, r.1)) r,
                omega (arith, fair),
              )
        ])
        i j p b) [
          | inl ((this, other, e, e', (h, has, n)), r) ↦
              inl ((i, j, this, other, h, refl, e, e', has, n), r)
          | inr fine ↦ inr fine
        ]
  perform-IsBalanced (moves i j) p b =
      elim (on_two-IsBalanced
        (λ this other l.
          done (move_assign (clone_noted clone close) (close_noted clone close) this other l))
        (λ this other l. ⊥)
        (λ this other l. inr (_, _, _, refl, Fair.move_assign-IsFair q clone close this other l)) i
        j p b) [ inl ((this, other, e, e', never), r) ↦ absurd never | inr fine ↦ inr fine ]
  perform-IsBalanced (assigns i h) p b = inr (
    _,
    refl,
    on_one-IsBalanced
        (λ this l. assign_native (clone_noted clone close) (close_noted clone close) this h l)
        (λ this l. Fair.assign_native-IsFair q clone close this h l) i p b,
  )
  perform-IsBalanced (sets i h own) p b = inr (
    _,
    refl,
    on_one-IsBalanced
        (λ this l.
          set_to (clone_noted clone close) (close_noted clone close) this h own
            (hand_over clone close own h l))
        (λ this l. Fair.set_to-IsFair q clone close this h own l) i p b,
  )
  perform-IsBalanced (ends i) p b = inr (
    _,
    refl,
    on_one-IsBalanced
        (λ this l.
          (empty_handle, destroy (clone_noted clone close) (close_noted clone close) this l))
        (λ this l. Fair.free_handle-IsFair q clone close this l) i p b,
  )

  -- A program over objects that balance the ledger either aborts, at a statement that copies another
  -- object's native handle and whose clone fails in the state that the statements before it leave,
  -- once the object assigned to has freed its own; or it runs to its end with a balanced ledger: of
  -- the native handles that pass a test, as many came to be owned, by a clone or by setTo, as were
  -- closed or are still owned.
  pub run-IsBalanced :
      (os : List Op) (p : Pool W)
      → IsBalanced q p
      → (StopsAtCopy clone close os p × (run clone close os p ≡ fatal))
        ⊎ ((p' : Pool W) × (run clone close os p ≡ done p') × IsBalanced q p')
  unfolding run
  run-IsBalanced [] p b = inr (p, refl, b)
  run-IsBalanced (o ∷ os) p b = elim (perform-IsBalanced o p b) [
    | inl (failing, r) ↦ inl (([], os, o, p, refl, refl, failing), rw (run, r) refl)
    | inr (p', r, b') ↦ elim (run-IsBalanced os p' b') [
      | inl ((before, after, a, p'', e, reached, failing), r') ↦ inl (
        (o ∷ before, after, a, p'', ap (λ l. o ∷ l) e, rw (run, r) reached, failing),
        rw (run, r) r',
      )
      | inr (q', r', c) ↦ inr (q', rw (run, r) r', c)
    ]
  ]
