-- ===== src/Handle/Pool.antt =====
-- base/HidlSupport.cpp: a program over any number of `hidl_handle` objects, which copies, moves and
-- assigns them in any order. `native_handle_clone` and the closing of a handle are parameters over a
-- world `W`, and a ledger beside the world lists what was acquired and what was closed.
use platform_system_libhidl.Handle.{
  HidlHandle, empty_handle, free_handle, copy_assign, move_assign, assign_native, set_to, destroy,
}
use platform_system_libhidl.MqDescriptor.{NativeHandle}
use platform_system_libhidl.Prelude.{
  get_elem?, set, Run, done, ℕ, Bool, Option, none, some, List, [], ◌==◌, if◌then◌else◌, ◌>>=◌, ◌≡◌,
  ◌∷◌, ◌++◌,
}

-- The native handles that an object came to own, and those that were closed, newest first.
pub record Ledger (W : Type 0) : Type 0 where
  pub world : W
  pub acquired : List NativeHandle
  pub closed : List NativeHandle

pub record Pool (W : Type 0) : Type 0 where
  pub objects : List HidlHandle
  pub ledger : Ledger W

-- A statement of the program; objects are numbered. `ends` destroys an object, and a new empty one
-- takes its number.
pub data Op : Type 0 where
  copies moves : (this other : ℕ) → Op
  assigns : (this : ℕ) → Option NativeHandle → Op
  sets : (this : ℕ) → Option NativeHandle → (should_own : Bool) → Op
  ends : (this : ℕ) → Op

module _ {W : Type 0} (clone : NativeHandle → W → Option NativeHandle × W)
    (close : NativeHandle → W → W) where
  enter : Option NativeHandle → List NativeHandle → List NativeHandle
  enter none hs = hs
  enter (some h) hs = h ∷ hs

  -- The two system calls, with their entries in the ledger.
  unfoldable pub clone_noted : NativeHandle → Ledger W → Option NativeHandle × Ledger W
  unfolding enter
  clone_noted h l =
      let (c, w) = clone h l.world in (c, record l { world = w; acquired = enter c l.acquired })

  unfoldable pub close_noted : NativeHandle → Ledger W → Ledger W
  close_noted h l = record l { world = close h l.world; closed = h ∷ l.closed }

  -- setTo hands a native handle over to the object.
  unfoldable pub hand_over : Bool → Option NativeHandle → Ledger W → Ledger W
  unfolding enter
  hand_over should_own h l = if should_own then record l { acquired = enter h l.acquired } else l

  -- A method of object `i` alone.
  unfoldable pub on_one : ℕ → (HidlHandle → Ledger W → HidlHandle × Ledger W) → Pool W → Pool W
  on_one i f p = elim (get_elem? p.objects i) [
    | none ↦ p
    | some this ↦
        let (this', l) = f this p.ledger in record { objects = set p.objects i this'; ledger = l }
  ]

  -- A method of object `i` with the other object `j`; an object with itself is left as it is.
  unfoldable pub on_two :
      ℕ
      → ℕ
      → (HidlHandle → HidlHandle → Ledger W → Run (HidlHandle × HidlHandle × Ledger W))
      → Pool W
      → Run (Pool W)
  on_two i j f p = if i == j then done p else elim (get_elem? p.objects i) [
    | none ↦ done p
    | some this ↦ elim (get_elem? p.objects j) [
      | none ↦ done p
      | some other ↦ f this other p.ledger >>= λ r.
          done (record { objects = set (set p.objects i r.0) j r.1; ledger = r.2 })
    ]
  ]

  unfoldable pub perform : Op → Pool W → Run (Pool W)
  unfolding on_one on_two copy_assign move_assign assign_native set_to destroy hand_over
  perform (copies i j) p =
      on_two i j
        (λ this other l.
          copy_assign clone_noted close_noted this other l >>= λ r. done (r.0, other, r.1))
        p
  perform (moves i j) p =
      on_two i j (λ this other l. done (move_assign clone_noted close_noted this other l)) p
  perform (assigns i h) p =
      done (on_one i (λ this l. assign_native clone_noted close_noted this h l) p)
  perform (sets i h should_own) p = done (
      on_one i
        (λ this l. set_to clone_noted close_noted this h should_own (hand_over should_own h l)) p)
  perform (ends i) p =
      done (on_one i (λ this l. (empty_handle, destroy clone_noted close_noted this l)) p)

  -- A program runs until its end or until it aborts.
  unfoldable pub run : List Op → Pool W → Run (Pool W)
  unfolding perform
  run [] p = done p
  run (o ∷ os) p = perform o p >>= run os

  -- The statement copies another object that has a native handle, and the clone of that fails, once
  -- the object that is assigned to has freed its own.
  abbrev pub IsFailingCopy : Op → Pool W → Type 0
  IsFailingCopy o p =
      (i j : ℕ) × (this other : HidlHandle) × (h : NativeHandle) × (o ≡ copies i j)
      × (get_elem? p.objects i ≡ some this)
      × (get_elem? p.objects j ≡ some other)
      × (other.handle ≡ some h)
      × ((clone h (free_handle clone_noted close_noted this p.ledger).1.world).0 ≡ none)

  -- The program stops at a statement that copies another object's handle, whose clone fails when
  -- it is reached.
  abbrev pub StopsAtCopy : List Op → Pool W → Type 0
  StopsAtCopy os p =
      (before after : List Op) × (o : Op) × (p' : Pool W) × (os ≡ before ++ o ∷ after)
      × (run before p ≡ done p')
      × IsFailingCopy o p'
