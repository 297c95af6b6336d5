-- ===== src/Vec/Refines.antt =====
-- Programs over hidl_vecs do to the memory what their meaning does to the lists.
use platform_system_libhidl.Blocks.{Heap}
use platform_system_libhidl.Vec.{HidlVec, hidl_vec, empty_vec, uint32_max, set_to_external, destroy}
use platform_system_libhidl.Vec.Content.{IsHeap, Holds}
use platform_system_libhidl.Vec.Assign.{
  freed, free_buffer-freed, assign_vector-Copied, copy_assign-Copied,
}
use platform_system_libhidl.Vec.Resize.{resized, length-resized, resize-Copied}
use platform_system_libhidl.Vec.Moves.{move_assign-Holds}
use platform_system_libhidl.Vec.Pool.{
  Op, assigns, copies, moves, resizes, externals, ends, Pool, start, on_one, perform, run, meaning,
  meanings, IsValid, AllValid,
}
use platform_system_libhidl.Vec.Good.{Good, can_free}
use platform_system_libhidl.Vec.Changes.{Copied-Good, freed-Good, moved-Good}
use platform_system_libhidl.Prelude.{
  Bool-cases, Option-cases, length, put, true-false, some_inj, done, subst, ℕ, refl, sym, inl, inr,
  false, Option, some, List, [], arith, ◌==◌, ◌≤◌, ◌≡◌, ◌∷◌,
}

module _ {T : Type 0} (init : T) (h0 h : Heap T) (f : ℕ → HidlVec) (t : ℕ → Option (List T))
    (good : Good h0 h f t) where
  abbrev pool : Pool T
  pool = record { objects = f; heap = h }

  -- One statement.
  pub perform-Good :
      (o : Op T)
      → IsValid h0 t o
      → (g : Heap T) × (f' : ℕ → HidlVec) × (perform init o pool
          ≡ done (record { objects = f'; heap = g }))
        × Good h0 g f' (meaning init o t)
  unfolding perform on_one IsValid meaning set_to_external destroy
  perform-Good (assigns i xs) short =
      let (w, g, r, c) =
        assign_vector-Copied init h (f i) good.heap (can_free h0 h f t good i) xs short in
      (g, put f i w, rw r refl, Copied-Good h0 h f t good i xs w g short c)
  perform-Good (copies i j) s = elim (Bool-cases (i == j)) [
    | inl same ↦ (h, f, rw (perform, same) refl, rw same good)
    | inr two ↦ elim (Option-cases (t j)) [
      | inl n ↦ absurd (ground (arith, s, n))
      | inr (xs, e) ↦
          let (w, g, r, c, old) =
            copy_assign-Copied init h (f i) good.heap (can_free h0 h f t good i) (f j) xs
              (good.short j xs e) (good.holds j xs e) (good.apart i j xs two e) in
          (
            g,
            put f i w,
            rw (two, r) refl,
            rw (two, e) (Copied-Good h0 h f t good i xs w g (good.short j xs e) c),
          )
    ]
  ]
  perform-Good (moves i j) (two, s) = elim (Option-cases (t j)) [
    | inl n ↦ absurd (ground (arith, s, n))
    | inr (xs, e) ↦
        let (r, old, left) =
          move_assign-Holds h (f i) (can_free h0 h f t good i) (f j) xs (good.holds j xs e)
            (good.apart i j xs two e) in
        (
          freed (f i) h,
          put (put f i (f j)) j (record (f j) { owns = false }),
          rw (two, r) refl,
          moved-Good h0 h f t good i j two,
        )
  ]
  perform-Good (resizes i n) (short, s) = elim (Option-cases (t i)) [
    | inl e ↦ absurd (ground (arith, s, e))
    | inr (xs, e) ↦
        let (w, g, r, c) =
          resize-Copied init h (f i) good.heap (can_free h0 h f t good i) n xs short
            (good.holds i xs e) in
        (
          g,
          put f i w,
          rw r refl,
          rw e (
              Copied-Good h0 h f t good i (resized init n xs) w g
                (rw (length-resized init n xs) short) c),
        )
  ]
  perform-Good (externals i q xs) (short, (stands, placed)) = (
    freed (f i) h,
    put f i (hidl_vec q (length xs) false),
    ground (arith, short, free_buffer-freed h (f i) (can_free h0 h f t good i)),
    freed-Good h0 h f t good i xs (hidl_vec q (length xs) false) short (λ p. refl)
        (record { size = refl; block = stands }) placed,
  )
  perform-Good (ends i) v = (
    freed (f i) h,
    put f i empty_vec,
    rw (free_buffer-freed h (f i) (can_free h0 h f t good i)) refl,
    freed-Good h0 h f t good i [] empty_vec (omega arith) (λ p. refl)
        (record { size = refl; block = tt }) refl,
  )

module _ {T : Type 0} (init : T) (h0 : Heap T) where
  run_from :
      (os : List (Op T)) (h : Heap T) (f : ℕ → HidlVec) (t : ℕ → Option (List T))
      → Good h0 h f t
      → AllValid init h0 t os
      → (g : Heap T) × (f' : ℕ → HidlVec) × (run init os (record { objects = f; heap = h })
          ≡ done (record { objects = f'; heap = g }))
        × Good h0 g f' (meanings init os t)
  unfolding run AllValid meanings
  run_from [] h f t good valid = (h, f, refl, good)
  run_from (o ∷ os) h f t good (v, valid) =
      let (g, f', r, good') = perform-Good init h0 h f t good o v in
      let (g', f'', r', good'') = run_from os g f' (meaning init o t) good' valid in
      (g', f'', rw (run, r) r', good'')

  Good-start : IsHeap h0 → Good h0 h0 (λ i. empty_vec) (λ i. some [])
  Good-start is = record {
    heap = is;
    holds = λ i xs e.
        subst (λ ys. Holds h0 empty_vec ys) (some_inj e) (record { size = refl; block = tt });
    short = λ i xs e. subst (λ ys. length ys ≤ uint32_max) (some_inj e) (omega arith);
    placed = λ i xs e. refl;
    idle = λ i p e. refl;
    alive = λ i p o. absurd (true-false (sym o));
    new = λ i p o. absurd (true-false (sym o));
    apart = λ i j xs d e. refl;
    others = λ p. inl refl;
  }

  -- A program of assignments, moves, resizes, setToExternal and ends over any number of vectors, all
  -- empty at first, that reads no vector after it was moved from, moves none to itself and has sizes
  -- of 32 bits, runs to its end, and every vector that was not moved from then stands for the list
  -- that the program's meaning gives it. Each block is in the memory of the client, as it was, or
  -- is owned by a vector; no other vector that stands for a list looks at it then.
  pub run_vectors-Good :
      (os : List (Op T))
      → IsHeap h0
      → AllValid init h0 (λ i. some []) os
      → (g : Heap T) × (f : ℕ → HidlVec) × (run init os (start h0)
          ≡ done (record { objects = f; heap = g }))
        × Good h0 g f (meanings init os (λ i. some []))
  run_vectors-Good os is valid =
      run_from os h0 (λ i. empty_vec) (λ i. some []) (Good-start is) valid
