-- ===== src/Strings/Refines.antt =====
-- Programs over hidl_strings do to the memory what their meaning does to the texts.
use platform_system_libhidl.Blocks.{Heap}
use platform_system_libhidl.Vec.{uint32_max}
use platform_system_libhidl.Vec.Content.{IsHeap}
use platform_system_libhidl.Strings.{HidlString, hidl_string, empty_string, clear, set_to_external}
use platform_system_libhidl.Strings.Assign.{
  Holds, Copied, owns_block, freed, cell-freed, IsHeap-freed, clear-freed, assign_string-Copied,
  copy_assign-Holds, move_assign-empty,
}
use platform_system_libhidl.Strings.Pool.{
  Op, assigns, copies, moves, externals, clears, Pool, start, on_one, perform, run, meaning,
  meanings, IsValid, AllValid,
}
use platform_system_libhidl.Strings.Good.{IsClient, Good, kept, owned_some, can_free, put-Good}
use platform_system_libhidl.Strings.Moved.{move-Good}
use platform_system_libhidl.Prelude.{
  ==_refl, Bool-cases, length, put, put-moved, none-some, true-false, done, subst, Bytes, ℕ, refl,
  sym, inl, inr, false, not, none, some, List, [], arith, ◌==◌, ◌≤◌, ◌≡◌, ◌∙◌, ◌&&◌, ◌∷◌, ◌++◌,
}

module _ (k init : ℕ) (h0 : Heap ℕ) (client : IsClient k h0) (h : Heap ℕ) (f : ℕ → HidlString)
    (t : ℕ → Bytes) (good : Good k h0 h f t) where
  fresh_new : (p : ℕ) → h.cell p ≡ none → h0.cell p ≡ none
  fresh_new p e = elim (good.others p) [
    | inl same ↦ sym same ∙ e
    | inr (i, o) ↦ absurd (ground (arith, owned_some k h0 client h f t good i p o, e))
  ]

  client_not_owned : (i q : ℕ) (b : Bytes) → h0.cell q ≡ some b → owns_block k (f i) q ≡ false
  client_not_owned i q b e = elim (Bool-cases (owns_block k (f i) q)) [
    | inl o ↦ absurd (none-some (sym (good.new i q o).0 ∙ e))
    | inr o ↦ o
  ]

  not_zero : (i p : ℕ) → (owns_block k (f i) p && not (p == 0)) ≡ owns_block k (f i) p
  not_zero i p = elim (Bool-cases (owns_block k (f i) p)) [
    | inl o ↦ rw (o, (good.new i p o).1) refl
    | inr o ↦ rw o refl
  ]

  -- A new block with the text for object `i`.
  Copied-Good :
      (i : ℕ) (x : Bytes) (w : HidlString) (g : Heap ℕ)
      → length x ≤ uint32_max
      → Copied k h (f i) x w g
      → Holds g w x
      → Good k h0 g (put f i w) (put t i x)
  Copied-Good i x w g short c holds =
      put-Good k h0 client h f t good i w x g c.heap holds short
        (λ p o.
          let e : h.cell p ≡ none = ground (arith, o, c.fresh) in
          (e, (fresh_new p e, ground (arith, c.valid, o))))
        (λ j o. absurd (ground (arith, owned_some k h0 client h f t good j w.buffer o, c.fresh)))
        (λ p o. ground (
          arith,
          c.memory p,
          c.fresh,
          c.owner,
          kept k h0 client h f t good k _ client.static,
          not_zero i p,
        ))

  external-Good :
      (i q : ℕ) (x rest : Bytes)
      → length x ≤ uint32_max
      → h0.cell q ≡ some (x ++ 0 ∷ rest)
      → Good k h0 (freed k (f i) h) (put f i (hidl_string q (length x) false)) (put t i x)
  external-Good i q x rest short e =
      put-Good k h0 client h f t good i (hidl_string q (length x) false) x (freed k (f i) h)
        (IsHeap-freed k init h (f i) good.heap)
        (record {
          size = refl;
          rest = rest;
          block = ground (
            arith,
            cell-freed k h (f i) q,
            client_not_owned i q _ e,
            kept k h0 client h f t good q _ e,
          );
        })
        short (λ p o. absurd (true-false (sym o)))
        (λ j o. absurd (true-false (sym o ∙ client_not_owned j q _ e)))
        (λ p o. ground (arith, cell-freed k h (f i) p, not_zero i p))

  clear-Good : (i : ℕ) → Good k h0 (freed k (f i) h) (put f i (empty_string k)) (put t i [])
  clear-Good i = external-Good i k [] [] (omega arith) client.static

  move_lem :
      (i j : ℕ)
      → (i == j) ≡ false
      → Good k h0
          (freed k (f i) h)
          (put (put f i (f j)) j (empty_string k))
          (put (put t i (t j)) j [])
  move_lem i j two =
      let moved =
        move-Good k h0 client (freed k (f i) h) (put f i (empty_string k)) (put t i [])
          (clear-Good i) i j two (λ p. rw (==_refl i) refl) in
      subst (λ x. Good k h0 (freed k (f i) h) (put (put f i (f j)) j (empty_string k)) x)
        (put-moved t i j [] [] two)
        (subst (λ y. Good k h0 (freed k (f i) h) y (put (put (put t i []) i (put t i [] j)) j []))
          (put-moved f i j (empty_string k) (empty_string k) two) moved)

  abbrev pool : Pool
  pool = record { objects = f; heap = h }

  -- One statement.
  pub perform-Good :
      (o : Op)
      → IsValid h0 o
      → (g : Heap ℕ) × (f' : ℕ → HidlString) × (perform k init o pool
          ≡ done (record { objects = f'; heap = g }))
        × Good k h0 g f' (meaning o t)
  unfolding perform on_one IsValid meaning clear set_to_external
  perform-Good (assigns i x) short =
      let (w, g, r, c, holds) =
        assign_string-Copied k init h (f i) x good.heap (can_free k h0 client h f t good i) short in
      (g, put f i w, rw r refl, Copied-Good i x w g short c holds)
  perform-Good (copies i j) v = elim (Bool-cases (i == j)) [
    | inl same ↦ (h, f, rw (perform, same) refl, rw same good)
    | inr two ↦
        let (w, g, r, c, holds, old) =
          copy_assign-Holds k init h (f i) (f j) (t j) good.heap (can_free k h0 client h f t good i)
            (good.short j) (good.holds j) (good.apart i j two) in
        (g, put f i w, rw (two, r) refl, rw two (Copied-Good i (t j) w g (good.short j) c holds))
  ]
  perform-Good (moves i j) v = elim (Bool-cases (i == j)) [
    | inl same ↦ (h, f, rw (perform, same) refl, rw same good)
    | inr two ↦
        let (r, old) =
          move_assign-empty k h (f i) (f j) (t j) (can_free k h0 client h f t good i) (good.holds j)
            (good.apart i j two) in
        (
          freed k (f i) h,
          put (put f i (f j)) j (empty_string k),
          rw (two, r) refl,
          rw two (move_lem i j two),
        )
  ]
  perform-Good (externals i q x) (short, (rest, e)) = (
    freed k (f i) h,
    put f i (hidl_string q (length x) false),
    ground (arith, short, clear-freed k h (f i) (can_free k h0 client h f t good i)),
    external-Good i q x rest short e,
  )
  perform-Good (clears i) v = (
    freed k (f i) h,
    put f i (empty_string k),
    rw (clear-freed k h (f i) (can_free k h0 client h f t good i)) refl,
    clear-Good i,
  )

module _ (k init : ℕ) (h0 : Heap ℕ) (client : IsClient k h0) where
  run_from :
      (os : List Op) (h : Heap ℕ) (f : ℕ → HidlString) (t : ℕ → Bytes)
      → Good k h0 h f t
      → AllValid h0 os
      → (g : Heap ℕ) × (f' : ℕ → HidlString) × (run k init os (record { objects = f; heap = h })
          ≡ done (record { objects = f'; heap = g }))
        × Good k h0 g f' (meanings os t)
  unfolding run AllValid meanings
  run_from [] h f t good valid = (h, f, refl, good)
  run_from (o ∷ os) h f t good (v, valid) =
      let (g, f', r, good') = perform-Good k init h0 client h f t good o v in
      let (g', f'', r', good'') = run_from os g f' (meaning o t) good' valid in
      (g', f'', rw (run, r) r', good'')

  Good-start : IsHeap h0 → Good k h0 h0 (λ i. empty_string k) (λ i. [])
  Good-start is = record {
    heap = is;
    holds = λ i. record { size = refl; rest = []; block = client.static };
    short = λ i. omega arith;
    new = λ i p o. absurd (true-false (sym o));
    apart = λ i j d. refl;
    others = λ p. inl refl;
  }

  -- A program of assignments, moves, setToExternal and clear over any number of strings, all empty
  -- at first, whose texts have at most UINT32_MAX bytes, runs to its end, and every string then
  -- stands for the text that the program's meaning gives it. No block is owned by one string and
  -- looked at by another, and every other block is as in the memory of the client.
  pub run_strings-Good :
      (os : List Op)
      → IsHeap h0
      → AllValid h0 os
      → (g : Heap ℕ) × (f : ℕ → HidlString) × (run k init os (start k h0)
          ≡ done (record { objects = f; heap = g }))
        × Good k h0 g f (meanings os (λ i. []))
  run_strings-Good os is valid =
      run_from os h0 (λ i. empty_string k) (λ i. []) (Good-start is) valid
