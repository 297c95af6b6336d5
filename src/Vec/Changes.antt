-- ===== src/Vec/Changes.antt =====
-- Many hidl_vecs over one memory: the ways in which a statement changes a vector.
use platform_system_libhidl.Blocks.{Heap}
use platform_system_libhidl.Vec.{HidlVec, empty_vec, uint32_max}
use platform_system_libhidl.Vec.Content.{Holds}
use platform_system_libhidl.Vec.Assign.{owns_block, Copied, freed, cell-freed, IsHeap-freed}
use platform_system_libhidl.Vec.Good.{Good, Stands-kept, put-Good}
use platform_system_libhidl.Vec.Handover.{handover-Good}
use platform_system_libhidl.Prelude.{
  ==_refl, Bool-cases, is_some, length, put, put-moved, true-false, subst, ℕ, refl, sym, inl, inr,
  true, false, Option, none, some, List, [], arith, ◌==◌, ◌≤◌, ◌≡◌, ◌∙◌, ◌||◌,
}

module _ {T : Type 0} (h0 h : Heap T) (f : ℕ → HidlVec) (t : ℕ → Option (List T))
    (good : Good h0 h f t) where
  fresh_new : (p : ℕ) → h.cell p ≡ none → h0.cell p ≡ none
  fresh_new p e = elim (good.others p) [
    | inl same ↦ sym same ∙ e
    | inr (i, o) ↦ absurd (ground (arith, good.alive i p o, e))
  ]

  client_not_owned : (i p : ℕ) → is_some (h0.cell p) ≡ true → owns_block (f i) p ≡ false
  client_not_owned i p s = elim (Bool-cases (owns_block (f i) p)) [
    | inl o ↦ absurd (ground (arith, good.new i p o, s))
    | inr o ↦ o
  ]

  -- The client's blocks are as they were.
  kept : (p : ℕ) → is_some (h0.cell p) ≡ true → h.cell p ≡ h0.cell p
  kept p s = elim (good.others p) [
    | inl same ↦ same
    | inr (i, o) ↦ absurd (true-false (sym o ∙ client_not_owned i p s))
  ]

  -- A new block with the list for object `i`.
  pub Copied-Good :
      (i : ℕ) (x : List T) (w : HidlVec) (g : Heap T)
      → length x ≤ uint32_max
      → Copied h (f i) x w g
      → Good h0 g (put f i w) (put t i (some x))
  Copied-Good i x w g short c =
      put-Good h0 h f t good i w x g c.heap c.holds short
        (ground (arith, c.memory w.buffer, c.owner)) (λ p o. ground (arith, c.memory p, o))
        (λ p o. let e : h.cell p ≡ none = ground (arith, o, c.fresh) in (e, fresh_new p e))
        (λ j o. absurd (ground (arith, good.alive j w.buffer o, c.fresh, o)))
        (λ p o. ground (arith, c.memory p, o))

  -- The object's block is freed, and the object looks at the client's memory or at nothing.
  pub freed-Good :
      (i : ℕ) (x : List T) (w : HidlVec)
      → length x ≤ uint32_max
      → ((p : ℕ) → owns_block w p ≡ false)
      → Holds h0 w x
      → (w.buffer == 0 || is_some (h0.cell w.buffer)) ≡ true
      → Good h0 (freed (f i) h) (put f i w) (put t i (some x))
  freed-Good i x w short quiet holds placed =
      put-Good h0 h f t good i w x (freed (f i) h) (IsHeap-freed h (f i) good.heap)
        (record {
          size = holds.size;
          block = Stands-kept h0 (freed (f i) h) w.buffer x holds.block same;
        })
        short (ground (arith, placed, same)) (λ p o. absurd (true-false (sym o ∙ quiet p)))
        (λ p o. absurd (true-false (sym o ∙ quiet p)))
        (λ j o. absurd (ground (arith, good.new j w.buffer o, placed, o)))
        (λ p o. cell-freed h (f i) p)
    where
      same : is_some (h0.cell w.buffer) ≡ true → (freed (f i) h).cell w.buffer ≡ h0.cell w.buffer
      same s =
          ground
            (arith, cell-freed h (f i) w.buffer, client_not_owned i w.buffer s, kept w.buffer s)

  -- The move assignment from another object.
  pub moved-Good :
      (i j : ℕ)
      → (i == j) ≡ false
      → Good h0
          (freed (f i) h)
          (put (put f i (f j)) j (record (f j) { owns = false }))
          (put (put t i (t j)) j none)
  moved-Good i j two =
      let dropped : Good h0 (freed (f i) h) (put f i empty_vec) (put t i (some [])) =
        freed-Good i [] empty_vec (omega arith) (λ p. refl) (record { size = refl; block = tt })
          refl in
      let moved =
        handover-Good h0 (freed (f i) h) (put f i empty_vec) (put t i (some [])) dropped i j two
          (λ p. rw (==_refl i) refl) in
      let before = put (put f i empty_vec) i (put f i empty_vec j) in
      let from : put f i empty_vec j ≡ f j = rw two refl in
      subst
        (λ ls. Good h0 (freed (f i) h) (put (put f i (f j)) j (record (f j) { owns = false })) ls)
        (put-moved t i j (some []) none two)
        (subst
          (λ vs.
            Good h0 (freed (f i) h) vs
              (put (put (put t i (some [])) i (put t i (some []) j)) j none))
          (put-moved f i j empty_vec (record (f j) { owns = false }) two)
          (subst
            (λ (v : HidlVec).
              Good h0 (freed (f i) h) (put before j (record v { owns = false }))
                (put (put (put t i (some [])) i (put t i (some []) j)) j none))
            from moved))
