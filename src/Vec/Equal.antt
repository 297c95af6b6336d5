-- ===== src/Vec/Equal.antt =====
-- operator== against the equality of the lists.
use platform_system_libhidl.Blocks.{Heap}
use platform_system_libhidl.Vec.{HidlVec, index, equal_loop, equal}
use platform_system_libhidl.Vec.Content.{Holds, load-Stands}
use platform_system_libhidl.Prelude.{
  ==_iff, Bool-cases, length, get_elem?, length-append, get_elem?-append, done, ℕ, refl, inl, inr,
  Bool, true, false, some, List, [], append_assoc, arith, ◌==◌, ◌+◌, ◌≡◌, ◌&&◌, ◌∷◌, ◌++◌,
}

-- Lists of one length whose elements are pairwise the same.
unfoldable pub same_elements : {T : Type 0} → (T → T → Bool) → List T → List T → Bool
same_elements same [] [] = true
same_elements same [] (y ∷ ys) = false
same_elements same (x ∷ xs) [] = false
same_elements same (x ∷ xs) (y ∷ ys) = same x y && same_elements same xs ys

module _ {T : Type 0} (same : T → T → Bool) (h : Heap T) where
  same_elements-length :
      (xs ys : List T) → (length xs == length ys) ≡ false → same_elements same xs ys ≡ false
  unfolding same_elements
  same_elements-length [] [] ne = cc
  same_elements-length [] (y ∷ ys) ne = refl
  same_elements-length (x ∷ xs) [] ne = refl
  same_elements-length (x ∷ xs) (y ∷ ys) ne = ground (arith, same_elements-length xs ys)

  -- The elements behind a prefix can be read.
  abbrev Reads : HidlVec → List T → Type 0
  Reads v xs = (i : ℕ) (x : T) → get_elem? xs i ≡ some x → index v i h ≡ done (x, h)

  equal_loop-append :
      (v u : HidlVec) (pre xs pre' ys : List T)
      → length pre ≡ length pre'
      → length xs ≡ length ys
      → Reads v (pre ++ xs)
      → Reads u (pre' ++ ys)
      → equal_loop same v u (length xs) (length pre) h ≡ done (same_elements same xs ys, h)
  unfolding equal_loop same_elements
  equal_loop-append v u pre [] pre' [] lp lx rv ru = refl
  equal_loop-append v u pre [] pre' (y ∷ ys) lp lx rv ru = absurd (omega arith)
  equal_loop-append v u pre (x ∷ xs) pre' [] lp lx rv ru = absurd (omega arith)
  equal_loop-append v u pre (x ∷ xs) pre' (y ∷ ys) lp lx rv ru =
      let rest =
        equal_loop-append v u (pre ++ x ∷ []) xs (pre' ++ y ∷ []) ys
          (omega (arith, length-append pre (x ∷ []), length-append pre' (y ∷ []))) (omega arith)
          (rw (append_assoc pre (x ∷ []) xs) rv) (rw (append_assoc pre' (y ∷ []) ys) ru) in
      let at : length (pre ++ x ∷ []) ≡ length pre + 1 =
        omega (arith, length-append pre (x ∷ [])) in
      let left : index v (length pre) h ≡ done (x, h) =
        rv (length pre) x (get_elem?-append pre x xs) in
      let right : index u (length pre) h ≡ done (y, h) =
        ru (length pre) y (rw lp (get_elem?-append pre' y ys)) in
      ground (arith, rest, at, left, right)

  -- operator== of two vectors reads both, changes nothing, and returns whether they have the same
  -- length and the same elements.
  pub equal-Holds :
      (v u : HidlVec) (xs ys : List T)
      → Holds h v xs
      → Holds h u ys
      → equal same v u h ≡ done (same_elements same xs ys, h)
  unfolding equal
  equal-Holds v u xs ys hv hu = elim (Bool-cases (length xs == length ys)) [
    | inl e ↦
        let loop =
          equal_loop-append v u [] xs [] ys refl ((==_iff _ _).0 e)
            (λ i x got. unfold index in load-Stands h v.buffer i x xs hv.block got)
            (λ i y got. unfold index in load-Stands h u.buffer i y ys hu.block got) in
        ground (arith, loop, hv.size, hu.size)
    | inr ne ↦ ground (arith, hv.size, hu.size, same_elements-length xs ys ne)
  ]
