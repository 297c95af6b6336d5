-- ===== src/Array/Flat.antt =====
-- The copy from a pointer, and operator==: loops over the flat buffer.
use platform_system_libhidl.Array.{product, source_loop, of_source, equal_loop, equal}
use platform_system_libhidl.Prelude.Eq.{Eq}
use platform_system_libhidl.Prelude.{
  Bool-cases, length, get_elem?, length-append, get_elem?-append, set-append, eq_nil_of_length, ℕ,
  refl, sym, ap, inl, inr, Bool, true, false, not, some, List, [], append_assoc, arith,
  if◌then◌else◌, ◌+◌, ◌≡◌, ◌∙◌, ◌↔◌, ◌∷◌, ◌++◌,
}

module _ {T : Type 0} where
  snoc : (xs : List T) (y : T) (ys : List T) → xs ++ y ∷ ys ≡ xs ++ y ∷ [] ++ ys
  snoc xs y ys = sym (append_assoc xs (y ∷ []) ys)

  length-snoc : (xs : List T) (y : T) → length (xs ++ y ∷ []) ≡ length xs + 1
  length-snoc xs y = length-append xs (y ∷ [])

  source_loop_lem :
      (copied source rest old : List T)
      → length old ≡ length source
      → source_loop (copied ++ (source ++ rest)) (length copied) (length source) (copied ++ old)
        ≡ some (copied ++ source)
  unfolding source_loop
  source_loop_lem copied [] rest old e = rw (eq_nil_of_length old e) refl
  source_loop_lem copied (x ∷ xs) rest [] e = absurd (omega (arith, e))
  source_loop_lem copied (x ∷ xs) rest (y ∷ ys) e =
      let next = source_loop_lem (copied ++ x ∷ []) xs rest ys (omega (arith, e)) in
      rw (source_loop, get_elem?-append copied x (xs ++ rest), set-append copied y x ys)
        (ap (λ k. source_loop (copied ++ x ∷ (xs ++ rest)) k (length xs) (copied ++ x ∷ ys))
            (sym (length-snoc copied x))
          ∙ ap (λ s. source_loop s (length (copied ++ x ∷ [])) (length xs) (copied ++ x ∷ ys))
              (snoc copied x (xs ++ rest))
          ∙ ap
              (source_loop (copied ++ x ∷ [] ++ (xs ++ rest)) (length (copied ++ x ∷ []))
                (length xs))
              (snoc copied x ys)
          ∙ next
          ∙ ap some (sym (snoc copied x xs)))

  -- hidl_array(const T *) copies as many elements as the sizes multiply to, and no more, from a
  -- source that has at least these.
  pub of_source_lem :
      (sizes : List ℕ) (source rest buffer : List T)
      → length source ≡ product sizes
      → length buffer ≡ product sizes
      → of_source sizes (source ++ rest) buffer ≡ some source
  unfolding of_source
  of_source_lem sizes source rest buffer e f =
      rw (sym e) (source_loop_lem [] source rest buffer (f ∙ sym e))

module _ {T : Type 0} ⦃e : Eq T⦄ where
  abbrev same : List T → List T → Bool
  same [] [] = true
  same [] (y ∷ ys) = false
  same (x ∷ xs) [] = false
  same (x ∷ xs) (y ∷ ys) = if not (e.beq x y) then false else same xs ys

  same_iff : (xs ys : List T) → (same xs ys ≡ true) ↔ (xs ≡ ys)
  same_iff [] [] = (λ h. refl, λ h. refl)
  same_iff [] (y ∷ ys) = (λ h. cc, λ h. cc)
  same_iff (x ∷ xs) [] = (λ h. cc, λ h. cc)
  same_iff (x ∷ xs) (y ∷ ys) = ground (arith, e.beq_iff x y, same_iff xs ys)

  equal_loop_lem :
      (before before' xs ys : List T)
      → length before' ≡ length before
      → length xs ≡ length ys
      → equal_loop e.beq (length before) (length xs) (before ++ xs) (before' ++ ys)
        ≡ some (same xs ys)
  unfolding equal_loop
  equal_loop_lem before before' [] [] l m = refl
  equal_loop_lem before before' [] (y ∷ ys) l m = absurd (omega (arith, m))
  equal_loop_lem before before' (x ∷ xs) [] l m = absurd (omega (arith, m))
  equal_loop_lem before before' (x ∷ xs) (y ∷ ys) l m =
      let next =
        equal_loop_lem (before ++ x ∷ []) (before' ++ y ∷ []) xs ys
          (omega (arith, l, length-snoc before x, length-snoc before' y)) (omega (arith, m)) in
      let at : get_elem? (before' ++ y ∷ ys) (length before) ≡ some y =
        rw (sym l) (get_elem?-append before' y ys) in
      let rest : equal_loop e.beq (length before + 1) (length xs) (before ++ x ∷ xs)
            (before' ++ y ∷ ys)
          ≡ some (same xs ys) =
        rw (sym (length-snoc before x), snoc before x xs, snoc before' y ys) next in
      elim (Bool-cases (e.beq x y)) [
        | inl q ↦ rw (equal_loop, get_elem?-append before x xs, at, rest, q) refl
        | inr q ↦ rw (equal_loop, get_elem?-append before x xs, at, rest, q) refl
      ]

  -- On two arrays of the same sizes, operator== reads no element outside and holds exactly if the
  -- arrays have the same elements in the same order.
  pub equal_lem :
      (sizes : List ℕ) (xs ys : List T)
      → length xs ≡ product sizes
      → length ys ≡ product sizes
      → (b : Bool) × (equal e.beq sizes xs ys ≡ some b) × ((b ≡ true) ↔ (xs ≡ ys))
  unfolding equal
  equal_lem sizes xs ys l m =
      (same xs ys, rw (sym l) (equal_loop_lem [] [] xs ys refl (l ∙ sym m)), same_iff xs ys)
