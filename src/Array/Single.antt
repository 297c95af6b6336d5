-- ===== src/Array/Single.antt =====
-- base/include/hidl/HidlSupport.h: the specialisation of `hidl_array` for one size, which copies
-- element by element where the general template goes through accessors.
use platform_system_libhidl.Array.{
  product, source_loop, of_source, equal_loop, equal, of_std, to_std,
}
use platform_system_libhidl.Array.Flat.{of_source_lem, equal_lem}
use platform_system_libhidl.Array.Nested.{AllOf, flatten, IsShaped, to_std-of_std}
use platform_system_libhidl.Prelude.Eq.{Eq}
use platform_system_libhidl.Prelude.{
  length, ℕ, refl, sym, ap, Bool, true, not, Option, none, some, List, [], append-nil, arith, ◌≡◌,
  ◌∙◌, ◌↔◌, ◌∷◌,
}

module _ {T : Type 0} where
  -- hidl_array(const T *)
  unfoldable pub copy_source : ℕ → List T → List T → Option (List T)
  unfolding source_loop
  copy_source size source buffer = source_loop source 0 size buffer

  -- hidl_array(const std_array_type &), which copies from `array.data()`.
  unfoldable pub copy_std : ℕ → List T → List T → Option (List T)
  unfolding copy_source
  copy_std size array buffer = copy_source size array buffer

  -- operator std_array_type(), which fills the new array `array`.
  unfoldable pub read_array : ℕ → List T → List T → Option (List T)
  unfolding source_loop
  read_array size buffer array = source_loop buffer 0 size array

  unfoldable pub same_elements : (T → T → Bool) → ℕ → List T → List T → Option Bool
  unfolding equal_loop
  same_elements eq size xs ys = equal_loop eq 0 size xs ys

  -- operator!=
  unfoldable pub other_elements : (T → T → Bool) → ℕ → List T → List T → Option Bool
  unfolding same_elements
  other_elements eq size xs ys = elim (same_elements eq size xs ys) [
    | none ↦ none
    | some b ↦ some (not b)
  ]

product_one : (n : ℕ) → product (n ∷ []) ≡ n
unfolding product
product_one n = omega arith

module _ {T : Type 0} where
  copy_source-of_source :
      (n : ℕ) (source buffer : List T)
      → of_source (n ∷ []) source buffer ≡ copy_source n source buffer
  unfolding of_source copy_source
  copy_source-of_source n source buffer = rw (product_one n) refl

  copy_all :
      (n : ℕ) (source buffer : List T)
      → length source ≡ n
      → length buffer ≡ n
      → copy_source n source buffer ≡ some source
  copy_all n source buffer e f =
      sym (copy_source-of_source n source buffer)
      ∙ ap (λ s. of_source (n ∷ []) s buffer) (sym (append-nil source))
      ∙ of_source_lem (n ∷ []) source [] buffer (e ∙ sym (product_one n)) (f ∙ sym (product_one n))

  flatten_one : (n : ℕ) (a : List T) → flatten T (n ∷ []) a ≡ a
  flatten_one n [] = refl
  flatten_one n (x ∷ xs) = ap (λ ys. x ∷ ys) (flatten_one n xs)

  all_one : (a : List T) → AllOf (λ x. Unit {0}) a
  all_one [] = tt
  all_one (x ∷ xs) = (tt, all_one xs)

  IsShaped-one : (n : ℕ) (a : List T) → length a ≡ n → IsShaped T (n ∷ []) a
  IsShaped-one n a e = (e, all_one a)

  -- For one size, the special copies agree with the general template: an array that is made from a
  -- std::array has its elements in either way, and the conversion back gives the std::array again.
  pub copy_std-of_std :
      (n : ℕ) (a buffer fresh : List T)
      → length a ≡ n
      → length buffer ≡ n
      → length fresh ≡ n
      → (copy_std n a buffer ≡ some (of_std (n ∷ []) a buffer))
        × (read_array n (of_std (n ∷ []) a buffer) fresh
            ≡ to_std (n ∷ []) (of_std (n ∷ []) a buffer))
        × (to_std (n ∷ []) (of_std (n ∷ []) a buffer) ≡ some a)
  unfolding copy_std read_array copy_source
  copy_std-of_std n a buffer fresh la lb lf =
      let (written, back) =
        to_std-of_std T (n ∷ []) a buffer (IsShaped-one n a la) (lb ∙ sym (product_one n)) in
      let same : of_std (n ∷ []) a buffer ≡ a = written ∙ flatten_one n a in
      (
        copy_all n a buffer la lb ∙ ap some (sym same),
        ap (λ s. source_loop s 0 n fresh) same ∙ copy_all n a fresh la lf ∙ sym back,
        back,
      )

module _ {T : Type 0} ⦃e : Eq T⦄ where
  -- For arrays of one size, operator== and operator!= read nothing outside, agree with the general
  -- template and contradict each other.
  pub other_elements_lem :
      (n : ℕ) (xs ys : List T)
      → length xs ≡ n
      → length ys ≡ n
      → (b : Bool) × (same_elements e.beq n xs ys ≡ some b)
        × (equal e.beq (n ∷ []) xs ys ≡ some b)
        × (other_elements e.beq n xs ys ≡ some (not b))
        × ((b ≡ true) ↔ (xs ≡ ys))
  unfolding same_elements other_elements equal
  other_elements_lem n xs ys l m =
      let (b, q, i) =
        equal_lem (n ∷ []) xs ys (l ∙ sym (product_one n)) (m ∙ sym (product_one n)) in
      let p : same_elements e.beq n xs ys ≡ some b =
        ap (λ k. equal_loop e.beq 0 k xs ys) (sym (product_one n)) ∙ q in
      (b, p, q, rw (other_elements, p) refl, i)
