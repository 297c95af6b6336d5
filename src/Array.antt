-- ===== src/Array.antt =====
-- base/include/hidl/HidlSupport.h: `hidl_array` and its accessors, which index one flat buffer in
-- row-major order.
pub mod Indices
pub mod Flat
pub mod Nested
pub mod Single
use platform_system_libhidl.Prelude.{
  get_elem?, set, ℕ, zero, suc, Bool, true, false, not, Option, none, some, List, [], if◌then◌else◌,
  ◌+◌, ◌*◌, ◌∷◌,
}

-- product<SIZES...>::value; that of no sizes is 1.
unfoldable pub product : List ℕ → ℕ
product [] = 1
product (n ∷ ns) = n * product ns

-- The position in the buffer that a chain of operator[] reaches.
unfoldable pub offset : List ℕ → List ℕ → ℕ
unfolding product
offset [] is = 0
offset (n ∷ ns) [] = 0
offset (n ∷ ns) (i ∷ is) = i * product ns + offset ns is

module _ {T : Type 0} where
  unfoldable pub element : List ℕ → List ℕ → List T → Option T
  unfolding offset
  element sizes is buffer = get_elem? buffer (offset sizes is)

  unfoldable pub set_element : List ℕ → List ℕ → T → List T → List T
  unfolding offset
  set_element sizes is x buffer = set buffer (offset sizes is) x

-- details::std_array: an array of sizes n, ns... is a list of n arrays of sizes ns.
abbrev pub StdArray : Type 0 → List ℕ → Type 0
StdArray T [] = T
StdArray T (n ∷ ns) = List (StdArray T ns)

module _ {T A : Type 0} where
  -- for (size_t i = 0; i < SIZE1; ++i) (*this)[i] = other[i], where the accessor's base is `base`, an
  -- element takes `p` positions, and `other` has SIZE1 elements.
  unfoldable pub assign_loop : (ℕ → A → List T → List T) → (p base i : ℕ) → List A → List T → List T
  assign_loop assign_row p base i [] buffer = buffer
  assign_loop assign_row p base i (x ∷ xs) buffer =
      assign_loop assign_row p base (i + 1) xs (assign_row (base + i * p) x buffer)

  -- for (size_t i = 0; i < SIZE1; ++i) array[i] = (*this)[i], with `n` rounds to go.
  unfoldable pub read_loop : (ℕ → List T → Option A) → (p base i n : ℕ) → List T → Option (List A)
  read_loop read_row p base i zero buffer = some []
  read_loop read_row p base i (suc n) buffer =
      let rest = read_loop read_row p base (i + 1) n buffer in
      elim (read_row (base + i * p) buffer) [
        | none ↦ none
        | some x ↦ elim rest [ none ↦ none | some xs ↦ some (x ∷ xs) ]
      ]

module _ {T : Type 0} where
  -- accessor::operator=(const std_array_type &)
  unfoldable pub assign_std : (sizes : List ℕ) → (base : ℕ) → StdArray T sizes → List T → List T
  unfolding assign_loop product
  assign_std [] base x buffer = set buffer base x
  assign_std (n ∷ ns) base xs buffer =
      assign_loop (λ b row. assign_std ns b row) (product ns) base 0 xs buffer

  -- const_accessor::operator std_array_type(); a read outside of the buffer is undefined.
  unfoldable pub read_std : (sizes : List ℕ) → (base : ℕ) → List T → Option (StdArray T sizes)
  unfolding read_loop product
  read_std [] base buffer = get_elem? buffer base
  read_std (n ∷ ns) base buffer = read_loop (λ b. read_std ns b) (product ns) base 0 n buffer

  -- hidl_array(const std_array_type &), over the elements that the members are made with.
  unfoldable pub of_std : (sizes : List ℕ) → StdArray T sizes → List T → List T
  unfolding assign_std
  of_std sizes array buffer = assign_std sizes 0 array buffer

  -- operator std_array_type()
  unfoldable pub to_std : (sizes : List ℕ) → List T → Option (StdArray T sizes)
  unfolding read_std
  to_std sizes buffer = read_std sizes 0 buffer

  -- The loop of hidl_array(const T *), with `n` rounds to go; a read behind the source is undefined.
  unfoldable pub source_loop : List T → (i n : ℕ) → List T → Option (List T)
  source_loop source i zero buffer = some buffer
  source_loop source i (suc n) buffer = elim (get_elem? source i) [
    | none ↦ none
    | some x ↦ source_loop source (i + 1) n (set buffer i x)
  ]

  unfoldable pub of_source : (sizes : List ℕ) → List T → List T → Option (List T)
  unfolding source_loop product
  of_source sizes source buffer = source_loop source 0 (product sizes) buffer

  -- The loop of operator==, with `n` rounds to go.
  unfoldable pub equal_loop : (T → T → Bool) → (i n : ℕ) → List T → List T → Option Bool
  equal_loop eq i zero xs ys = some true
  equal_loop eq i (suc n) xs ys =
      let rest = equal_loop eq (i + 1) n xs ys in
      elim (get_elem? xs i) [
        | none ↦ none
        | some x ↦ elim (get_elem? ys i) [
          | none ↦ none
          | some y ↦ if not (eq x y) then some false else rest
        ]
      ]

  unfoldable pub equal : (T → T → Bool) → (sizes : List ℕ) → List T → List T → Option Bool
  unfolding equal_loop product
  equal eq sizes xs ys = equal_loop eq 0 (product sizes) xs ys
