-- ===== src/Array/Indices.antt =====
-- Different indices reach different elements.
use platform_system_libhidl.Array.{product, offset, element, set_element}
use native.Mathlib.Nat.{suc-mul, zero-mul}
use platform_system_libhidl.Prelude.{
  length, get_elem?, set, ℕ, zero, suc, refl, ap, some, List, [], arith, ◌+◌, ◌*◌, ◌<◌, ◌≡◌, ◌≢◌,
  ◌∷◌,
}

-- One index for each size, below it.
abbrev pub InBounds : List ℕ → List ℕ → Type 0
InBounds [] [] = Unit
InBounds [] (i ∷ is) = ⊥
InBounds (n ∷ ns) [] = ⊥
InBounds (n ∷ ns) (i ∷ is) = (i < n) × InBounds ns is

row_lt : (i n p r : ℕ) → i < n → r < p → i * p + r < n * p
row_lt i zero p r below small = absurd (omega arith)
row_lt zero (suc n) p r below small = omega (arith, suc-mul n p, zero-mul p)
row_lt (suc i) (suc n) p r below small =
    omega (arith, suc-mul i p, suc-mul n p, row_lt i n p r (omega arith) small)

row_injective : (i j p r s : ℕ) → r < p → s < p → i * p + r ≡ j * p + s → (i ≡ j) × (r ≡ s)
row_injective zero zero p r s hr hs e = (refl, omega (arith, zero-mul p))
row_injective zero (suc j) p r s hr hs e = absurd (omega (arith, zero-mul p, suc-mul j p))
row_injective (suc i) zero p r s hr hs e = absurd (omega (arith, zero-mul p, suc-mul i p))
row_injective (suc i) (suc j) p r s hr hs e =
    let ih = row_injective i j p r s hr hs (omega (arith, suc-mul i p, suc-mul j p)) in
    (ap suc ih.0, ih.1)

offset_lt : (ns is : List ℕ) → InBounds ns is → offset ns is < product ns
unfolding offset product
offset_lt [] [] b = omega arith
offset_lt (n ∷ ns) (i ∷ is) b = row_lt i n (product ns) (offset ns is) b.0 (offset_lt ns is b.1)
offset_lt [] (i ∷ is) b = absurd b
offset_lt (n ∷ ns) [] b = absurd b

offset_injective :
    (ns is js : List ℕ) → InBounds ns is → InBounds ns js → offset ns is ≡ offset ns js → is ≡ js
unfolding offset
offset_injective [] [] [] bi bj e = refl
offset_injective [] [] (j ∷ js) bi bj e = absurd bj
offset_injective [] (i ∷ is) js bi bj e = absurd bi
offset_injective (n ∷ ns) [] js bi bj e = absurd bi
offset_injective (n ∷ ns) (i ∷ is) [] bi bj e = absurd bj
offset_injective (n ∷ ns) (i ∷ is) (j ∷ js) bi bj e =
    let row =
      row_injective i j (product ns) (offset ns is) (offset ns js) (offset_lt ns is bi.1)
        (offset_lt ns js bj.1) e in
    let rest = offset_injective ns is js bi.1 bj.1 row.1 in rw (row.0, rest) refl

get_set_same :
    {T : Type 0} (xs : List T) (i : ℕ) (x : T) → i < length xs → get_elem? (set xs i x) i ≡ some x
get_set_same [] i x below = absurd (omega arith)
get_set_same (y ∷ ys) zero x below = refl
get_set_same (y ∷ ys) (suc i) x below = get_set_same ys i x (omega arith)

get_set_other :
    {T : Type 0} (xs : List T) (i j : ℕ) (x : T) → i ≢ j → get_elem? (set xs i x) j ≡ get_elem? xs j
get_set_other [] i j x ne = refl
get_set_other (y ∷ ys) zero zero x ne = absurd (ne refl)
get_set_other (y ∷ ys) zero (suc j) x ne = refl
get_set_other (y ∷ ys) (suc i) zero x ne = refl
get_set_other (y ∷ ys) (suc i) (suc j) x ne = get_set_other ys i j x (λ e. ne (ap suc e))

-- For indices within the sizes of an array, and a buffer with an element for each: an assignment
-- through the accessors is read back at its indices, and changes no element at other indices.
pub set_element_lem :
    {T : Type 0} (sizes is js : List ℕ) (x : T) (buffer : List T)
    → length buffer ≡ product sizes
    → InBounds sizes is
    → InBounds sizes js
    → is ≢ js
    → (element sizes is (set_element sizes is x buffer) ≡ some x)
      × (element sizes js (set_element sizes is x buffer) ≡ element sizes js buffer)
unfolding element set_element
set_element_lem sizes is js x buffer full bi bj ne = (
  get_set_same buffer (offset sizes is) x (rw full (offset_lt sizes is bi)),
  get_set_other buffer (offset sizes is) (offset sizes js) x
      (λ e. ne (offset_injective sizes is js bi bj e)),
)
