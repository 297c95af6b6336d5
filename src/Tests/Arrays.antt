-- ===== src/Tests/Arrays.antt =====
-- An array of two rows of three.
use platform_system_libhidl.Array.{product, of_std, to_std}
use platform_system_libhidl.Array.Single.{copy_std, read_array, copy_std-of_std}
use platform_system_libhidl.Array.Nested.{to_std-of_std}
use platform_system_libhidl.Texts.{hidl_array_to_string, array_size_to_string}
use platform_system_libhidl.Texts.Arrays.{map_some, nested_text, hidl_array_to_string-to_std}
use platform_system_libhidl.Prelude.Eq.{nat_eq}
use platform_system_libhidl.Prelude.{
  length, replicate, Bytes, codes, ℕ, refl, Bool, some, List, [], ◌+◌, ◌≡◌, ◌∷◌, ◌++◌,
}

abbrev sizes : List ℕ
sizes = 2 ∷ 3 ∷ []

abbrev rows : List ℕ
rows = 1 ∷ 2 ∷ 3 ∷ 4 ∷ 5 ∷ 6 ∷ []

rows_full : length rows ≡ product sizes
unfolding product
rows_full = refl

abbrev nested : List (List ℕ)
nested = (1 ∷ 2 ∷ 3 ∷ []) ∷ (4 ∷ 5 ∷ 6 ∷ []) ∷ []

abbrev blank : List ℕ
blank = replicate 6 0

blank_full : length blank ≡ product sizes
unfolding product
blank_full = refl

to_std-of_std_example :
    (of_std sizes nested blank ≡ rows) × (to_std sizes (of_std sizes nested blank) ≡ some nested)
to_std-of_std_example =
    to_std-of_std ℕ sizes nested blank
      (refl, ((refl, (tt, (tt, (tt, tt)))), ((refl, (tt, (tt, (tt, tt)))), tt))) blank_full

-- One digit is its own text.
abbrev digit : ℕ → Bytes
digit n = (48 + n) ∷ []

abbrev hex_digit : Bool → ℕ → Bytes
hex_digit showbase n = codes "0x" ++ digit n

hidl_array_to_string-to_std_example :
    hidl_array_to_string digit hex_digit digit sizes rows
    ≡ map_some
        (λ a. array_size_to_string digit hex_digit sizes ++ nested_text digit sizes a)
        (to_std sizes rows)
hidl_array_to_string-to_std_example = hidl_array_to_string-to_std digit digit hex_digit sizes rows

-- An array of three.
abbrev digits : List ℕ
digits = 4 ∷ 5 ∷ 6 ∷ []

copy_std-of_std_example :
    (copy_std 3 digits (replicate 3 0) ≡ some (of_std (3 ∷ []) digits (replicate 3 0)))
    × (read_array 3 (of_std (3 ∷ []) digits (replicate 3 0)) (replicate 3 9)
        ≡ to_std (3 ∷ []) (of_std (3 ∷ []) digits (replicate 3 0)))
    × (to_std (3 ∷ []) (of_std (3 ∷ []) digits (replicate 3 0)) ≡ some digits)
copy_std-of_std_example = copy_std-of_std 3 digits (replicate 3 0) (replicate 3 9) refl refl refl
