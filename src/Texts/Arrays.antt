-- ===== src/Texts/Arrays.antt =====
-- The text of a multidimensional array.
use platform_system_libhidl.Array.{StdArray, product, read_loop, read_std, to_std}
use platform_system_libhidl.Texts.{
  elements_loop, array_to_string, accessor_to_string, array_size_to_string, hidl_array_to_string,
}
use platform_system_libhidl.Prelude.{
  lt→ltb, Option-cases, get_elem?, Bytes, codes, ℕ, zero, suc, refl, ap, inl, inr, Bool, Option,
  none, some, List, [], map, arith, ◌+◌, ◌*◌, ◌<◌, ◌≡◌, ◌∙◌, ◌∷◌, ◌++◌,
}

-- The texts, with a comma and a space before each but the first.
abbrev pub with_commas : List Bytes → Bytes
with_commas [] = []
with_commas (text ∷ texts) = codes ", " ++ text ++ with_commas texts

abbrev pub joined : List Bytes → Bytes
joined [] = []
joined (text ∷ texts) = text ++ with_commas texts

abbrev pub map_some : {A B : Type 0} → (A → B) → Option A → Option B
map_some f none = none
map_some f (some a) = some (f a)

elements_loop-with_commas :
    (i : ℕ) (texts : List Bytes) → 0 < i → elements_loop i texts ≡ with_commas texts
unfolding elements_loop
elements_loop-with_commas i [] h = refl
elements_loop-with_commas i (text ∷ texts) h =
    rw (lt→ltb 0 i h, elements_loop-with_commas (i + 1) texts (omega (arith, h))) refl

array_to_string-joined :
    (texts : List Bytes) → array_to_string texts ≡ codes "{" ++ joined texts ++ codes "}"
unfolding array_to_string elements_loop
array_to_string-joined [] = refl
array_to_string-joined (text ∷ texts) = rw (elements_loop-with_commas 1 texts (omega arith)) refl

map_some-map_some :
    {A B C : Type 0} (f : A → B) (g : B → C) (k : A → C) (same : (a : A) → g (f a) ≡ k a)
    (o : Option A)
    → map_some g (map_some f o) ≡ map_some k o
map_some-map_some f g k same none = refl
map_some-map_some f g k same (some a) = ap some (same a)

module _ {T : Type 0} (to_string : T → Bytes) where
  -- The text of a nested array: the texts of its rows, each in braces, with commas between.
  abbrev pub nested_text : (sizes : List ℕ) → StdArray T sizes → Bytes
  nested_text [] x = to_string x
  nested_text (n ∷ ns) xs = codes "{" ++ joined (map (λ x. nested_text ns x) xs) ++ codes "}"

  read_loop-map :
      {A : Type 0} (text : A → Bytes) (f : ℕ → List T → Option Bytes) (g : ℕ → List T → Option A)
      (same : (b : ℕ) (buffer : List T) → f b buffer ≡ map_some text (g b buffer)) (p base i n : ℕ)
      (buffer : List T)
      → read_loop f p base i n buffer ≡ map_some (map text) (read_loop g p base i n buffer)
  unfolding read_loop
  read_loop-map text f g same p base i zero buffer = refl
  read_loop-map text f g same p base i (suc n) buffer =
      let rest = read_loop-map text f g same p base (i + 1) n buffer in
      elim (Option-cases (g (base + i * p) buffer)) [
        | inl e ↦ rw (read_loop, same (base + i * p) buffer, e) refl
        | inr (a, e) ↦ elim (Option-cases (read_loop g p base (i + 1) n buffer)) [
          | inl k ↦ rw (read_loop, same (base + i * p) buffer, e, rest, k) refl
          | inr (l, k) ↦ rw (read_loop, same (base + i * p) buffer, e, rest, k) refl
        ]
      ]

  accessor_to_string-read_std :
      (sizes : List ℕ) (base : ℕ) (buffer : List T)
      → accessor_to_string to_string sizes base buffer
        ≡ map_some (nested_text sizes) (read_std sizes base buffer)
  unfolding accessor_to_string read_std
  accessor_to_string-read_std [] base buffer = elim (Option-cases (get_elem? buffer base)) [
    | inl e ↦ rw (accessor_to_string, e) refl
    | inr (x, e) ↦ rw (accessor_to_string, e) refl
  ]
  accessor_to_string-read_std (n ∷ ns) base buffer =
      ap (map_some array_to_string) (
        read_loop-map (nested_text ns) (λ b. accessor_to_string to_string ns b) (λ b. read_std ns b)
          (λ b l. accessor_to_string-read_std ns b l) (product ns) base 0 n buffer)
      ∙ map_some-map_some (map (nested_text ns)) array_to_string (nested_text (n ∷ ns))
          (λ xs. array_to_string-joined (map (nested_text ns) xs))
          (read_loop (λ b. read_std ns b) (product ns) base 0 n buffer)

  -- toString of a hidl_array: its sizes in brackets, and then the text of the nested std::array that
  -- it converts to, whatever is in the buffer.
  pub hidl_array_to_string-to_std :
      (decimal : ℕ → Bytes) (hex : Bool → ℕ → Bytes) (sizes : List ℕ) (buffer : List T)
      → hidl_array_to_string decimal hex to_string sizes buffer
        ≡ map_some
            (λ a. array_size_to_string decimal hex sizes ++ nested_text sizes a)
            (to_std sizes buffer)
  unfolding hidl_array_to_string to_std
  hidl_array_to_string-to_std decimal hex sizes buffer =
      ap (map_some (λ t. array_size_to_string decimal hex sizes ++ t))
        (accessor_to_string-read_std sizes 0 buffer)
      ∙ map_some-map_some (nested_text sizes) (λ t. array_size_to_string decimal hex sizes ++ t)
          (λ a. array_size_to_string decimal hex sizes ++ nested_text sizes a) (λ a. refl)
          (read_std sizes 0 buffer)
