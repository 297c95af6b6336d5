-- ===== src/Array/Nested.antt =====
-- The exchange with nested std::arrays: the buffer holds their elements in row-major order.
use platform_system_libhidl.Array.{
  product, StdArray, assign_loop, read_loop, assign_std, read_std, of_std, to_std,
}
use native.Mathlib.Nat.{suc-mul, zero-mul}
use platform_system_libhidl.Prelude.{
  length-drop, length, take, drop, length-append, take-append-drop, length-take, length-drop,
  get_elem?-append, set-append, eq_nil_of_length, ℕ, refl, sym, ap, Option, some, List, [],
  append-nil, append_assoc, arith, ◌+◌, ◌*◌, ◌≡◌, ◌∙◌, ◌∷◌, ◌++◌,
}

abbrev pub AllOf : {A : Type 0} → (A → Type 0) → List A → Type 0
AllOf Q [] = Unit {0}
AllOf Q (x ∷ xs) = Q x × AllOf Q xs

-- Each array has as many elements as its size says.
abbrev pub IsShaped : (T : Type 0) → (sizes : List ℕ) → StdArray T sizes → Type 0
IsShaped T [] x = Unit {0}
IsShaped T (n ∷ ns) xs = (length xs ≡ n) × AllOf (λ x. IsShaped T ns x) xs

abbrev pub concat_map : {A T : Type 0} → (A → List T) → List A → List T
concat_map f [] = []
concat_map f (x ∷ xs) = f x ++ concat_map f xs

abbrev pub flatten : (T : Type 0) → (sizes : List ℕ) → StdArray T sizes → List T
flatten T [] x = x ∷ []
flatten T (n ∷ ns) xs = concat_map (λ x. flatten T ns x) xs

module _ {T A : Type 0} (Q : A → Type 0) (p : ℕ) (row : A → List T)
    (sized : (a : A) → Q a → length (row a) ≡ p) where
  length-concat_map : (xs : List A) → AllOf Q xs → length (concat_map row xs) ≡ length xs * p
  length-concat_map [] q = omega (arith, zero-mul p)
  length-concat_map (x ∷ xs) (q, qs) = omega (
    arith,
    length-append (row x) (concat_map row xs),
    sized x q,
    length-concat_map xs qs,
    suc-mul (length xs) p,
  )

  assign_loop_lem :
      (f : ℕ → A → List T → List T)
      (writes : (before old after : List T) (a : A)
        → Q a
        → length old ≡ p
        → f (length before) a (before ++ (old ++ after)) ≡ before ++ (row a ++ after))
      (base i : ℕ) (xs : List A) (before old after : List T)
      → AllOf Q xs
      → base + i * p ≡ length before
      → length old ≡ length xs * p
      → assign_loop f p base i xs (before ++ (old ++ after))
        ≡ before ++ (concat_map row xs ++ after)
  unfolding assign_loop
  assign_loop_lem f writes base i [] before old after q at size =
      rw (eq_nil_of_length old (size ∙ zero-mul p)) refl
  assign_loop_lem f writes base i (x ∷ xs) before old after (q, qs) at size =
      let first : length (take p old) ≡ p =
        length-take p old (omega (arith, size, suc-mul (length xs) p)) in
      let buffer : before ++ (old ++ after) ≡ before ++ (take p old ++ (drop p old ++ after)) =
        ap (λ l. before ++ l)
          (ap (λ l. l ++ after) (sym (take-append-drop p old))
            ∙ append_assoc (take p old) (drop p old) after) in
      rw
        (
          at,
          buffer,
          writes before (take p old) (drop p old ++ after) x q first,
          sym (append_assoc before (row x) (drop p old ++ after)),
        )
        (assign_loop_lem f writes base (i + 1) xs (before ++ row x) (drop p old) after qs
            (omega (arith, at, length-append before (row x), sized x q, suc-mul i p))
            (omega (arith, size, length-drop p old, suc-mul (length xs) p))
          ∙ append_assoc before (row x) (concat_map row xs ++ after)
          ∙ ap (λ l. before ++ l) (sym (append_assoc (row x) (concat_map row xs) after)))

  read_loop_lem :
      (f : ℕ → List T → Option A)
      (reads : (before after : List T) (a : A)
        → Q a
        → f (length before) (before ++ (row a ++ after)) ≡ some a)
      (base i : ℕ) (xs : List A) (before after : List T)
      → AllOf Q xs
      → base + i * p ≡ length before
      → read_loop f p base i (length xs) (before ++ (concat_map row xs ++ after)) ≡ some xs
  unfolding read_loop
  read_loop_lem f reads base i [] before after q at = refl
  read_loop_lem f reads base i (x ∷ xs) before after (q, qs) at =
      let here : f (base + i * p) (before ++ (concat_map row (x ∷ xs) ++ after)) ≡ some x =
        rw (at, append_assoc (row x) (concat_map row xs) after)
          (reads before (concat_map row xs ++ after) x q) in
      let rest : read_loop f p base (i + 1) (length xs)
            (before ++ (concat_map row (x ∷ xs) ++ after))
          ≡ some xs =
        rw
          (
            append_assoc (row x) (concat_map row xs) after,
            sym (append_assoc before (row x) (concat_map row xs ++ after)),
          )
          (read_loop_lem f reads base (i + 1) xs (before ++ row x) after qs
            (omega (arith, at, length-append before (row x), sized x q, suc-mul i p))) in
      rw (here, rest) refl

module _ (T : Type 0) where
  length-flatten :
      (sizes : List ℕ) (a : StdArray T sizes)
      → IsShaped T sizes a
      → length (flatten T sizes a) ≡ product sizes
  unfolding product
  length-flatten [] x s = refl
  length-flatten (n ∷ ns) xs (l, s) =
      length-concat_map (IsShaped T ns) (product ns) (flatten T ns) (λ a q. length-flatten ns a q)
        xs s
      ∙ ap (λ k. k * product ns) l

  assign_std_lem :
      (sizes : List ℕ) (a : StdArray T sizes) (before old after : List T)
      → IsShaped T sizes a
      → length old ≡ product sizes
      → assign_std sizes (length before) a (before ++ (old ++ after))
        ≡ before ++ (flatten T sizes a ++ after)
  unfolding assign_std product
  assign_std_lem [] x before [] after s size = absurd (omega (arith, size))
  assign_std_lem [] x before (y ∷ ys) after s size =
      rw (eq_nil_of_length ys (omega (arith, size))) (set-append before y x after)
  assign_std_lem (n ∷ ns) xs before old after (l, s) size =
      assign_loop_lem (IsShaped T ns) (product ns) (flatten T ns) (λ a q. length-flatten ns a q)
        (λ b row. assign_std ns b row)
        (λ before' old' after' a q e. assign_std_lem ns a before' old' after' q e) (length before) 0
        xs before old after s (omega (arith, zero-mul (product ns)))
        (size ∙ ap (λ k. k * product ns) (sym l))

  read_std_lem :
      (sizes : List ℕ) (a : StdArray T sizes) (before after : List T)
      → IsShaped T sizes a
      → read_std sizes (length before) (before ++ (flatten T sizes a ++ after)) ≡ some a
  unfolding read_std
  read_std_lem [] x before after s = get_elem?-append before x after
  read_std_lem (n ∷ ns) xs before after (l, s) = rw (sym l) (
      read_loop_lem (IsShaped T ns) (product ns) (flatten T ns) (λ a q. length-flatten ns a q)
        (λ b. read_std ns b) (λ before' after' a q. read_std_lem ns a before' after' q)
        (length before) 0 xs before after s (omega (arith, zero-mul (product ns))))

  -- Into a buffer of as many elements as the sizes multiply to, the constructor writes every element
  -- of a nested array of these sizes, row after row, and the conversion back gives the array.
  pub to_std-of_std :
      (sizes : List ℕ) (a : StdArray T sizes) (buffer : List T)
      → IsShaped T sizes a
      → length buffer ≡ product sizes
      → (of_std sizes a buffer ≡ flatten T sizes a)
        × (to_std sizes (of_std sizes a buffer) ≡ some a)
  unfolding of_std to_std
  to_std-of_std sizes a buffer s size =
      let written : assign_std sizes 0 a buffer ≡ flatten T sizes a =
        ap (λ l. assign_std sizes 0 a l) (sym (append-nil buffer))
        ∙ assign_std_lem sizes a [] buffer [] s size
        ∙ append-nil (flatten T sizes a) in
      let back : read_std sizes 0 (flatten T sizes a) ≡ some a =
        ap (λ l. read_std sizes 0 l) (sym (append-nil (flatten T sizes a)))
        ∙ read_std_lem sizes a [] [] s in
      (written, rw written back)
