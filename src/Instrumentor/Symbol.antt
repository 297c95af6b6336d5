-- ===== src/Instrumentor/Symbol.antt =====
-- The package in the symbol of an instrumentation function: the loop over a string that grows.
use platform_system_libhidl.Instrumentor.{insert, mangle, mangle_loop, mangle_package}
use platform_system_libhidl.Prelude.{
  Bool-cases, length, length-append, take-append, drop-append, get_elem?-append, get_elem?-length,
  set-append, Bytes, ℕ, zero, suc, refl, sym, ap, inl, inr, some, [], append-nil, append_assoc,
  arith, ◌==◌, if◌then◌else◌, ◌+◌, ◌*◌, ◌≤◌, ◌<◌, ◌≡◌, ◌∙◌, ◌∷◌, ◌++◌,
}

-- A dot becomes an underscore, and an at sign an underscore and a V.
abbrev pub replacement : ℕ → Bytes
replacement c = if c == 46 then 95 ∷ [] else if c == 64 then 95 ∷ 86 ∷ [] else c ∷ []

abbrev pub replaced : Bytes → Bytes
replaced [] = []
replaced (c ∷ cs) = replacement c ++ replaced cs

-- The character that the body leaves at the index, and what it inserts behind it.
abbrev kept : ℕ → ℕ
kept c = if c == 46 then 95 else if c == 64 then 95 else c

abbrev inserted : ℕ → Bytes
inserted c = if c == 46 then [] else if c == 64 then 86 ∷ [] else []

insert-append :
    (p : Bytes) (c : ℕ) (s rest : Bytes)
    → insert (length p + 1) s (p ++ c ∷ rest) ≡ p ++ c ∷ [] ++ (s ++ rest)
unfolding insert
insert-append p c s rest =
    rw
      (
        sym (append_assoc p (c ∷ []) rest),
        sym (length-append p (c ∷ [])),
        take-append (p ++ c ∷ []) rest,
        drop-append (p ++ c ∷ []) rest,
      )
      (append_assoc (p ++ c ∷ []) s rest)

mangle-append :
    (p : Bytes) (c : ℕ) (rest : Bytes)
    → mangle (length p) c (p ++ c ∷ rest) ≡ p ++ kept c ∷ [] ++ (inserted c ++ rest)
unfolding mangle
mangle-append p c rest = elim (Bool-cases (c == 46)) [
  | inl q ↦ rw (q, set-append p c 95 rest) (sym (append_assoc p (95 ∷ []) rest))
  | inr q ↦ elim (Bool-cases (c == 64)) [
    | inl r ↦ rw (q, r, set-append p c 95 rest) (insert-append p 95 (86 ∷ []) rest)
    | inr r ↦ rw (q, r) (sym (append_assoc p (c ∷ []) rest))
  ]
]

-- One round, where `p` is what the loop has passed.
mangle_loop-append :
    (n : ℕ) (p : Bytes) (c : ℕ) (rest : Bytes)
    → mangle_loop (suc n) (length p) (p ++ c ∷ rest)
      ≡ mangle_loop n (length (p ++ kept c ∷ [])) (p ++ kept c ∷ [] ++ (inserted c ++ rest))
unfolding mangle_loop
mangle_loop-append n p c rest =
    rw
      (
        mangle_loop,
        get_elem?-append p c rest,
        mangle-append p c rest,
        length-append p (kept c ∷ []),
      )
      refl

replaced-kept : (c : ℕ) (cs : Bytes) → replaced (c ∷ cs) ≡ kept c ∷ replaced (inserted c ++ cs)
replaced-kept c cs = elim (Bool-cases (c == 46)) [
  | inl q ↦ rw q refl
  | inr q ↦ elim (Bool-cases (c == 64)) [ inl r ↦ rw (q, r) refl | inr r ↦ rw (q, r) refl ]
]

mangle_loop_lem :
    (n : ℕ) (p rest : Bytes)
    → length (replaced rest) < n
    → mangle_loop n (length p) (p ++ rest) ≡ some (p ++ replaced rest)
mangle_loop_lem zero p rest h = absurd (omega (arith, h))
mangle_loop_lem (suc n) p [] h =
    unfold mangle_loop in
    rw (mangle_loop, append-nil p, get_elem?-length p) (ap some (append-nil p))
mangle_loop_lem (suc n) p (c ∷ cs) h =
    mangle_loop-append n p c cs
    ∙ mangle_loop_lem n (p ++ kept c ∷ []) (inserted c ++ cs)
        (omega (arith, h, ap length (replaced-kept c cs)))
    ∙ ap some (
        append_assoc p (kept c ∷ []) (replaced (inserted c ++ cs))
        ∙ ap (λ l. p ++ l) (sym (replaced-kept c cs)))

length-replacement : (c : ℕ) → length (replacement c) ≤ 2
length-replacement c = ground arith

length-replaced : (cs : Bytes) → length (replaced cs) ≤ 2 * length cs
length-replaced [] = omega arith
length-replaced (c ∷ cs) =
    omega
      (arith, length-append (replacement c) (replaced cs), length-replacement c, length-replaced cs)

-- The loop ends, although the string grows under it: twice the package's length and one is fuel
-- enough. It leaves the package with an underscore for each dot, an underscore and a V for each at
-- sign, and every other character as it was.
pub mangle_package_total : (pkg : Bytes) → mangle_package pkg ≡ some (replaced pkg)
unfolding mangle_package
mangle_package_total pkg =
    mangle_loop_lem (suc (2 * length pkg)) [] pkg (omega (arith, length-replaced pkg))
