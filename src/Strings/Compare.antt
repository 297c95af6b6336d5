-- ===== src/Strings/Compare.antt =====
-- base/include/hidl/HidlSupport.h: HIDL_STRING_OPERATOR. The operators see the C strings of their
-- operands, so they are functions of those bytes.
use platform_system_libhidl.Prelude.{
  ltb, ℤ, pos, negsuc, ltb_ℤ, eqb_ℤ, Bytes, eqb_bytes, eq_of_eqb_bytes, refl, sym, ap, Bool, false,
  not, [], arith, if◌then◌else◌, ◌≡◌, ◌∙◌, ◌≢◌, ◌&&◌, ◌||◌, ◌∷◌,
}

-- strcmp, as the sign of its result.
abbrev pub strcmp : Bytes → Bytes → ℤ
strcmp [] [] = pos 0
strcmp [] (y ∷ ys) = negsuc 0
strcmp (x ∷ xs) [] = pos 1
strcmp (x ∷ xs) (y ∷ ys) =
    let rest : ℤ = strcmp xs ys in if ltb x y then negsuc 0 else if ltb y x then pos 1 else rest

-- OP applied to the result of strcmp and 0.
pub data Operator : Type 0 where
  eq ne lt le gt ge : Operator

unfoldable pub apply : Operator → ℤ → Bool
apply eq r = eqb_ℤ r (pos 0)
apply ne r = not (eqb_ℤ r (pos 0))
apply lt r = ltb_ℤ r (pos 0)
apply le r = not (ltb_ℤ (pos 0) r)
apply gt r = ltb_ℤ (pos 0) r
apply ge r = not (ltb_ℤ r (pos 0))

-- operator OP(const hidl_string &hs1, const hidl_string &hs2)
unfoldable pub compare_strings : Operator → Bytes → Bytes → Bool
unfolding apply
compare_strings op hs1 hs2 = apply op (strcmp hs1 hs2)

-- operator OP(const hidl_string &hs, const char *s)
unfoldable pub compare_to_cstr : Operator → Bytes → Bytes → Bool
unfolding apply
compare_to_cstr op hs s = apply op (strcmp hs s)

-- operator OP(const char *s, const hidl_string &hs): the source compares `hs` to `s` here as well.
unfoldable pub compare_cstr : Operator → Bytes → Bytes → Bool
unfolding apply
compare_cstr op s hs = apply op (strcmp hs s)

-- The operator that holds of the operands in the other order.
abbrev pub mirror : Operator → Operator
mirror eq = eq
mirror ne = ne
mirror lt = gt
mirror le = ge
mirror gt = lt
mirror ge = le

strcmp_swap_lt : (xs ys : Bytes) → ltb_ℤ (strcmp xs ys) (pos 0) ≡ ltb_ℤ (pos 0) (strcmp ys xs)
strcmp_swap_lt [] [] = refl
strcmp_swap_lt [] (y ∷ ys) = refl
strcmp_swap_lt (x ∷ xs) [] = refl
strcmp_swap_lt (x ∷ xs) (y ∷ ys) = ground (arith, strcmp_swap_lt xs ys)

strcmp_eq : (xs ys : Bytes) → eqb_ℤ (strcmp xs ys) (pos 0) ≡ eqb_bytes xs ys
strcmp_eq [] [] = refl
strcmp_eq [] (y ∷ ys) = refl
strcmp_eq (x ∷ xs) [] = refl
strcmp_eq (x ∷ xs) (y ∷ ys) = ground (arith, strcmp_eq xs ys)

eqb_bytes_comm : (xs ys : Bytes) → eqb_bytes xs ys ≡ eqb_bytes ys xs
eqb_bytes_comm [] [] = refl
eqb_bytes_comm [] (y ∷ ys) = refl
eqb_bytes_comm (x ∷ xs) [] = refl
eqb_bytes_comm (x ∷ xs) (y ∷ ys) = ground (arith, eqb_bytes_comm xs ys)

-- The operators between two strings agree with each other: equality is equality of the texts, each
-- operator is the mirrored one on swapped operands, <= is < or ==, >= is not <, and < and > exclude
-- each other.
pub compare_strings_order :
    (op : Operator) (a b : Bytes)
    → (compare_strings eq a b ≡ eqb_bytes a b)
      × (compare_strings op a b ≡ compare_strings (mirror op) b a)
      × (compare_strings le a b ≡ (compare_strings lt a b || compare_strings eq a b))
      × (compare_strings ge a b ≡ not (compare_strings lt a b))
      × ((compare_strings lt a b && compare_strings gt a b) ≡ false)
unfolding compare_strings
compare_strings_order op a b = (strcmp_eq a b, mirrored op, ground arith, refl, ground arith)
  where
    mirrored : (op : Operator) → compare_strings op a b ≡ compare_strings (mirror op) b a
    mirrored eq = strcmp_eq a b ∙ eqb_bytes_comm a b ∙ sym (strcmp_eq b a)
    mirrored ne = ap not (strcmp_eq a b ∙ eqb_bytes_comm a b ∙ sym (strcmp_eq b a))
    mirrored lt = strcmp_swap_lt a b
    mirrored le = ap not (sym (strcmp_swap_lt b a))
    mirrored gt = sym (strcmp_swap_lt b a)
    mirrored ge = ap not (strcmp_swap_lt a b)

-- With the C string on the left the source compares the operands in the wrong order: for different
-- texts <, <=, > and >= all give the opposite of what they give for the same text as a hidl_string.
compare_cstr_reversed :
    (s hs : Bytes)
    → s ≢ hs
    → (compare_cstr lt s hs ≡ not (compare_strings lt s hs))
      × (compare_cstr le s hs ≡ not (compare_strings le s hs))
      × (compare_cstr gt s hs ≡ not (compare_strings gt s hs))
      × (compare_cstr ge s hs ≡ not (compare_strings ge s hs))
unfolding compare_cstr compare_strings
compare_cstr_reversed s hs distinct =
    let differ : eqb_ℤ (strcmp s hs) (pos 0) ≡ false =
      ground (arith, strcmp_eq s hs, eq_of_eqb_bytes s hs) in
    let a = strcmp_swap_lt s hs in
    let b = strcmp_swap_lt hs s in (ground arith, ground arith, ground arith, ground arith)
