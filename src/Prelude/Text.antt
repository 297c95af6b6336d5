-- ===== src/Prelude/Text.antt =====
-- Texts as lists of bytes.
use Prim.Native.Nat.{ℕ}
use Prim.Native.Char.{code}
use Prim.Native.String.{String}
use mathlib.Core.Path.{◌≡◌, refl, subst}
use mathlib.Core.Logic.{◌↔◌}
use mathlib.Core.Bool.{Bool, true, false, ◌&&◌}
use mathlib.Core.List.{List, [], ◌∷◌}
use native.Mathlib.Omega.{arith}
use platform_system_libhidl.Prelude.Tests.{◌==◌}

abbrev pub Bytes : Type 0
Bytes = List ℕ

-- The bytes of an ASCII literal.
abbrev pub codes : String → Bytes
codes String.[] = []
codes (String.◌∷◌ c s) = code c ∷ codes s

abbrev pub eqb_bytes : Bytes → Bytes → Bool
eqb_bytes [] [] = true
eqb_bytes [] (y ∷ ys) = false
eqb_bytes (x ∷ xs) [] = false
eqb_bytes (x ∷ xs) (y ∷ ys) = (x == y) && eqb_bytes xs ys

pub eqb_bytes_refl : (xs : Bytes) → eqb_bytes xs xs ≡ true
eqb_bytes_refl [] = refl
eqb_bytes_refl (x ∷ xs) = ground (arith, eqb_bytes_refl xs)

pub eq_of_eqb_bytes : (xs ys : Bytes) → eqb_bytes xs ys ≡ true → xs ≡ ys
eq_of_eqb_bytes [] [] h = refl
eq_of_eqb_bytes [] (y ∷ ys) h = cc
eq_of_eqb_bytes (x ∷ xs) [] h = cc
eq_of_eqb_bytes (x ∷ xs) (y ∷ ys) h = ground (arith, eq_of_eqb_bytes xs ys)

pub eqb_bytes_iff : (xs ys : Bytes) → (eqb_bytes xs ys ≡ true) ↔ (xs ≡ ys)
eqb_bytes_iff xs ys =
    (eq_of_eqb_bytes xs ys, λ e. subst (λ zs. eqb_bytes xs zs ≡ true) e (eqb_bytes_refl xs))
