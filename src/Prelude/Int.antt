-- ===== src/Prelude/Int.antt =====
-- Signed integers over the native numbers, under the library's names (its ℤ stands on the unary ℕ).
use Prim.Native.Nat.{ℕ, suc, ◌+◌, ◌-◌}
use mathlib.Core.Path.{◌≡◌, refl}
use mathlib.Core.Logic.{◌↔◌}
use mathlib.Core.Bool.{Bool, true, false}
use native.Mathlib.Omega.{arith}
use platform_system_libhidl.Prelude.Tests.{ltb, ◌==◌}

-- `negsuc n` is -(n + 1).
pub data ℤ : Type 0 where
  pos : ℕ → ℤ
  negsuc : ℕ → ℤ

abbrev pub pos_part : ℤ → ℕ
pos_part (pos n) = n
pos_part (negsuc n) = 0

abbrev pub neg_part : ℤ → ℕ
neg_part (pos n) = 0
neg_part (negsuc n) = suc n

abbrev pub ltb_ℤ : ℤ → ℤ → Bool
ltb_ℤ a b = ltb (pos_part a + neg_part b) (pos_part b + neg_part a)

abbrev pub eqb_ℤ : ℤ → ℤ → Bool
eqb_ℤ (pos a) (pos b) = a == b
eqb_ℤ (negsuc a) (negsuc b) = a == b
eqb_ℤ (pos a) (negsuc b) = false
eqb_ℤ (negsuc a) (pos b) = false

pub eqb_ℤ_iff : (a b : ℤ) → (eqb_ℤ a b ≡ true) ↔ (a ≡ b)
eqb_ℤ_iff (pos a) (pos b) = (λ h. ground arith, λ h. ground arith)
eqb_ℤ_iff (negsuc a) (negsuc b) = (λ h. ground arith, λ h. ground arith)
eqb_ℤ_iff (pos a) (negsuc b) = (λ h. cc, λ h. cc)
eqb_ℤ_iff (negsuc a) (pos b) = (λ h. cc, λ h. cc)

pub eqb_ℤ_refl : (a : ℤ) → eqb_ℤ a a ≡ true
eqb_ℤ_refl a = (eqb_ℤ_iff a a).1 refl

pub eqb_ℤ_comm : (a b : ℤ) → eqb_ℤ a b ≡ eqb_ℤ b a
eqb_ℤ_comm (pos a) (pos b) = ground arith
eqb_ℤ_comm (negsuc a) (negsuc b) = ground arith
eqb_ℤ_comm (pos a) (negsuc b) = refl
eqb_ℤ_comm (negsuc a) (pos b) = refl

-- m - n
abbrev pub difference : ℕ → ℕ → ℤ
difference m n = elim (ltb m n) [ true ↦ negsuc (n - suc m) | false ↦ pos (m - n) ]

infixl 6 ◌+ℤ◌
abbrev pub ◌+ℤ◌ : ℤ → ℤ → ℤ
a +ℤ b = difference (pos_part a + pos_part b) (neg_part a + neg_part b)

abbrev pub negate : ℤ → ℤ
negate a = difference (neg_part a) (pos_part a)
