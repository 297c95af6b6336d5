-- ===== src/Prelude/Family.antt =====
-- Families indexed by number, with single members replaced.
use Prim.Native.Nat.{ℕ}
use mathlib.Core.Path.{◌≡◌, fun_ext}
use mathlib.Core.Logic.{inl, inr}
use mathlib.Core.Bool.{true, false}
use native.Mathlib.Omega.{arith}
use platform_system_libhidl.Prelude.Tests.{◌==◌, Bool-cases, if◌then◌else◌}

abbrev pub put {ℓ} : {A : Type ℓ} → (ℕ → A) → ℕ → A → ℕ → A
put f i a j = if i == j then a else f j

-- Member `i` is replaced by `e` and then by member `j`, which becomes `e'`.
pub put-moved {ℓ} :
    {A : Type ℓ} (f : ℕ → A) (i j : ℕ) (e e' : A)
    → (i == j) ≡ false
    → put (put (put f i e) i (put f i e j)) j e' ≡ put (put f i (f j)) j e'
put-moved f i j e e' two = fun_ext λ x. ground (arith, two)

-- Whether `x` is `j`, is `i`, or neither.
pub data Place (i j x : ℕ) : Type 0 where
  at_other : (j == x) ≡ true → Place i j x
  at_this : (i == x) ≡ true → (j == x) ≡ false → Place i j x
  away : (i == x) ≡ false → (j == x) ≡ false → Place i j x

pub place : (i j x : ℕ) → Place i j x
place i j x = elim (Bool-cases (j == x)) [
  | inl same ↦ at_other same
  | inr d ↦ elim (Bool-cases (i == x)) [ inl same ↦ at_this same d | inr d' ↦ away d' d ]
]
