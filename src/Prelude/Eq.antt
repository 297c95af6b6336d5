-- ===== src/Prelude/Eq.antt =====
-- The interface of types that the code compares by `==`.
use mathlib.Core.Path.{◌≡◌}
use mathlib.Core.Logic.{◌↔◌}
use mathlib.Core.Bool.{Bool, true}
use platform_system_libhidl.Prelude.Tests.{◌==◌, ==_iff}
use platform_system_libhidl.Prelude.Text.{Bytes, eqb_bytes, eqb_bytes_iff}
use Prim.Native.Nat.{ℕ}

pub record Eq {ℓ} (A : Type ℓ) : Type ℓ where
  pub beq : A → A → Bool
  pub beq_iff : (a b : A) → (beq a b ≡ true) ↔ (a ≡ b)

instance abbrev pub nat_eq : Eq ℕ
nat_eq = record { beq = ◌==◌; beq_iff = ==_iff }

instance abbrev pub bytes_eq : Eq Bytes
bytes_eq = record { beq = eqb_bytes; beq_iff = eqb_bytes_iff }
