-- ===== src/Prelude/Outcome.antt =====
-- How a piece of C++ ends: with a value, by `LOG(FATAL)` (which aborts the process), or in
-- undefined behaviour (a read through a dangling pointer, a double `delete[]`, a null dereference).
use mathlib.Core.Path.{◌≡◌, refl, ap}
use mathlib.Core.Bool.{Bool, true, false}

pub data Run {ℓ} (A : Type ℓ) : Type ℓ where
  done : A → Run A
  fatal : Run A
  fault : Run A

infixl 5 ◌>>=◌ ◌>>◌
abbrev pub ◌>>=◌ {ℓ κ} : {A : Type ℓ} {B : Type κ} → Run A → (A → Run B) → Run B
done a >>= f = f a
fatal >>= f = fatal
fault >>= f = fault

abbrev pub ◌>>◌ {ℓ} : {B : Type ℓ} → Run (Unit {0}) → Run B → Run B
m >> k = m >>= λ _. k

-- `if (bad) logAlwaysFatal(...)`
abbrev pub fatal_if : Bool → Run (Unit {0})
fatal_if true = fatal
fatal_if false = done tt

pub >>=-eq-done {ℓ κ} :
    {A : Type ℓ} {B : Type κ} (m : Run A) (f : A → Run B) {b : B}
    → (m >>= f) ≡ done b
    → (a : A) × (m ≡ done a) × (f a ≡ done b)
>>=-eq-done (done a) f h = (a, refl, h)
>>=-eq-done fatal f h = cc
>>=-eq-done fault f h = cc

pub done_inj {ℓ} : {A : Type ℓ} (a b : A) → done a ≡ done b → a ≡ b
done_inj a b h = ap (λ r. elim r [ done x ↦ x | _ ↦ a ]) h
