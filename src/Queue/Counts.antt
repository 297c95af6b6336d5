-- ===== src/Queue/Counts.antt =====
-- Threads counted by their phases.
use platform_system_libhidl.Queue.Threads.{Phase, outside, notifying, sleeping, woken, busy}
use platform_system_libhidl.Prelude.{
  ltb, ltb→lt, ==_iff, Bool-cases, get_elem?, set, replicate, total, total-set, get_elem?-set_other,
  ℕ, zero, suc, refl, sym, inl, inr, true, false, some, List, [], arith, ◌==◌, ◌+◌, ◌<◌, ◌≡◌, ◌∙◌,
  ◌⊎◌, ◌∷◌,
}

same_phase :
    (ps : List Phase) (i j : ℕ)
    → (i == j) ≡ true
    → get_elem? ps i ≡ some notifying
    → get_elem? ps j ≡ some sleeping
    → ⊥
same_phase ps i j h e f =
    let k : i ≡ j = (==_iff i j).0 h in
    let e' : get_elem? ps j ≡ some notifying = rw (sym k) e in cc

-- A thread that notifies and a blocked one change their phases.
pub total-notify :
    (weight : Phase → ℕ) (ps : List Phase) (i j : ℕ)
    → get_elem? ps i ≡ some notifying
    → get_elem? ps j ≡ some sleeping
    → total weight (set (set ps i outside) j woken) + (weight notifying + weight sleeping)
      ≡ total weight ps + (weight outside + weight woken)
total-notify weight ps i j e f =
    let apart : (i == j) ≡ false = elim (Bool-cases (i == j)) [
      | inl same ↦ absurd (same_phase ps i j same e f)
      | inr other ↦ other
    ] in
    omega (
      arith,
      total-set weight ps i notifying outside e,
      total-set weight (set ps i outside) j sleeping woken
          (get_elem?-set_other ps i j outside apart ∙ f),
    )

-- A thread of a phase that weighs one is counted, and one that is counted is found.
pub total-find :
    (weight : Phase → ℕ) (ps : List Phase)
    → 0 < total weight ps
    → (i : ℕ) × (p : Phase) × (get_elem? ps i ≡ some p) × (0 < weight p)
total-find weight [] h = absurd (omega arith)
total-find weight (p ∷ ps) h = elim (Bool-cases (ltb 0 (weight p))) [
  | inl here ↦ (0, p, refl, ltb→lt 0 (weight p) here)
  | inr not_here ↦ let (i, q, e, l) = total-find weight ps (ground arith) in (suc i, q, e, l)
]

pub total-outside :
    (weight : Phase → ℕ) (k : ℕ) → weight outside ≡ 0 → total weight (replicate k outside) ≡ 0
total-outside weight zero e = refl
total-outside weight (suc k) e = omega (arith, e, total-outside weight k e)

pub busy_cases : (p : Phase) → 0 < busy p → (p ≡ notifying) ⊎ (p ≡ woken)
busy_cases outside h = absurd (omega arith)
busy_cases notifying h = inl refl
busy_cases sleeping h = absurd (omega arith)
busy_cases woken h = inr refl
