-- ===== src/Tests/Mirrors.antt =====
-- An interface that keeps the obituaries that are registered, as its world.
use platform_system_libhidl.Status.Return.{of_value}
use platform_system_libhidl.Converter.{Obituary, HalBase, Converter}
use platform_system_libhidl.Converter.Obituaries.{Succeeds, obituary}
use platform_system_libhidl.Converter.Mirror.{
  Op, links, unlinks, same_obituary, has, meanings, run, run-IsMirrored,
}
use platform_system_libhidl.Converter.Deaths.{hearers, report, report-run}
use platform_system_libhidl.Tests.Codes.{linux_codes}
use platform_system_libhidl.Prelude.Eq.{nat_eq}
use platform_system_libhidl.Prelude.{
  Bool-cases, Option-cases, done, ℕ, refl, ap, inl, inr, true, false, Option, none, some, List, [],
  arith, ◌==◌, if◌then◌else◌, ◌≡◌, ◌∙◌, ◌∷◌, ◌++◌,
}

abbrev remove : Obituary ℕ → List (Obituary ℕ) → List (Obituary ℕ)
remove o [] = []
remove o (x ∷ xs) = if same_obituary o x then xs else x ∷ remove o xs

abbrev keeper : HalBase ℕ (List (Obituary ℕ))
keeper = record {
  link_to_death = λ o w. (of_value true, w ++ o ∷ []);
  unlink_to_death = λ o w. (of_value true, remove o w);
}

same_obituary_refl : (o : Obituary ℕ) → same_obituary o o ≡ true
same_obituary_refl o = elim (Option-cases o.recipient) [
  | inl e ↦ ground (arith, e)
  | inr (r, e) ↦ ground (arith, e)
]

remove-append :
    (o : Obituary ℕ) (before later : List (Obituary ℕ))
    → has o before ≡ false
    → remove o (before ++ o ∷ later) ≡ before ++ later
remove-append o [] later n = rw (same_obituary_refl o) refl
remove-append o (x ∷ before) later n = elim (Bool-cases (same_obituary o x)) [
  | inl s ↦ absurd (ground (arith, n, s))
  | inr s ↦ rw s (ap (λ l. x ∷ l) (remove-append o before later (ground (arith, n, s))))
]

keeps_links :
    (o : Obituary ℕ) (w : List (Obituary ℕ))
    → Succeeds (keeper.link_to_death o w).0 × ((keeper.link_to_death o w).1 ≡ w ++ o ∷ [])
unfolding of_value
keeps_links o w = ((refl, refl), refl)

keeps_unlinks :
    (o : Obituary ℕ) (before later w : List (Obituary ℕ))
    → w ≡ before ++ o ∷ later
    → has o before ≡ false
    → Succeeds (keeper.unlink_to_death o w).0 × ((keeper.unlink_to_death o w).1 ≡ before ++ later)
unfolding of_value
keeps_unlinks o before later w e n =
    ((refl, refl), ap (remove o) e ∙ remove-append o before later n)

abbrev none_yet : Converter ℕ (List (Obituary ℕ))
none_yet = record { obituaries = []; world = [] }

-- Recipient 5 is linked twice, with and without flags.
abbrev calls : List (Op ℕ)
calls = links 5 0 0 ∷ links 6 1 1 ∷ links 5 2 1 ∷ unlinks (some 5) 2 1 ∷ unlinks none 1 1 ∷ []

run-IsMirrored_example :
    (s' : Converter ℕ (List (Obituary ℕ))) × (run linux_codes keeper calls none_yet ≡ done s')
    × (s'.obituaries ≡ meanings calls [])
    × (s'.world ≡ s'.obituaries)
run-IsMirrored_example =
    run-IsMirrored linux_codes keeper (λ w. w) keeps_links keeps_unlinks calls none_yet refl

meanings_of_calls : meanings calls [] ≡ obituary 5 0 0 ∷ []
unfolding meanings
meanings_of_calls = refl

-- Recipient 6 does not exist any more.
abbrev living : ℕ → Option ℕ
living r = if r == 6 then none else some r

-- Recipient 5 is unlinked; 3 was linked with flags 0 and is still told.
abbrev links_only : List (Op ℕ)
links_only =
    links 5 0 1
    ∷ links 6 1 1
    ∷ links 4 2 1
    ∷ links 3 3 0
    ∷ unlinks (some 5) 0 1
    ∷ unlinks (some 3) 3 0
    ∷ []

report-run_example :
    (s' : Converter ℕ (List (Obituary ℕ))) × (run linux_codes keeper links_only none_yet ≡ done s')
    × (report living s'.world [] ≡ hearers living (meanings links_only []))
report-run_example =
    report-run living linux_codes keeper (λ w. w) keeps_links keeps_unlinks links_only none_yet refl

hearers_of_links : hearers living (meanings links_only []) ≡ 4 ∷ 3 ∷ []
unfolding meanings
hearers_of_links = refl
