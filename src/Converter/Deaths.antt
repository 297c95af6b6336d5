-- ===== src/Converter/Deaths.antt =====
-- The death of the wrapped interface: which recipients hear of it.
use platform_system_libhidl.Status.Codes.{StatusCodes}
use platform_system_libhidl.Converter.{Obituary, HalBase, Converter, service_died}
use platform_system_libhidl.Converter.Obituaries.{Succeeds}
use platform_system_libhidl.Converter.Mirror.{Op, has, meanings, run, run-IsMirrored}
use platform_system_libhidl.Prelude.Eq.{Eq}
use platform_system_libhidl.Prelude.{
  Option-cases, done, sym, ap, inl, inr, false, Option, none, some, List, [], append-nil,
  append_assoc, ◌≡◌, ◌∙◌, ◌∷◌, ◌++◌,
}

module _ {R P : Type 0} (living : R → Option P) where
  -- The recipients of obituaries that still exist, in order.
  abbrev pub hearers : List (Obituary R) → List P
  hearers [] = []
  hearers (o ∷ os) = elim o.recipient [
    | none ↦ hearers os
    | some r ↦ elim (living r) [ none ↦ hearers os | some dr ↦ dr ∷ hearers os ]
  ]

  -- The interface reports its death to each registered obituary; `told` are those who heard of it.
  unfoldable pub report : List (Obituary R) → List P → List P
  unfolding service_died
  report [] told = told
  report (o ∷ os) told = report os (service_died (λ r w. living r) (λ dr w. w ++ dr ∷ []) o told)

  report-hearers : (os : List (Obituary R)) (told : List P) → report os told ≡ told ++ hearers os
  unfolding report
  report-hearers [] told = sym (append-nil told)
  report-hearers (o ∷ os) told = elim (Option-cases o.recipient) [
    | inl e ↦ rw e (report-hearers os told)
    | inr (r, e) ↦ elim (Option-cases (living r)) [
      | inl d ↦ rw (e, d) (report-hearers os told)
      | inr (dr, d) ↦
          rw (e, d) (report-hearers os (told ++ dr ∷ []) ∙ append_assoc told (dr ∷ []) (hearers os))
    ]
  ]

module _ {R P W : Type 0} ⦃e : Eq R⦄ (living : R → Option P) (c : StatusCodes) (h : HalBase R W)
    (registered : W → List (Obituary R))
    (links_it : (o : Obituary R) (w : W)
      → Succeeds (h.link_to_death o w).0
        × (registered (h.link_to_death o w).1 ≡ registered w ++ o ∷ []))
    (unlinks_it : (o : Obituary R) (before after : List (Obituary R)) (w : W)
      → registered w ≡ before ++ o ∷ after
      → has o before ≡ false
      → Succeeds (h.unlink_to_death o w).0
        × (registered (h.unlink_to_death o w).1 ≡ before ++ after)) where
  -- If the wrapped interface registers what it is asked to and removes the first registration that
  -- is equal to the given one, then a program of calls of linkToDeath and unlinkToDeath runs to its
  -- end, and when the interface reports its death afterwards, exactly the recipients that are left
  -- linked and still exist are told, once for each link and in the order of the links. Each unlink
  -- takes away the first link that has flags other than 0 and is of the recipient given or, for a
  -- null recipient, has the cookie given or a null recipient; a link with flags 0 stays.
  pub report-run :
      (ops : List (Op R)) (s : Converter R W)
      → registered s.world ≡ s.obituaries
      → (s' : Converter R W) × (run c h ops s ≡ done s')
        × (report living (registered s'.world) [] ≡ hearers living (meanings ops s.obituaries))
  report-run ops s same =
      let (s', r, m, same') = run-IsMirrored c h registered links_it unlinks_it ops s same in
      (s', r, report-hearers living (registered s'.world) [] ∙ ap (hearers living) (same' ∙ m))
