-- ===== src/Converter/Mirror.antt =====
-- Programs that link and unlink recipients: the converter's list is what the wrapped interface has
-- registered.
use platform_system_libhidl.Status.Codes.{StatusCodes}
use platform_system_libhidl.Converter.{
  Obituary, HalBase, Converter, same_recipient, matches, link_to_death, unlink_loop,
  unlink_to_death,
}
use platform_system_libhidl.Converter.Obituaries.{Succeeds, NoneMatches, obituary}
use platform_system_libhidl.Prelude.Eq.{Eq}
use platform_system_libhidl.Prelude.{
  Bool-cases, Option-cases, true-false, ℤ, Run, done, ℕ, refl, sym, ap, inl, inr, Bool, true, false,
  Option, none, some, List, [], append-nil, append_assoc, arith, ◌==◌, if◌then◌else◌, ◌>>=◌, ◌≡◌,
  ◌∙◌, ◌&&◌, ◌||◌, ◌∷◌, ◌++◌,
}

-- A call of the converter. Recipients that are linked are not null.
pub data Op (R : Type 0) : Type 0 where
  links : R → (cookie flags : ℕ) → Op R
  unlinks : Option R → (cookie flags : ℕ) → Op R

module _ {R : Type 0} ⦃e : Eq R⦄ where
  abbrev pub same_obituary : Obituary R → Obituary R → Bool
  same_obituary a b =
      same_recipient a.recipient b.recipient && (a.cookie == b.cookie && a.flags == b.flags)

  abbrev pub has : Obituary R → List (Obituary R) → Bool
  has o [] = false
  has o (x ∷ xs) = same_obituary o x || has o xs

  -- Is the obituary one that unlinkToDeath is meant to remove? With a recipient it is an obituary
  -- of this recipient, with a null one an obituary with the cookie, or of a null recipient. The
  -- code never finds an obituary whose flags are 0.
  abbrev pub is_meant : Option R → ℕ → Obituary R → Bool
  is_meant (some r) cookie o =
      if o.flags == 0 then false else elim o.recipient [ none ↦ false | some x ↦ e.beq r x ]
  is_meant none cookie o =
      if o.flags == 0 then false else elim o.recipient [ none ↦ true | some x ↦ cookie == o.cookie ]

  matches-is_meant :
      (recipient : Option R) (cookie : ℕ) (o : Obituary R)
      → matches recipient cookie o ≡ is_meant recipient cookie o
  matches-is_meant none cookie o = elim (Option-cases o.recipient) [
    | inl q ↦ ground (arith, q)
    | inr (x, q) ↦ ground (arith, q)
  ]
  matches-is_meant (some r) cookie o = elim (Option-cases o.recipient) [
    | inl q ↦ ground (arith, q)
    | inr (x, q) ↦ ground (arith, q)
  ]

  -- The list without the first obituary that is meant.
  unfoldable pub without : Option R → ℕ → List (Obituary R) → List (Obituary R)
  without recipient cookie [] = []
  without recipient cookie (o ∷ os) =
      if is_meant recipient cookie o then os else o ∷ without recipient cookie os

  -- The obituaries after a call.
  unfoldable pub meaning : Op R → List (Obituary R) → List (Obituary R)
  unfolding without
  meaning (links r cookie flags) os = os ++ obituary r cookie flags ∷ []
  meaning (unlinks recipient cookie flags) os = without recipient cookie os

  unfoldable pub meanings : List (Op R) → List (Obituary R) → List (Obituary R)
  unfolding meaning
  meanings [] os = os
  meanings (a ∷ later) os = meanings later (meaning a os)

  same_recipient_eq : (a b : Option R) → same_recipient a b ≡ true → a ≡ b
  same_recipient_eq none none h = refl
  same_recipient_eq none (some b) h = cc
  same_recipient_eq (some a) none h = cc
  same_recipient_eq (some a) (some b) h = ap some ((e.beq_iff a b).0 h)

  same_matches :
      (recipient : Option R) (cookie : ℕ) (o x : Obituary R)
      → same_obituary o x ≡ true
      → matches recipient cookie o ≡ matches recipient cookie x
  same_matches recipient cookie o x s =
      let q : o.recipient ≡ x.recipient =
        same_recipient_eq o.recipient x.recipient (ground (arith, s)) in
      let q' : o.cookie ≡ x.cookie = ground (arith, s) in
      let q'' : o.flags ≡ x.flags = ground (arith, s) in rw (q, q', q'') refl

  -- An obituary that is found is none of those before it, which are not found.
  not_before :
      (recipient : Option R) (cookie : ℕ) (o : Obituary R) (os : List (Obituary R))
      → matches recipient cookie o ≡ true
      → NoneMatches recipient cookie os
      → has o os ≡ false
  not_before recipient cookie o [] m n = refl
  not_before recipient cookie o (x ∷ os) m (d, n) = elim (Bool-cases (same_obituary o x)) [
    | inl s ↦ absurd (true-false (sym m ∙ same_matches recipient cookie o x s ∙ d))
    | inr s ↦ rw s (not_before recipient cookie o os m n)
  ]

  NoneMatches-snoc :
      (recipient : Option R) (cookie : ℕ) (o : Obituary R) (os : List (Obituary R))
      → NoneMatches recipient cookie os
      → matches recipient cookie o ≡ false
      → NoneMatches recipient cookie (os ++ o ∷ [])
  NoneMatches-snoc recipient cookie o [] n d = (d, tt)
  NoneMatches-snoc recipient cookie o (x ∷ os) (d', n) d =
      (d', NoneMatches-snoc recipient cookie o os n d)

module _ {R W : Type 0} ⦃e : Eq R⦄ (c : StatusCodes) (h : HalBase R W) where
  unfoldable pub perform : Op R → Converter R W → Run (Converter R W)
  unfolding link_to_death unlink_to_death
  perform (links r cookie flags) s = link_to_death c h (some r) cookie flags s >>= λ r. done r.1
  perform (unlinks recipient cookie flags) s =
      unlink_to_death c h recipient cookie flags s >>= λ r. done r.2

  unfoldable pub run : List (Op R) → Converter R W → Run (Converter R W)
  unfolding perform
  run [] s = done s
  run (a ∷ later) s = perform a s >>= run later

module _ {R W : Type 0} ⦃e : Eq R⦄ (c : StatusCodes) (h : HalBase R W)
    (registered : W → List (Obituary R))
    (links_it : (o : Obituary R) (w : W)
      → Succeeds (h.link_to_death o w).0
        × (registered (h.link_to_death o w).1 ≡ registered w ++ o ∷ []))
    (unlinks_it : (o : Obituary R) (before after : List (Obituary R)) (w : W)
      → registered w ≡ before ++ o ∷ after
      → has o before ≡ false
      → Succeeds (h.unlink_to_death o w).0
        × (registered (h.unlink_to_death o w).1 ≡ before ++ after)) where
  unlink_loop-without :
      (recipient : Option R) (cookie : ℕ) (passed os : List (Obituary R)) (w : W)
      → registered w ≡ passed ++ os
      → NoneMatches recipient cookie passed
      → (status : ℤ) × (out : Option (Option R)) × (w' : W) × (unlink_loop c h recipient cookie
            passed os w
          ≡ done (
            status,
            out,
            record { obituaries = passed ++ without recipient cookie os; world = w' },
          ))
        × (registered w' ≡ passed ++ without recipient cookie os)
  unfolding unlink_loop without
  unlink_loop-without recipient cookie passed [] w r n =
      (c.name_not_found, none, w, rw append-nil refl, r)
  unlink_loop-without recipient cookie passed (o ∷ os) w r n =
      let same = matches-is_meant recipient cookie o in
      elim (Bool-cases (is_meant recipient cookie o)) [
        | inl m ↦
            let (fine, after) =
              unlinks_it o passed os w r (not_before recipient cookie o passed (same ∙ m) n) in
            (
              c.no_error,
              some o.recipient,
              (h.unlink_to_death o w).1,
              rw (same, m, fine.0, fine.1) refl,
              rw m after,
            )
        | inr d ↦
            let (status, out, w', q, r') =
              unlink_loop-without recipient cookie (passed ++ o ∷ []) os w
                (r ∙ sym (append_assoc passed (o ∷ []) os))
                (NoneMatches-snoc recipient cookie o passed n (same ∙ d)) in
            (
              status,
              out,
              w',
              rw (same, d)
                  (q
                    ∙ ap (λ l. done (status, out, record { obituaries = l; world = w' }))
                        (append_assoc passed (o ∷ []) (without recipient cookie os))),
              rw d (r' ∙ append_assoc passed (o ∷ []) (without recipient cookie os)),
            )
      ]

  -- The obituaries of the converter are those that the interface has registered.
  abbrev pub IsMirrored : Converter R W → Type 0
  IsMirrored s = registered s.world ≡ s.obituaries

  perform-IsMirrored :
      (a : Op R) (s : Converter R W)
      → IsMirrored s
      → (s' : Converter R W) × (perform c h a s ≡ done s')
        × (s'.obituaries ≡ meaning a s.obituaries)
        × IsMirrored s'
  unfolding perform meaning link_to_death unlink_to_death
  perform-IsMirrored (links r cookie flags) s same =
      let o = obituary r cookie flags in
      let (fine, after) = links_it o s.world in
      (
        record { obituaries = s.obituaries ++ o ∷ []; world = (h.link_to_death o s.world).1 },
        ground (arith, fine.0, fine.1),
        refl,
        after ∙ ap (λ l. l ++ o ∷ []) same,
      )
  perform-IsMirrored (unlinks recipient cookie flags) s same =
      let (status, out, w', q, r) =
        unlink_loop-without recipient cookie [] s.obituaries s.world same tt in
      (
        record { obituaries = without recipient cookie s.obituaries; world = w' },
        rw q refl,
        refl,
        r,
      )

  -- If the wrapped interface registers what it is asked to and removes the first registration that
  -- is equal to the given one, then every program of calls of linkToDeath, with recipients that are
  -- not null, and of unlinkToDeath runs to its end. The converter's obituaries are then what is
  -- left when each link adds one at the end and each unlink takes away the first one that has flags
  -- other than 0 and is of the recipient given or, for a null recipient, has the cookie given or a
  -- null recipient; an obituary with flags 0 stays. The interface has registered exactly these, in
  -- this order.
  pub run-IsMirrored :
      (ops : List (Op R)) (s : Converter R W)
      → IsMirrored s
      → (s' : Converter R W) × (run c h ops s ≡ done s')
        × (s'.obituaries ≡ meanings ops s.obituaries)
        × IsMirrored s'
  unfolding run meanings
  run-IsMirrored [] s same = (s, refl, refl, same)
  run-IsMirrored (a ∷ later) s same =
      let (s1, q, m, same1) = perform-IsMirrored a s same in
      let (s2, q', m', same2) = run-IsMirrored later s1 same1 in
      (s2, rw (run, q) q', m' ∙ ap (meanings later) m, same2)
