-- ===== src/Converter/Obituaries.antt =====
-- Linking and unlinking death recipients of a converter.
use platform_system_libhidl.Status.Codes.{StatusCodes}
use platform_system_libhidl.Status.{is_ok}
use platform_system_libhidl.Status.Return.{Return}
use platform_system_libhidl.Converter.{
  Obituary, HalBase, Converter, matches, link_to_death, unlink_loop, unlink_to_death,
}
use platform_system_libhidl.Prelude.Eq.{Eq}
use platform_system_libhidl.Prelude.{
  set, done, ℕ, sym, ap, Bool, true, false, Option, none, some, List, [], append-nil, append_assoc,
  arith, ◌≡◌, ◌∙◌, ◌≢◌, ◌∷◌, ◌++◌,
}

module _ {R : Type 0} ⦃e : Eq R⦄ where
  -- No obituary of the list is found by the test of unlinkToDeath.
  abbrev pub NoneMatches : Option R → ℕ → List (Obituary R) → Type 0
  NoneMatches recipient cookie [] = Unit
  NoneMatches recipient cookie (o ∷ os) =
      (matches recipient cookie o ≡ false) × NoneMatches recipient cookie os

  abbrev pub AllZeroFlags : List (Obituary R) → Type 0
  AllZeroFlags [] = Unit
  AllZeroFlags (o ∷ os) = (o.flags ≡ 0) × AllZeroFlags os

  zero_flags-NoneMatches :
      (recipient : Option R) (cookie : ℕ) (os : List (Obituary R))
      → AllZeroFlags os
      → NoneMatches recipient cookie os
  zero_flags-NoneMatches recipient cookie [] z = z
  zero_flags-NoneMatches recipient cookie (o ∷ os) z =
      (ground (arith, z.0), zero_flags-NoneMatches recipient cookie os z.1)

module _ {R W : Type 0} ⦃e : Eq R⦄ (c : StatusCodes) (h : HalBase R W) where
  unlink_loop-NoneMatches :
      (recipient : Option R) (cookie : ℕ) (passed os rest : List (Obituary R)) (w : W)
      → NoneMatches recipient cookie os
      → unlink_loop c h recipient cookie passed (os ++ rest) w
        ≡ unlink_loop c h recipient cookie (passed ++ os) rest w
  unfolding unlink_loop
  unlink_loop-NoneMatches recipient cookie passed [] rest w n =
      ap (λ p. unlink_loop c h recipient cookie p rest w) (sym (append-nil passed))
  unlink_loop-NoneMatches recipient cookie passed (o ∷ os) rest w n = rw n.0 (
      unlink_loop-NoneMatches recipient cookie (passed ++ o ∷ []) os rest w n.1
      ∙ ap (λ p. unlink_loop c h recipient cookie p rest w) (append_assoc passed (o ∷ []) os))

  -- Obituaries that were linked with flags 0, the default, cannot be unlinked: whatever recipient,
  -- cookie and flags are asked for, unlinkToDeath finds none and changes nothing.
  pub unlink_zero_flags :
      (recipient : Option R) (cookie flags : ℕ) (s : Converter R W)
      → AllZeroFlags s.obituaries
      → unlink_to_death c h recipient cookie flags s ≡ done (c.name_not_found, none, s)
  unfolding unlink_to_death
  unlink_zero_flags recipient cookie flags s z =
      ap (λ os. unlink_loop c h recipient cookie [] os s.world) (sym (append-nil s.obituaries))
      ∙ unlink_loop-NoneMatches recipient cookie [] s.obituaries [] s.world
          (zero_flags-NoneMatches recipient cookie s.obituaries z)

-- The remote call went through, and the service agreed.
abbrev pub Succeeds : Return Bool → Type 0
Succeeds ret = (is_ok ret.status ≡ true) × (ret.val ≡ true)

abbrev pub obituary : {R : Type 0} → R → ℕ → ℕ → Obituary R
obituary r cookie flags = record { recipient = some r; cookie = cookie; flags = flags }

module _ {R W : Type 0} ⦃e : Eq R⦄ (c : StatusCodes) (h : HalBase R W) (r : R) (cookie flags : ℕ)
    (s : Converter R W) where
  -- The converter once the obituary is linked.
  abbrev linked : Converter R W
  linked = record {
    obituaries = s.obituaries ++ obituary r cookie flags ∷ [];
    world = (h.link_to_death (obituary r cookie flags) s.world).1;
  }

  -- If the recipient matches no earlier obituary, and both remote calls succeed, then linking it
  -- with flags that are not 0 and unlinking it returns NO_ERROR twice, hands out the recipient and
  -- restores the list of obituaries.
  unlink-link :
      flags ≢ 0
      → NoneMatches (some r) cookie s.obituaries
      → Succeeds (h.link_to_death (obituary r cookie flags) s.world).0
      → Succeeds (h.unlink_to_death (obituary r cookie flags) linked.world).0
      → (link_to_death c h (some r) cookie flags s ≡ done (c.no_error, linked))
        × (unlink_to_death c h (some r) cookie flags linked
            ≡ done (
              c.no_error,
              some (some r),
              record {
                obituaries = s.obituaries;
                world = (h.unlink_to_death (obituary r cookie flags) linked.world).1;
              },
            ))
  unfolding link_to_death unlink_to_death
  unlink-link set none_before link_fine unlink_fine = (
    ground arith,
    unlink_loop-NoneMatches c h (some r) cookie [] s.obituaries (obituary r cookie flags ∷ [])
          linked.world none_before
        ∙ rw append-nil (ground (arith, e.beq_iff r r, append-nil s.obituaries)),
  )
