-- ===== src/Converter.antt =====
-- transport/token/1.0/utils/include/hidl/HybridInterface.h: `H2BConverter`, the binder object that
-- wraps a HIDL interface, and its death recipients. What the wrapped interface answers is the
-- parameter `HalBase`, over a world `W`.
pub mod Obituaries
pub mod Mirror
pub mod Deaths
use platform_system_libhidl.Status.Codes.{StatusCodes}
use platform_system_libhidl.Status.Return
use platform_system_libhidl.Status.Return.{Return}
use platform_system_libhidl.Token
use platform_system_libhidl.Token.{TokenService, TokenState}
use platform_system_libhidl.Prelude.Eq.{Eq}
use platform_system_libhidl.Prelude.{
  ℤ, Run, done, fatal, ℕ, Bool, true, false, not, Option, none, some, List, [], ◌==◌, if◌then◌else◌,
  ◌&&◌, ◌||◌, ◌∷◌, ◌++◌, ◌>>=◌, ◌>>◌,
}

-- A weak reference to a recipient `R` may be null. `who` is the converter itself.
pub record Obituary (R : Type 0) : Type 0 where
  pub recipient : Option R
  pub cookie : ℕ
  pub flags : ℕ

pub record HalBase (R W : Type 0) : Type 0 where
  pub link_to_death : Obituary R → W → Return Bool × W
  pub unlink_to_death : Obituary R → W → Return Bool × W

pub record Converter (R W : Type 0) : Type 0 where
  pub obituaries : List (Obituary R)
  pub world : W

module _ {R : Type 0} ⦃e : Eq R⦄ where
  abbrev pub same_recipient : Option R → Option R → Bool
  same_recipient none none = true
  same_recipient none (some b) = false
  same_recipient (some a) none = false
  same_recipient (some a) (some b) = e.beq a b

  -- The test of the loop in unlinkToDeath. `flags = (*i)->flags` is an assignment, so the first
  -- part asks whether the obituary's own flags are set; the caller's flags are not compared.
  abbrev pub matches : Option R → ℕ → Obituary R → Bool
  matches recipient cookie o =
      not (o.flags == 0)
      && (same_recipient recipient o.recipient
          || (same_recipient recipient none && (cookie == o.cookie)))

module _ {R W : Type 0} ⦃e : Eq R⦄ (c : StatusCodes) (h : HalBase R W) where
  -- linkToDeath: a null recipient aborts. `!mBase->linkToDeath(...)` casts the transaction to bool,
  -- and that aborts if it failed.
  unfoldable pub link_to_death : Option R → ℕ → ℕ → Converter R W → Run (ℤ × Converter R W)
  unfolding Return.value
  link_to_death none cookie flags s = fatal
  link_to_death (some r) cookie flags s =
      let o : Obituary R = record { recipient = some r; cookie = cookie; flags = flags } in
      let (ret, w) = h.link_to_death o s.world in
      do
        (linked, ret') ← Return.value ret
        done (
          if linked then c.no_error else c.dead_object,
          record { obituaries = s.obituaries ++ o ∷ []; world = w },
        )

  -- The loop of unlinkToDeath behind the obituaries `passed`: the status, what *outRecipient is set
  -- to, and the converter.
  unlink_loop :
      Option R
      → ℕ
      → List (Obituary R)
      → List (Obituary R)
      → W
      → Run (ℤ × Option (Option R) × Converter R W)
  unfolding Return.value
  unlink_loop recipient cookie passed [] w =
      done (c.name_not_found, none, record { obituaries = passed; world = w })
  unlink_loop recipient cookie passed (o ∷ rest) w =
      let later = unlink_loop recipient cookie (passed ++ o ∷ []) rest w in
      let (ret, w') = h.unlink_to_death o w in
      let found : Run (ℤ × Option (Option R) × Converter R W) = do
        (success, ret') ← Return.value ret
        done (
          if success then c.no_error else c.dead_object,
          some o.recipient,
          record { obituaries = passed ++ rest; world = w' },
        )
      in if matches recipient cookie o then found else later

  unfoldable pub unlink_to_death :
      Option R → ℕ → ℕ → Converter R W → Run (ℤ × Option (Option R) × Converter R W)
  unfolding unlink_loop
  unlink_to_death recipient cookie flags s = unlink_loop recipient cookie [] s.obituaries s.world

-- Obituary::serviceDied: `promote` gives the recipient if it still exists, and `binder_died` tells
-- it that the converter is dead.
module _ {R P W : Type 0} (promote : R → W → Option P) (binder_died : P → W → W) where
  promoted : Option P → W → W
  promoted none w = w
  promoted (some dr) w = binder_died dr w

  unfoldable pub service_died : Obituary R → W → W
  unfolding promoted
  service_died o w = elim o.recipient [ none ↦ w | some r ↦ promoted (promote r w) w ]
