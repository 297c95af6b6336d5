-- ===== src/Strings/Moved.antt =====
-- Many hidl_strings over one memory: an object that owns nothing takes over what another one holds.
use platform_system_libhidl.Blocks.{Heap}
use platform_system_libhidl.Strings.{HidlString, empty_string}
use platform_system_libhidl.Strings.Assign.{Holds, owns_block}
use platform_system_libhidl.Strings.Good.{IsClient, Good, kept}
use platform_system_libhidl.Prelude.{
  ==_iff, ==_refl, put, at_other, at_this, away, place, true-false, Bytes, ℕ, refl, sym, inl, inr,
  true, false, none, [], arith, ◌==◌, ◌≡◌, ◌∙◌, ◌⊎◌,
}

module _ (k : ℕ) (h0 : Heap ℕ) (client : IsClient k h0) (h : Heap ℕ) (f : ℕ → HidlString)
    (t : ℕ → Bytes) (good : Good k h0 h f t) (i j : ℕ) (two : (i == j) ≡ false)
    (idle : (p : ℕ) → owns_block k (f i) p ≡ false) where
  abbrev after : ℕ → HidlString
  after = put (put f i (f j)) j (empty_string k)

  abbrev texts : ℕ → Bytes
  texts = put (put t i (t j)) j []

  pub not_static : (x : ℕ) → owns_block k (f x) k ≡ false
  not_static x = ground arith

  after-Holds : (x : ℕ) → Holds h (after x) (texts x)
  after-Holds x = elim (place i j x) [
    | at_other s ↦
        rw s
          (record { size = refl; rest = []; block = kept k h0 client h f t good k _ client.static })
    | at_this s d ↦ rw (d, s) (good.holds j)
    | away d' d ↦ rw (d, d') (good.holds x)
  ]

  after-new : (x p : ℕ) → owns_block k (after x) p ≡ true → (h0.cell p ≡ none) × ((p == 0) ≡ false)
  after-new x p o = elim (place i j x) [
    | at_other s ↦ absurd (true-false (sym (rw s at o)))
    | at_this s d ↦ good.new j p (rw (d, s) at o)
    | away d' d ↦ good.new x p (rw (d, d') at o)
  ]

  after-apart : (x y : ℕ) → (x == y) ≡ false → owns_block k (after x) (after y).buffer ≡ false
  after-apart x y d = elim (place i j x) [
    | at_other s ↦ rw s refl
    | at_this s e ↦ elim (place i j y) [
      | at_other s' ↦ rw (e, s, s') (not_static j)
      | at_this s' e' ↦ absurd (ground (arith, s, s', d))
      | away e'' e' ↦ rw (e, s, e', e'') (good.apart j y e')
    ]
    | away e e' ↦ elim (place i j y) [
      | at_other s' ↦ rw (e', e, s') (not_static x)
      | at_this s' e'' ↦ rw (e', e, e'', s') (good.apart x j (ground (arith, e')))
      | away e'' e''' ↦ rw (e', e, e''', e'') (good.apart x y d)
    ]
  ]

  owner : (y x p : ℕ) → (y == x) ≡ true → owns_block k (f x) p ≡ true → owns_block k (f y) p ≡ true
  owner y x p s o = rw ((==_iff y x).0 s) o

  after-others : (p : ℕ) → (h.cell p ≡ h0.cell p) ⊎ ((x : ℕ) × (owns_block k (after x) p ≡ true))
  after-others p = elim (good.others p) [
    | inl same ↦ inl same
    | inr (x, o) ↦ elim (place i j x) [
      | at_other s ↦
          let back : (j == i) ≡ false = ground (arith, two) in
          inr (i, rw (back, ==_refl i) (owner j x p s o))
      | at_this s d ↦ absurd (true-false (sym (owner i x p s o) ∙ idle p))
      | away d' d ↦ inr (x, rw (d, d') o)
    ]
  ]

  pub move-Good : Good k h0 h after texts
  move-Good = record {
    heap = good.heap;
    holds = after-Holds;
    short = λ x. ground (arith, good.short x, good.short j);
    new = after-new;
    apart = after-apart;
    others = after-others;
  }
