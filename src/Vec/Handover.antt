-- ===== src/Vec/Handover.antt =====
-- Many hidl_vecs over one memory: a vector that owns nothing takes over the buffer of another one,
-- which keeps looking at it.
use platform_system_libhidl.Blocks.{Heap}
use platform_system_libhidl.Vec.{HidlVec, uint32_max}
use platform_system_libhidl.Vec.Content.{Holds}
use platform_system_libhidl.Vec.Assign.{owns_block}
use platform_system_libhidl.Vec.Good.{Good}
use platform_system_libhidl.Prelude.{
  ==_iff, ==_refl, is_some, length, put, at_other, at_this, away, place, none-some, true-false, ℕ,
  refl, sym, inl, inr, true, false, Option, none, some, List, arith, ◌==◌, ◌≤◌, ◌≡◌, ◌∙◌, ◌⊎◌, ◌||◌,
}

module _ {T : Type 0} (h0 h : Heap T) (f : ℕ → HidlVec) (t : ℕ → Option (List T))
    (good : Good h0 h f t) (i j : ℕ) (two : (i == j) ≡ false)
    (free : (p : ℕ) → owns_block (f i) p ≡ false) where
  abbrev after : ℕ → HidlVec
  after = put (put f i (f j)) j (record (f j) { owns = false })

  abbrev lists : ℕ → Option (List T)
  lists = put (put t i (t j)) j none

  -- What holds of object `j` and of the others, holds of the objects afterwards.
  after-all :
      (Q : HidlVec → Option (List T) → Type 0)
      → Q (record (f j) { owns = false }) none
      → ((x : ℕ) → Q (f x) (t x))
      → (x : ℕ) → Q (after x) (lists x)
  after-all Q released all x = elim (place i j x) [
    | at_other s ↦ rw s released
    | at_this s d ↦ rw (d, s) (all j)
    | away d' d ↦ rw (d, d') (all x)
  ]

  after-apart :
      (x y : ℕ) (ys : List T)
      → (x == y) ≡ false
      → lists y ≡ some ys
      → owns_block (after x) (after y).buffer ≡ false
  after-apart x y ys d e = elim (place i j x) [
    | at_other s ↦ rw s refl
    | at_this s c ↦ elim (place i j y) [
      | at_other s' ↦ absurd (none-some (rw s' at e))
      | at_this s' c' ↦ absurd (ground (arith, s, s', d))
      | away c'' c' ↦ rw (c, s, c', c'') (good.apart j y ys c' (rw (c', c'') at e))
    ]
    | away c c' ↦ elim (place i j y) [
      | at_other s' ↦ absurd (none-some (rw s' at e))
      | at_this s' c'' ↦
          rw (c', c, c'', s') (good.apart x j ys (ground (arith, c')) (rw (c'', s') at e))
      | away c'' c''' ↦ rw (c', c, c''', c'') (good.apart x y ys d (rw (c''', c'') at e))
    ]
  ]

  owner : (y x p : ℕ) → (y == x) ≡ true → owns_block (f x) p ≡ true → owns_block (f y) p ≡ true
  owner y x p s o = rw ((==_iff y x).0 s) o

  after-others : (p : ℕ) → (h.cell p ≡ h0.cell p) ⊎ ((x : ℕ) × (owns_block (after x) p ≡ true))
  after-others p = elim (good.others p) [
    | inl same ↦ inl same
    | inr (x, o) ↦ elim (place i j x) [
      | at_other s ↦
          let back : (j == i) ≡ false = ground (arith, two) in
          inr (i, rw (back, ==_refl i) (owner j x p s o))
      | at_this s d ↦ absurd (true-false (sym (owner i x p s o) ∙ free p))
      | away d' d ↦ inr (x, rw (d, d') o)
    ]
  ]

  pub handover-Good : Good h0 h after lists
  handover-Good = record {
    heap = good.heap;
    holds =
        after-all (λ v l. (ys : List T) → l ≡ some ys → Holds h v ys) (λ ys e. absurd (none-some e))
          good.holds;
    short =
        after-all (λ v l. (ys : List T) → l ≡ some ys → length ys ≤ uint32_max)
          (λ ys e. absurd (none-some e)) good.short;
    placed =
        after-all
          (λ v l. (ys : List T) → l ≡ some ys → (v.buffer == 0 || is_some (h.cell v.buffer)) ≡ true)
          (λ ys e. absurd (none-some e)) good.placed;
    idle = after-all (λ v l. (p : ℕ) → l ≡ none → owns_block v p ≡ false) (λ p e. refl) good.idle;
    alive =
        after-all (λ v l. (p : ℕ) → owns_block v p ≡ true → is_some (h.cell p) ≡ true)
          (λ p o. absurd (true-false (sym o))) good.alive;
    new =
        after-all (λ v l. (p : ℕ) → owns_block v p ≡ true → h0.cell p ≡ none)
          (λ p o. absurd (true-false (sym o))) good.new;
    apart = after-apart;
    others = after-others;
  }
