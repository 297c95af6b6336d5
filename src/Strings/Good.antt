-- ===== src/Strings/Good.antt =====
-- Many hidl_strings over one memory: who owns which block, and the steps that keep it so.
use platform_system_libhidl.Blocks.{Heap}
use platform_system_libhidl.Vec.{uint32_max}
use platform_system_libhidl.Vec.Content.{IsHeap}
use platform_system_libhidl.Strings.{HidlString}
use platform_system_libhidl.Strings.Assign.{Holds, owns_block, CanFree}
use platform_system_libhidl.Prelude.{
  ==_iff, ==_refl, Bool-cases, is_some, length, put, none-some, true-false, Bytes, ℕ, sym, inl, inr,
  true, false, none, some, [], arith, ◌==◌, if◌then◌else◌, ◌≤◌, ◌≡◌, ◌∙◌, ◌⊎◌, ◌∷◌,
}

-- `h0` is the memory of the client, with the static empty string in block `k`.
pub record IsClient (k : ℕ) (h0 : Heap ℕ) : Type 0 where
  pub static : h0.cell k ≡ some (0 ∷ [])
  pub null : h0.cell 0 ≡ none

-- The objects `f` over the memory `h` stand for the texts `t`. No block is owned by one object and
-- looked at by another; what is not owned is as in the client's memory.
pub record Good (k : ℕ) (h0 h : Heap ℕ) (f : ℕ → HidlString) (t : ℕ → Bytes) : Type 0 where
  pub heap : IsHeap h
  pub holds : (i : ℕ) → Holds h (f i) (t i)
  pub short : (i : ℕ) → length (t i) ≤ uint32_max
  pub new : (i p : ℕ) → owns_block k (f i) p ≡ true → (h0.cell p ≡ none) × ((p == 0) ≡ false)
  pub apart : (i j : ℕ) → (i == j) ≡ false → owns_block k (f i) (f j).buffer ≡ false
  pub others : (p : ℕ) → (h.cell p ≡ h0.cell p) ⊎ ((i : ℕ) × (owns_block k (f i) p ≡ true))

module _ (k : ℕ) (h0 : Heap ℕ) (client : IsClient k h0) (h : Heap ℕ) (f : ℕ → HidlString)
    (t : ℕ → Bytes) (good : Good k h0 h f t) where
  -- The client's blocks are as they were.
  pub kept : (p : ℕ) (b : Bytes) → h0.cell p ≡ some b → h.cell p ≡ some b
  kept p b e = elim (good.others p) [
    | inl same ↦ same ∙ e
    | inr (i, o) ↦ absurd (none-some (sym (good.new i p o).0 ∙ e))
  ]

  pub null_none : h.cell 0 ≡ none
  null_none = elim (good.others 0) [
    | inl same ↦ same ∙ client.null
    | inr (i, o) ↦ absurd (ground (arith, (good.new i 0 o).1))
  ]

  pub owned_some : (i p : ℕ) → owns_block k (f i) p ≡ true → is_some (h.cell p) ≡ true
  owned_some i p o = ground (arith, (good.holds i).block, o)

  pub can_free : (i : ℕ) → CanFree k h (f i)
  can_free i = ground (arith, (good.holds i).block)

  not_owned : (i p : ℕ) → h.cell p ≡ none → owns_block k (f i) p ≡ false
  not_owned i p e = elim (Bool-cases (owns_block k (f i) p)) [
    | inl o ↦ absurd (ground (arith, owned_some i p o, e))
    | inr o ↦ o
  ]

  -- Object `i` becomes `w`, for the text `x`, in the memory `g`: what it owned is freed, and what it
  -- owns now is new.
  module _ (i : ℕ) (w : HidlString) (x : Bytes) (g : Heap ℕ) (is : IsHeap g) (holds : Holds g w x)
      (short : length x ≤ uint32_max)
      (new : (p : ℕ)
        → owns_block k w p ≡ true
        → (h.cell p ≡ none) × ((h0.cell p ≡ none) × ((p == 0) ≡ false)))
      (apart : (j : ℕ) → owns_block k (f j) w.buffer ≡ true → i ≡ j)
      (frame : (p : ℕ)
        → owns_block k w p ≡ false
        → g.cell p ≡ (if owns_block k (f i) p then none else h.cell p)) where
    elsewhere : (j : ℕ) → owns_block k w (f j).buffer ≡ false
    elsewhere j = elim (Bool-cases (owns_block k w (f j).buffer)) [
      | inl o ↦ absurd (none-some (sym (new (f j).buffer o).0 ∙ (good.holds j).block))
      | inr o ↦ o
    ]

    stays : (j : ℕ) → (i == j) ≡ false → g.cell (f j).buffer ≡ h.cell (f j).buffer
    stays j d = ground (arith, frame (f j).buffer (elsewhere j), good.apart i j d)

    put-Holds : (j : ℕ) → Holds g (put f i w j) (put t i x j)
    put-Holds j = elim (Bool-cases (i == j)) [
      | inl same ↦ rw same holds
      | inr other ↦
          let old = good.holds j in
          rw other (record { size = old.size; rest = old.rest; block = stays j other ∙ old.block })
    ]

    put-new :
        (j p : ℕ) → owns_block k (put f i w j) p ≡ true → (h0.cell p ≡ none) × ((p == 0) ≡ false)
    put-new j p o = elim (Bool-cases (i == j)) [
      | inl same ↦ (new p (rw same at o)).1
      | inr other ↦ good.new j p (rw other at o)
    ]

    put-apart :
        (j l : ℕ) → (j == l) ≡ false → owns_block k (put f i w j) (put f i w l).buffer ≡ false
    put-apart j l d = elim (Bool-cases (i == j)) [
      | inl here ↦ elim (Bool-cases (i == l)) [
        | inl both ↦ absurd (ground (arith, here, both, d))
        | inr there ↦ rw (here, there) (elsewhere l)
      ]
      | inr there ↦ elim (Bool-cases (i == l)) [
        | inl here ↦
            rw (there, here)
              (elim (Bool-cases (owns_block k (f j) w.buffer)) [
                | inl o ↦ absurd (ground (arith, apart j o, there))
                | inr o ↦ o
              ])
        | inr neither ↦ rw (there, neither) (good.apart j l d)
      ]
    ]

    other_than :
        (j p : ℕ) → owns_block k (f i) p ≡ false → owns_block k (f j) p ≡ true → (i == j) ≡ false
    other_than j p o oj = elim (Bool-cases (i == j)) [
      | inl same ↦
          let e : i ≡ j = (==_iff i j).0 same in
          let o' : owns_block k (f j) p ≡ false = rw (sym e) o in absurd (true-false (sym oj ∙ o'))
      | inr d ↦ d
    ]

    put-others :
        (p : ℕ) → (g.cell p ≡ h0.cell p) ⊎ ((j : ℕ) × (owns_block k (put f i w j) p ≡ true))
    put-others p = elim (Bool-cases (owns_block k w p)) [
      | inl o ↦ inr (i, rw (==_refl i) o)
      | inr o ↦ elim (Bool-cases (owns_block k (f i) p)) [
        | inl old ↦ inl (ground (arith, frame p o, good.new i p old))
        | inr old ↦ elim (good.others p) [
          | inl same ↦ inl (ground (arith, frame p o, same))
          | inr (j, oj) ↦ inr (j, rw (other_than j p old oj) oj)
        ]
      ]
    ]

    pub put-Good : Good k h0 g (put f i w) (put t i x)
    put-Good = record {
      heap = is;
      holds = put-Holds;
      short = λ j. ground (arith, short, good.short j);
      new = put-new;
      apart = put-apart;
      others = put-others;
    }
