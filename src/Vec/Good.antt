-- ===== src/Vec/Good.antt =====
-- Many hidl_vecs over one memory: who owns which block, and the replacement of one vector.
use platform_system_libhidl.Blocks.{Heap}
use platform_system_libhidl.Vec.{HidlVec, uint32_max}
use platform_system_libhidl.Vec.Content.{IsHeap, Stands, Holds}
use platform_system_libhidl.Vec.Assign.{owns_block, CanFree}
use platform_system_libhidl.Prelude.{
  ==_iff, ==_refl, Bool-cases, Option-cases, is_some, length, put, none-some, true-false, some_inj,
  subst, ℕ, sym, ap, inl, inr, true, false, Option, none, some, List, [], arith, ◌==◌,
  if◌then◌else◌, ◌≤◌, ◌≡◌, ◌∙◌, ◌⊎◌, ◌||◌, ◌∷◌,
}

-- The objects `f` over the memory `h` stand for the lists `t`; one that was moved from owns nothing.
-- No block is owned by one object and looked at by another that stands for a list; what is not owned
-- is as in the memory `h0` of the client.
pub record Good {T : Type 0} (h0 h : Heap T) (f : ℕ → HidlVec) (t : ℕ → Option (List T))
    : Type 0 where
  pub heap : IsHeap h
  pub holds : (i : ℕ) (xs : List T) → t i ≡ some xs → Holds h (f i) xs
  pub short : (i : ℕ) (xs : List T) → t i ≡ some xs → length xs ≤ uint32_max
  pub placed :
      (i : ℕ) (xs : List T)
      → t i ≡ some xs
      → ((f i).buffer == 0 || is_some (h.cell (f i).buffer)) ≡ true
  pub idle : (i p : ℕ) → t i ≡ none → owns_block (f i) p ≡ false
  pub alive : (i p : ℕ) → owns_block (f i) p ≡ true → is_some (h.cell p) ≡ true
  pub new : (i p : ℕ) → owns_block (f i) p ≡ true → h0.cell p ≡ none
  pub apart :
      (i j : ℕ) (xs : List T)
      → (i == j) ≡ false
      → t j ≡ some xs
      → owns_block (f i) (f j).buffer ≡ false
  pub others : (p : ℕ) → (h.cell p ≡ h0.cell p) ⊎ ((i : ℕ) × (owns_block (f i) p ≡ true))

-- A list stands where it stood if the blocks are kept.
pub Stands-kept :
    {T : Type 0} (h g : Heap T) (p : ℕ) (xs : List T)
    → Stands h p xs
    → (is_some (h.cell p) ≡ true → g.cell p ≡ h.cell p)
    → Stands g p xs
Stands-kept h g p [] s same = tt
Stands-kept h g p (x ∷ xs) (rest, at) same = (rest, same (ap is_some at) ∙ at)

owns_buffer : (v : HidlVec) (p : ℕ) → owns_block v p ≡ true → v.buffer ≡ p
owns_buffer v p o = ground (arith, o)

module _ {T : Type 0} (h0 h : Heap T) (f : ℕ → HidlVec) (t : ℕ → Option (List T))
    (good : Good h0 h f t) where
  pub can_free : (i : ℕ) → CanFree h (f i)
  can_free i = ground (arith, good.alive i (f i).buffer)

  -- A block has one owner.
  pub one_owner :
      (i j p : ℕ) → owns_block (f i) p ≡ true → owns_block (f j) p ≡ true → (i == j) ≡ true
  one_owner i j p oi oj = elim (Bool-cases (i == j)) [
    | inl same ↦ same
    | inr d ↦ elim (Option-cases (t j)) [
      | inl e ↦ absurd (true-false (sym oj ∙ good.idle j p e))
      | inr (xs, e) ↦
          let o : owns_block (f i) (f j).buffer ≡ true = rw (owns_buffer (f j) p oj) oi in
          absurd (true-false (sym o ∙ good.apart i j xs d e))
    ]
  ]

  pub other_owner :
      (i j p : ℕ) → (i == j) ≡ false → owns_block (f j) p ≡ true → owns_block (f i) p ≡ false
  other_owner i j p d o = elim (Bool-cases (owns_block (f i) p)) [
    | inl o' ↦ absurd (true-false (sym (one_owner i j p o' o) ∙ d))
    | inr o' ↦ o'
  ]

  pub other_than :
      (i j p : ℕ) → owns_block (f i) p ≡ false → owns_block (f j) p ≡ true → (i == j) ≡ false
  other_than i j p o oj = elim (Bool-cases (i == j)) [
    | inl same ↦
        let o' : owns_block (f j) p ≡ false = rw (sym ((==_iff i j).0 same)) o in
        absurd (true-false (sym oj ∙ o'))
    | inr d ↦ d
  ]

  -- Object `i` becomes `w`, for the list `x`, in the memory `g`: what it owned is freed, and what it
  -- owns now is new.
  module _ (i : ℕ) (w : HidlVec) (x : List T) (g : Heap T) (is : IsHeap g) (holds : Holds g w x)
      (short : length x ≤ uint32_max) (placed : (w.buffer == 0 || is_some (g.cell w.buffer)) ≡ true)
      (lives : (p : ℕ) → owns_block w p ≡ true → is_some (g.cell p) ≡ true)
      (new : (p : ℕ) → owns_block w p ≡ true → (h.cell p ≡ none) × (h0.cell p ≡ none))
      (apart : (j : ℕ) → owns_block (f j) w.buffer ≡ true → i ≡ j)
      (frame : (p : ℕ)
        → owns_block w p ≡ false
        → g.cell p ≡ (if owns_block (f i) p then none else h.cell p)) where
    elsewhere : (p : ℕ) → is_some (h.cell p) ≡ true → owns_block w p ≡ false
    elsewhere p s = elim (Bool-cases (owns_block w p)) [
      | inl o ↦ absurd (ground (arith, (new p o).0, s))
      | inr o ↦ o
    ]

    stays : (p : ℕ) → owns_block (f i) p ≡ false → is_some (h.cell p) ≡ true → g.cell p ≡ h.cell p
    stays p o s = ground (arith, frame p (elsewhere p s), o)

    elsewhere_placed : (l : ℕ) (ys : List T) → t l ≡ some ys → owns_block w (f l).buffer ≡ false
    elsewhere_placed l ys e = elim (Bool-cases (owns_block w (f l).buffer)) [
      | inl o ↦ absurd (ground (arith, (new (f l).buffer o).0, good.placed l ys e, o))
      | inr o ↦ o
    ]

    put-Holds : (j : ℕ) (ys : List T) → put t i (some x) j ≡ some ys → Holds g (put f i w j) ys
    put-Holds j ys e = elim (Bool-cases (i == j)) [
      | inl same ↦ rw same (subst (λ zs. Holds g w zs) (some_inj (rw same at e)) holds)
      | inr d ↦
          let e' : t j ≡ some ys = rw d at e in
          rw d (record {
            size = (good.holds j ys e').size;
            block =
                Stands-kept h g (f j).buffer ys (good.holds j ys e').block
                  (stays (f j).buffer (good.apart i j ys d e'));
          })
    ]

    put-alive : (j p : ℕ) → owns_block (put f i w j) p ≡ true → is_some (g.cell p) ≡ true
    put-alive j p o = elim (Bool-cases (i == j)) [
      | inl same ↦ lives p (rw same at o)
      | inr d ↦
          let o' : owns_block (f j) p ≡ true = rw d at o in
          ap is_some (stays p (other_owner i j p d o') (good.alive j p o')) ∙ good.alive j p o'
    ]

    put-apart :
        (j l : ℕ) (ys : List T)
        → (j == l) ≡ false
        → put t i (some x) l ≡ some ys
        → owns_block (put f i w j) (put f i w l).buffer ≡ false
    put-apart j l ys d e = elim (Bool-cases (i == j)) [
      | inl here ↦ elim (Bool-cases (i == l)) [
        | inl both ↦ absurd (ground (arith, here, both, d))
        | inr there ↦ rw (here, there) (elsewhere_placed l ys (rw there at e))
      ]
      | inr there ↦ elim (Bool-cases (i == l)) [
        | inl here ↦
            rw (there, here)
              (elim (Bool-cases (owns_block (f j) w.buffer)) [
                | inl o ↦ absurd (ground (arith, apart j o, there))
                | inr o ↦ o
              ])
        | inr neither ↦ rw (there, neither) (good.apart j l ys d (rw neither at e))
      ]
    ]

    put-placed :
        (j : ℕ) (ys : List T)
        → put t i (some x) j ≡ some ys
        → ((put f i w j).buffer == 0 || is_some (g.cell (put f i w j).buffer)) ≡ true
    put-placed j ys e = elim (Bool-cases (i == j)) [
      | inl same ↦ rw same placed
      | inr d ↦
          let e' : t j ≡ some ys = rw d at e in
          rw d (ground (arith, good.placed j ys e', stays (f j).buffer (good.apart i j ys d e')))
    ]

    put-others : (p : ℕ) → (g.cell p ≡ h0.cell p) ⊎ ((j : ℕ) × (owns_block (put f i w j) p ≡ true))
    put-others p = elim (Bool-cases (owns_block w p)) [
      | inl o ↦ inr (i, rw (==_refl i) o)
      | inr o ↦ elim (Bool-cases (owns_block (f i) p)) [
        | inl old ↦ inl (ground (arith, frame p o, good.new i p old))
        | inr old ↦ elim (good.others p) [
          | inl same ↦ inl (ground (arith, frame p o, same))
          | inr (j, oj) ↦ inr (j, rw (other_than i j p old oj) oj)
        ]
      ]
    ]

    pub put-Good : Good h0 g (put f i w) (put t i (some x))
    put-Good = record {
      heap = is;
      holds = put-Holds;
      short = λ j ys e. elim (Bool-cases (i == j)) [
        | inl same ↦
            let e' : x ≡ ys = some_inj (rw same at e) in
            subst (λ zs. length zs ≤ uint32_max) e' short
        | inr d ↦ good.short j ys (rw d at e)
      ];
      placed = put-placed;
      idle = λ j p e. elim (Bool-cases (i == j)) [
        | inl same ↦ absurd (none-some (sym (rw same at e)))
        | inr d ↦ rw d (good.idle j p (rw d at e))
      ];
      alive = put-alive;
      new = λ j p o. elim (Bool-cases (i == j)) [
        | inl same ↦ (new p (rw same at o)).1
        | inr d ↦ good.new j p (rw d at o)
      ];
      apart = put-apart;
      others = put-others;
    }
