-- ===== src/Blocks/Fill.antt =====
-- The copying loop and the reading loop, for any source that gives the elements of a list.
use platform_system_libhidl.Blocks.{Heap, M, write, store, fill_loop, collect}
use platform_system_libhidl.Prelude.{
  ltb, length, get_elem?, length-append, get_elem?-append, set-append, done, ℕ, suc, refl, sym, ap,
  fun_ext, true, Option, some, List, [], append_assoc, arith, ◌+◌, ◌≡◌, ◌∙◌, ◌≢◌, ◌∷◌, ◌++◌,
}

module _ {T : Type 0} where
  -- Heaps that agree but at one block.
  abbrev pub SameBut : ℕ → Heap T → Heap T → Type 0
  SameBut p h g = (q : ℕ) → p ≢ q → g.cell q ≡ h.cell q

  -- `src` gives the elements of `xs` on every heap that differs from `h` at most at `dst`.
  abbrev pub Gives : (ℕ → M T T) → ℕ → Heap T → List T → Type 0
  Gives src dst h xs =
      (g : Heap T) (i : ℕ) (x : T)
      → SameBut dst h g
      → get_elem? xs i ≡ some x
      → src i g ≡ done (x, g)

  pub cell-write_self : (h : Heap T) (p : ℕ) (b : Option (List T)) → (write h p b).cell p ≡ b
  unfolding write
  cell-write_self h p b = ground arith

  pub SameBut-write : (h : Heap T) (p : ℕ) (b : Option (List T)) → SameBut p h (write h p b)
  unfolding write
  SameBut-write h p b q ne = ground (arith, ne)

  pub write-write :
      (h : Heap T) (p : ℕ) (a b : Option (List T)) → write (write h p a) p b ≡ write h p b
  unfolding write
  write-write h p a b = ap (λ c. record { next = h.next; cell = c }) (fun_ext λ q. ground arith)

  pub write_self : (h : Heap T) (p : ℕ) (b : Option (List T)) → h.cell p ≡ b → write h p b ≡ h
  unfolding write
  write_self h p b at = ap (λ c. record { next = h.next; cell = c }) (fun_ext λ q. ground arith)

  pub store-append :
      (h : Heap T) (p : ℕ) (pre rest : List T) (old x : T)
      → h.cell p ≡ some (pre ++ old ∷ rest)
      → store p (length pre) x h ≡ done (tt, write h p (some (pre ++ x ∷ rest)))
  unfolding store
  store-append h p pre rest old x at =
      let inside : ltb (length pre) (length (pre ++ old ∷ rest)) ≡ true =
        ground (arith, length-append pre (old ∷ rest)) in
      rw (at, inside, set-append pre old x rest)

  fill_loop-suc :
      (src : ℕ → M T T) (k i dst : ℕ) (x : T) (h g : Heap T)
      → src i h ≡ done (x, h)
      → store dst i x h ≡ done (tt, g)
      → fill_loop src (suc k) i dst h ≡ fill_loop src k (i + 1) dst g
  unfolding fill_loop
  fill_loop-suc src k i dst x h g got stored = ground (arith, got, stored)

  -- The loop replaces as many elements of the block as the source gives, behind those already
  -- copied, and touches nothing else.
  pub fill_loop-append :
      (src : ℕ → M T T) (h : Heap T) (dst : ℕ) (pre xs old rest : List T)
      → h.cell dst ≡ some (pre ++ (old ++ rest))
      → length old ≡ length xs
      → Gives src dst h (pre ++ xs)
      → fill_loop src (length xs) (length pre) dst h
        ≡ done (tt, write h dst (some (pre ++ (xs ++ rest))))
  unfolding fill_loop
  fill_loop-append src h dst pre [] [] rest at len gives =
      ap (λ (g : Heap T). done (tt, g)) (sym (write_self h dst _ at))
  fill_loop-append src h dst pre [] (o ∷ old) rest at len gives = absurd (omega arith)
  fill_loop-append src h dst pre (x ∷ xs) [] rest at len gives = absurd (omega arith)
  fill_loop-append src h dst pre (x ∷ xs) (o ∷ old) rest at len gives =
      let next : Heap T = write h dst (some (pre ++ x ∷ (old ++ rest))) in
      let gives' : Gives src dst next ((pre ++ x ∷ []) ++ xs) =
        rw (append_assoc pre (x ∷ []) xs)
          (λ g i y same. gives g i y (λ q ne. same q ne ∙ SameBut-write h dst _ q ne)) in
      fill_loop-suc src (length xs) (length pre) dst x h next
        (gives h (length pre) x (λ q ne. refl) (get_elem?-append pre x xs))
        (store-append h dst pre (old ++ rest) o x at)
      ∙ ap (λ i. fill_loop src (length xs) i dst next) (omega (arith, length-append pre (x ∷ [])))
      ∙ fill_loop-append src next dst (pre ++ x ∷ []) xs old rest
          (cell-write_self h dst _ ∙ ap some (sym (append_assoc pre (x ∷ []) (old ++ rest))))
          (omega arith) gives'
      ∙ ap (λ (g : Heap T). done (tt, g))
          (write-write h dst _ _
            ∙ ap (λ b. write h dst (some b)) (append_assoc pre (x ∷ []) (xs ++ rest)))

  collect-suc :
      (src : ℕ → M T T) (k i : ℕ) (x : T) (xs : List T) (h : Heap T)
      → src i h ≡ done (x, h)
      → collect src k (i + 1) h ≡ done (xs, h)
      → collect src (suc k) i h ≡ done (x ∷ xs, h)
  unfolding collect
  collect-suc src k i x xs h got rest = ground (arith, got, rest)

  pub collect-append :
      (src : ℕ → M T T) (h : Heap T) (pre xs : List T)
      → ((i : ℕ) (x : T) → get_elem? (pre ++ xs) i ≡ some x → src i h ≡ done (x, h))
      → collect src (length xs) (length pre) h ≡ done (xs, h)
  unfolding collect
  collect-append src h pre [] gives = refl
  collect-append src h pre (x ∷ xs) gives =
      collect-suc src (length xs) (length pre) x xs h
        (gives (length pre) x (get_elem?-append pre x xs))
        (ap (λ i. collect src (length xs) i h) (omega (arith, length-append pre (x ∷ [])))
          ∙ collect-append src h (pre ++ x ∷ []) xs (rw (append_assoc pre (x ∷ []) xs) gives))
