-- ===== src/Blocks/Grown.antt =====
-- Loops over a block that was just allocated.
use platform_system_libhidl.Blocks.{Heap, M, write, update, read_list, fill_loop}
use platform_system_libhidl.Blocks.Fill.{fill_loop-append}
use platform_system_libhidl.Prelude.{
  length, get_elem?, replicate, length-replicate, done, ℕ, suc, ap, fun_ext, some, List, [],
  append-nil, arith, ◌<◌, ◌≡◌, ◌∙◌, ◌++◌,
}

-- The heap once a block with the elements `xs` is allocated.
abbrev pub grown : {T : Type 0} → Heap T → List T → Heap T
grown h xs = record { next = suc h.next; cell = update h.cell h.next (some xs) }

-- A source that gives `xs` on every heap that keeps the allocated blocks of `h`.
abbrev pub GivesAbove : {T : Type 0} → (ℕ → M T T) → Heap T → List T → Type 0
GivesAbove {T} src h xs =
    (g : Heap T) (i : ℕ) (x : T)
    → ((q : ℕ) → q < h.next → g.cell q ≡ h.cell q)
    → get_elem? xs i ≡ some x
    → src i g ≡ done (x, g)

module _ {T : Type 0} where
  pub write-grown : (h : Heap T) (a b : List T) → write (grown h a) h.next (some b) ≡ grown h b
  unfolding write
  write-grown h a b = ap (λ c. record { next = suc h.next; cell = c }) (fun_ext λ q. ground arith)

  -- A loop over a new block replaces its first elements by those of the source.
  pub fill_loop-grown :
      (src : ℕ → M T T) (h : Heap T) (xs old rest : List T)
      → length old ≡ length xs
      → GivesAbove src h xs
      → fill_loop src (length xs) 0 h.next (grown h (old ++ rest)) ≡ done (tt, grown h (xs ++ rest))
  unfolding write
  fill_loop-grown src h xs old rest len gives =
      fill_loop-append src (grown h (old ++ rest)) h.next [] xs old rest (ground arith) len
        (λ g i x same got.
          gives g i x (λ q below. same q (omega arith) ∙ ground (arith, below)) got)
      ∙ ap (λ (g : Heap T). done (tt, g)) (write-grown h (old ++ rest) (xs ++ rest))

  pub fill_loop-new :
      (src : ℕ → M T T) (init : T) (h : Heap T) (xs : List T)
      → GivesAbove src h xs
      → fill_loop src (length xs) 0 h.next (grown h (replicate (length xs) init))
        ≡ done (tt, grown h xs)
  fill_loop-new src init h xs gives = simp append-nil at (
      fill_loop-grown src h xs (replicate (length xs) init) [] (length-replicate (length xs) init)
        gives)

  pub GivesAbove-read_list : (h : Heap T) (xs : List T) → GivesAbove (read_list xs) h xs
  unfolding read_list
  GivesAbove-read_list h xs g i x same got = ground (arith, got)
