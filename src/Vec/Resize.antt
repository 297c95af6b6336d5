-- ===== src/Vec/Resize.antt =====
-- `resize`: the elements that fit are kept, new ones have the initial value.
use platform_system_libhidl.Blocks.{Heap, allocate, load, fill_loop}
use platform_system_libhidl.Vec.{HidlVec, hidl_vec, to_uint32, uint32_max, resize}
use platform_system_libhidl.Vec.Content.{IsHeap, Stands, Holds}
use platform_system_libhidl.Blocks.Grown.{grown, fill_loop-grown}
use platform_system_libhidl.Vec.Assign.{
  GivesAbove-load, owns_block, CanFree, Copied, freed, free_buffer-freed, cell-freed, owns_next,
  IsHeap-freed, IsHeap-grown,
}
use platform_system_libhidl.Prelude.{
  length, take, replicate, length-append, length-replicate, length-take-min, replicate-add,
  get_elem?-take, done, ℕ, min, refl, sym, ap, inr, true, false, some, List, [], append-nil, arith,
  ◌-◌, ◌≤◌, ◌≡◌, ◌∙◌, ◌∷◌, ◌++◌,
}

-- The list that `resize` makes of `xs`.
unfoldable pub resized : {T : Type 0} → T → ℕ → List T → List T
resized init n xs = take n xs ++ replicate (n - length xs) init

module _ {T : Type 0} (init : T) where
  pub length-resized : (n : ℕ) (xs : List T) → length (resized init n xs) ≡ n
  unfolding resized
  length-resized n xs = omega (
    arith,
    length-append (take n xs) (replicate (n - length xs) init),
    length-take-min n xs,
    length-replicate (n - length xs) init,
  )

  replicate-split :
      (n : ℕ) (xs : List T)
      → replicate n init ≡ replicate (length (take n xs)) init ++ replicate (n - length xs) init
  replicate-split n xs =
      ap (λ k. replicate k init) (omega (arith, length-take-min n xs))
      ∙ replicate-add (length (take n xs)) (n - length xs) init

  Stands-resized : (h : Heap T) (p n : ℕ) (ys : List T) → h.cell p ≡ some ys → Stands h p ys
  Stands-resized h p n [] at = tt
  Stands-resized h p n (y ∷ ys) at = ([], at ∙ ap some (sym (append-nil (y ∷ ys))))

  fill-resized :
      (h : Heap T) (v : HidlVec) (n : ℕ) (xs : List T)
      → IsHeap h
      → Holds h v xs
      → n ≤ uint32_max
      → fill_loop (load v.buffer) (min (to_uint32 n) v.size) 0 h.next (grown h (replicate n init))
        ≡ done (tt, grown h (resized init n xs))
  unfolding resized
  fill-resized h v n xs is holds fits =
      let rounds : min (to_uint32 n) v.size ≡ length (take n xs) =
        omega (arith, length-take-min n xs, holds.size) in
      rw (rounds, replicate-split n xs)
        (fill_loop-grown (load v.buffer) h (take n xs) (replicate (length (take n xs)) init)
          (replicate (n - length xs) init) (length-replicate (length (take n xs)) init)
          (λ g i x same got.
            GivesAbove-load h v.buffer xs is holds.block g i x same (get_elem?-take n i x xs got)))

module _ {T : Type 0} (init : T) (h : Heap T) (v : HidlVec) (is : IsHeap h)
    (can : CanFree h v) where
  -- On a vector whose own buffer may be freed, `resize` to at most UINT32_MAX elements succeeds:
  -- the vector gets a new block with the old elements that fit and initial values behind them,
  -- and the block that it owned before is freed.
  pub resize-Copied :
      (n : ℕ) (xs : List T)
      → n ≤ uint32_max
      → Holds h v xs
      → (w : HidlVec) × (g : Heap T) × (resize init n v h ≡ done (w, g))
        × Copied h v (resized init n xs) w g
  unfolding resize allocate
  resize-Copied n xs fits holds = (
    hidl_vec h.next n true,
    freed v (grown h (resized init n xs)),
    ground (
      arith,
      fill-resized init h v n xs is holds fits,
      free_buffer-freed (grown h (resized init n xs)) v still,
    ),
    record {
      holds = record {
        size = sym (length-resized init n xs);
        block =
            Stands-resized init (freed v (grown h (resized init n xs))) h.next n (resized init n xs)
              at;
      };
      owner = refl;
      fresh = inr (is.unused h.next (omega arith));
      heap = IsHeap-freed (grown h (resized init n xs)) v (IsHeap-grown h (resized init n xs) is);
      memory = λ p. ground (arith, cell-freed (grown h (resized init n xs)) v p, apart);
    },
  )
    where
      still : CanFree (grown h (resized init n xs)) v
      still = ground (arith, can)

      apart : owns_block v h.next ≡ false
      apart = owns_next h v is can

      at : (freed v (grown h (resized init n xs))).cell h.next ≡ some (resized init n xs)
      at = ground (arith, cell-freed (grown h (resized init n xs)) v h.next, apart)
