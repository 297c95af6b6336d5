-- ===== src/Vec/Assign.antt =====
-- Copying: the copy stands for the same list, in a block of its own, and the source is untouched.
use platform_system_libhidl.Blocks.{Heap, M, write, allocate, load, read_list}
use platform_system_libhidl.Blocks.Grown.{grown, GivesAbove, GivesAbove-read_list, fill_loop-new}
use platform_system_libhidl.Vec.{
  HidlVec, hidl_vec, empty_vec, to_uint32, uint32_max, free_buffer, copy_from, copy_assign,
  assign_vector,
}
use platform_system_libhidl.Vec.Content.{IsHeap, Stands, Holds, load-Stands, next_of_some}
use platform_system_libhidl.Prelude.{
  is_some, length, done, ℕ, refl, inl, inr, Bool, true, false, not, none, some, List, [],
  append-nil, arith, ◌==◌, if◌then◌else◌, ◌≤◌, ◌≡◌, ◌∙◌, ◌⊎◌, ◌&&◌, ◌∷◌, ◌++◌,
}

module _ {T : Type 0} where
  copy_from-nil :
      (init : T) (src : ℕ → M T T) (h : Heap T) → copy_from init src 0 h ≡ done (empty_vec, h)
  unfolding copy_from
  copy_from-nil init src h = refl

  -- `copyFrom` of one element or more, as many as a `uint32_t` counts.
  copy_from-cons :
      (init : T) (src : ℕ → M T T) (h : Heap T) (x : T) (xs : List T)
      → length (x ∷ xs) ≤ uint32_max
      → GivesAbove src h (x ∷ xs)
      → copy_from init src (length (x ∷ xs)) h
        ≡ done (hidl_vec h.next (length (x ∷ xs)) true, grown h (x ∷ xs))
  unfolding copy_from allocate
  copy_from-cons init src h x xs fits gives =
      let small : to_uint32 (length (x ∷ xs)) ≡ length (x ∷ xs) = omega arith in
      ground (arith, small, fill_loop-new src init h (x ∷ xs) gives)

-- The vector owns block `p`.
abbrev pub owns_block : HidlVec → ℕ → Bool
owns_block v p = v.owns && not (v.buffer == 0) && (v.buffer == p)

-- A vector's buffer may be freed: a buffer that it owns is null or allocated.
abbrev pub CanFree : {T : Type 0} → Heap T → HidlVec → Type 0
CanFree h v = (v.owns && not (v.buffer == 0) && not (is_some (h.cell v.buffer))) ≡ false

-- What a copy of `xs` into `v` leaves: the vector `w` and the memory `g`. The copy has a block of
-- its own, which was not allocated before; the block that `v` owned is freed; every other block is
-- as it was.
pub record Copied {T : Type 0} (h : Heap T) (v : HidlVec) (xs : List T) (w : HidlVec) (g : Heap T)
    : Type 0 where
  pub holds : Holds g w xs
  pub owner : w.owns ≡ true
  pub fresh : (w.buffer ≡ 0) ⊎ (h.cell w.buffer ≡ none)
  pub heap : IsHeap g
  pub memory :
      (p : ℕ)
      → g.cell p ≡ (if owns_block w p then some xs else if owns_block v p then none else h.cell p)

module _ {T : Type 0} where
  -- The memory without the buffer that `v` owns.
  abbrev pub freed : HidlVec → Heap T → Heap T
  freed v h = if v.owns && not (v.buffer == 0) then write h v.buffer none else h

  pub free_buffer-freed :
      (h : Heap T) (v : HidlVec) → CanFree h v → free_buffer v h ≡ done (tt, freed v h)
  unfolding free_buffer
  free_buffer-freed h v can = ground (arith, can)

  pub cell-freed :
      (h : Heap T) (v : HidlVec) (p : ℕ)
      → (freed v h).cell p ≡ (if owns_block v p then none else h.cell p)
  unfolding write
  cell-freed h v p = ground arith

  pub next-freed : (h : Heap T) (v : HidlVec) → (freed v h).next ≡ h.next
  unfolding write
  next-freed h v = ground arith

  pub IsHeap-freed : (h : Heap T) (v : HidlVec) → IsHeap h → IsHeap (freed v h)
  IsHeap-freed h v is = record {
    next_pos = rw next-freed is.next_pos;
    unused = λ p above. ground (arith, cell-freed h v p, next-freed h v, is.unused p);
  }

  pub Stands-freed :
      (h : Heap T) (v : HidlVec) (p : ℕ) (xs : List T)
      → owns_block v p ≡ false
      → Stands h p xs
      → Stands (freed v h) p xs
  Stands-freed h v p [] apart s = s
  Stands-freed h v p (x ∷ xs) apart (rest, at) = (rest, ground (arith, cell-freed h v p))

  pub GivesAbove-load :
      (h : Heap T) (p : ℕ) (xs : List T) → IsHeap h → Stands h p xs → GivesAbove (load p) h xs
  GivesAbove-load h p [] is s g i x same got = cc
  GivesAbove-load h p (y ∷ xs) is (rest, at) g i x same got =
      load-Stands g p i x (y ∷ xs) (rest, same p (next_of_some h p _ is at) ∙ at) got

  -- A vector whose buffer may be freed does not own the next block.
  pub owns_next : (h : Heap T) (v : HidlVec) → IsHeap h → CanFree h v → owns_block v h.next ≡ false
  owns_next h v is can = ground (arith, is.unused h.next)

  -- The vector and the memory after `copyFrom`.
  abbrev copied : Heap T → List T → HidlVec × Heap T
  copied h [] = (empty_vec, h)
  copied h (x ∷ xs) = (hidl_vec h.next (length (x ∷ xs)) true, grown h (x ∷ xs))

  copy_from-copied :
      (init : T) (src : ℕ → M T T) (h : Heap T) (xs : List T)
      → length xs ≤ uint32_max
      → GivesAbove src h xs
      → copy_from init src (length xs) h ≡ done (copied h xs)
  copy_from-copied init src h [] fits gives = copy_from-nil init src h
  copy_from-copied init src h (x ∷ xs) fits gives = copy_from-cons init src h x xs fits gives

  Stands-copied :
      (h : Heap T) (p : ℕ) (xs : List T) → IsHeap h → Stands h p xs → Stands (copied h xs).1 p xs
  Stands-copied h p [] is s = s
  Stands-copied h p (x ∷ xs) is (rest, at) = (rest, ground (arith, next_of_some h p _ is at))

  grown_self :
      (h : Heap T) (x : T) (xs : List T) → (grown h (x ∷ xs)).cell h.next ≡ some ((x ∷ xs) ++ [])
  grown_self h x xs = rw append-nil (ground arith)

  pub IsHeap-grown : (h : Heap T) (b : List T) → IsHeap h → IsHeap (grown h b)
  IsHeap-grown h b is = record {
    next_pos = omega arith;
    unused = λ p above. ground (arith, is.unused p);
  }

  Copied-copied :
      (h : Heap T) (v : HidlVec) (xs : List T)
      → IsHeap h
      → Copied h v xs (copied (freed v h) xs).0 (copied (freed v h) xs).1
  Copied-copied h v [] is = record {
    holds = record { size = refl; block = tt };
    owner = refl;
    fresh = inl refl;
    heap = IsHeap-freed h v is;
    memory = λ p. ground (arith, cell-freed h v p);
  }
  Copied-copied h v (x ∷ xs) is = record {
    holds = record { size = refl; block = ([], grown_self (freed v h) x xs) };
    owner = refl;
    fresh = inr (rw next-freed (is.unused h.next (omega arith)));
    heap = IsHeap-grown (freed v h) (x ∷ xs) (IsHeap-freed h v is);
    memory = λ p. ground (arith, cell-freed h v p, next-freed h v);
  }

module _ {T : Type 0} {h g : Heap T} {v w : HidlVec} {xs : List T} (copy : Copied h v xs w g) where
  pub CanFree-Copied : CanFree g w
  CanFree-Copied = ground (arith, copy.memory w.buffer)

  -- Freeing the copy takes its block away again, and nothing else.
  pub cell-freed_copy :
      (p : ℕ)
      → (freed w g).cell p ≡ (if owns_block v p && not (owns_block w p) then none else h.cell p)
  cell-freed_copy p = elim copy.fresh [
    | inl null ↦ ground (arith, cell-freed g w p, copy.memory p)
    | inr new ↦ ground (arith, cell-freed g w p, copy.memory p)
  ]

module _ {T : Type 0} (init : T) (h : Heap T) (v : HidlVec) (is : IsHeap h)
    (can : CanFree h v) where
  -- Assignment from a `std::vector` of at most UINT32_MAX elements copies it.
  pub assign_vector-Copied :
      (xs : List T)
      → length xs ≤ uint32_max
      → (w : HidlVec) × (g : Heap T) × (assign_vector init v xs h ≡ done (w, g)) × Copied h v xs w g
  unfolding assign_vector
  assign_vector-Copied xs fits = (
    (copied (freed v h) xs).0,
    (copied (freed v h) xs).1,
    ground (
      arith,
      free_buffer-freed h v can,
      copy_from-copied init (read_list xs) (freed v h) xs fits
          (GivesAbove-read_list (freed v h) xs),
    ),
    Copied-copied h v xs is,
  )

  -- Copy assignment to a vector whose own buffer may be freed, from another vector of at most
  -- UINT32_MAX elements whose block it does not own, succeeds: the vector gets a new block
  -- (null for no elements) with the same elements, the block that it owned is freed,
  -- and the other vector still stands for the same list.
  pub copy_assign-Copied :
      (other : HidlVec) (xs : List T)
      → length xs ≤ uint32_max
      → Holds h other xs
      → owns_block v other.buffer ≡ false
      → (w : HidlVec) × (g : Heap T) × (copy_assign init v other h ≡ done (w, g))
        × Copied h v xs w g
        × Holds g other xs
  unfolding copy_assign
  copy_assign-Copied other xs fits holds apart = (
    (copied (freed v h) xs).0,
    (copied (freed v h) xs).1,
    rw holds.size (
        ground (
          arith,
          free_buffer-freed h v can,
          copy_from-copied init (load other.buffer) (freed v h) xs fits (
              GivesAbove-load (freed v h) other.buffer xs (IsHeap-freed h v is)
                (Stands-freed h v other.buffer xs apart holds.block)),
        )),
    Copied-copied h v xs is,
    record {
      size = holds.size;
      block =
          Stands-copied (freed v h) other.buffer xs (IsHeap-freed h v is)
            (Stands-freed h v other.buffer xs apart holds.block);
    },
  )
