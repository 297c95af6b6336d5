-- ===== src/Vec/Truncate.antt =====
-- Sizes that a `uint32_t` does not hold.
use platform_system_libhidl.Blocks.{Heap, M, allocate, read_list}
use platform_system_libhidl.Vec.{
  HidlVec, hidl_vec, to_uint32, uint32_max, copy_from, list_ctor, assign_vector, set_to_external,
  resize,
}
use platform_system_libhidl.Blocks.Grown.{grown, GivesAbove, GivesAbove-read_list, fill_loop-new}
use platform_system_libhidl.Vec.Assign.{CanFree, freed, free_buffer-freed}
use platform_system_libhidl.Prelude.{
  ltb, Bool-cases, length, done, fatal, ℕ, refl, inl, inr, Bool, true, List, arith, ◌%◌, ◌^◌, ◌<◌,
  ◌≡◌,
}

module _ {T : Type 0} (init : T) where
  copy_from-size :
      (src : ℕ → M T T) (h : Heap T) (xs : List T)
      → GivesAbove src h xs
      → (w : HidlVec) × (g : Heap T) × (copy_from init src (length xs) h ≡ done (w, g))
        × (w.size ≡ to_uint32 (length xs))
  unfolding copy_from allocate
  copy_from-size src h xs gives = elim (Bool-cases (ltb 0 (to_uint32 (length xs)))) [
    | inl some_left ↦ (
      hidl_vec h.next (to_uint32 (length xs)) true,
      grown h xs,
      ground (arith, fill_loop-new src init h xs gives),
      refl,
    )
    | inr none_left ↦ (hidl_vec 0 (to_uint32 (length xs)) true, h, ground arith, refl)
  ]

  -- Assignment from a `std::vector` of any length, to a vector whose own buffer may be freed,
  -- succeeds, and the size is the length modulo 2^32: unlike the other ways to fill a vector it
  -- does not test the length, and drops elements silently.
  pub size-assign_vector :
      (h : Heap T) (v : HidlVec) (xs : List T)
      → CanFree h v
      → (w : HidlVec) × (g : Heap T) × (assign_vector init v xs h ≡ done (w, g))
        × (w.size ≡ length xs % 2 ^ 32)
  unfolding assign_vector
  size-assign_vector h v xs can =
      let (w, g, run, size) =
        copy_from-size (read_list xs) (freed v h) xs (GivesAbove-read_list (freed v h) xs) in
      (w, g, ground (arith, free_buffer-freed h v can), size)

  -- The initializer list, `resize` and `setToExternal` abort above UINT32_MAX.
  pub too_large_fatal :
      (h : Heap T) (v : HidlVec) (xs : List T) (p n : ℕ) (own : Bool)
      → CanFree h v
      → uint32_max < length xs
      → uint32_max < n
      → (list_ctor init xs h ≡ fatal)
        × (resize init n v h ≡ fatal)
        × (set_to_external p n own v h ≡ fatal)
  unfolding list_ctor resize set_to_external
  too_large_fatal h v xs p n own can long large =
      (ground arith, ground arith, ground (arith, free_buffer-freed h v can))
