-- ===== src/Vec/Moves.antt =====
-- Moving, releasing and destroying vectors.
use platform_system_libhidl.Blocks.{Heap, write}
use platform_system_libhidl.Vec.{
  HidlVec, empty_vec, uint32_max, destroy, move_assign, move_assign_self, copy_ctor, index,
}
use platform_system_libhidl.Vec.Content.{IsHeap, Holds}
use platform_system_libhidl.Vec.Assign.{
  owns_block, CanFree, freed, free_buffer-freed, Stands-freed, copy_assign-Copied, CanFree-Copied,
  cell-freed_copy,
}
use platform_system_libhidl.Prelude.{
  length, set, done, fault, ℕ, refl, true, false, List, arith, ◌≤◌, ◌≡◌, ◌≢◌,
}

module _ {T : Type 0} (h : Heap T) (v : HidlVec) (can : CanFree h v) where
  -- Move assignment to a vector whose own buffer may be freed, from another vector whose block it
  -- does not own: this vector takes over the block and its ownership, the other one keeps looking
  -- at the block without owning it, and the block that this one owned is freed. Both stand for
  -- the list that the other one stood for.
  pub move_assign-Holds :
      (other : HidlVec) (xs : List T)
      → Holds h other xs
      → owns_block v other.buffer ≡ false
      → (move_assign v other h ≡ done ((other, record other { owns = false }), freed v h))
        × Holds (freed v h) other xs
        × Holds (freed v h) (record other { owns = false }) xs
  unfolding move_assign
  move_assign-Holds other xs holds apart =
      let still = Stands-freed h v other.buffer xs apart holds.block in
      (
        ground (arith, free_buffer-freed h v can),
        record { size = holds.size; block = still },
        record { size = holds.size; block = still },
      )

  -- A vector that owns an allocated buffer and is moved into itself frees the buffer and keeps
  -- its pointer and its size: every access to an element goes to freed memory.
  pub move_assign_self_dangles :
      (i : ℕ)
      → v.owns ≡ true
      → v.buffer ≢ 0
      → (w : HidlVec) × (move_assign_self v h ≡ done (w, freed v h))
        × (w.size ≡ v.size)
        × (index w i (freed v h) ≡ fault)
  unfolding move_assign_self index write
  move_assign_self_dangles i owner set = (
    record v { owns = false },
    ground (arith, free_buffer-freed h v can),
    refl,
    ground (arith, owner, set),
  )

module _ {T : Type 0} (init : T) (h : Heap T) (is : IsHeap h) where
  -- The copy of a vector of at most UINT32_MAX elements and its destruction succeed, and
  -- afterwards every block is as it was before: none is left behind and none of the others is
  -- freed.
  destroy-copy_ctor :
      (other : HidlVec) (xs : List T)
      → length xs ≤ uint32_max
      → Holds h other xs
      → (w : HidlVec) × (g g' : Heap T) × (copy_ctor init other h ≡ done (w, g))
        × (destroy w g ≡ done (tt, g'))
        × ((p : ℕ) → g'.cell p ≡ h.cell p)
  unfolding copy_ctor destroy
  destroy-copy_ctor other xs fits holds =
      let (w, g, run, copied, same) =
        copy_assign-Copied init h empty_vec is refl other xs fits holds refl in
      (w, g, freed w g, run, free_buffer-freed g w (CanFree-Copied copied), cell-freed_copy copied)
