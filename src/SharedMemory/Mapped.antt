-- ===== src/SharedMemory/Mapped.antt =====
-- What a mapping holds, and what its end gives back.
use platform_system_libhidl.Blocks.{Heap}
use platform_system_libhidl.Handle
use platform_system_libhidl.Handle.{HidlHandle, empty_handle}
use platform_system_libhidl.MqDescriptor.{NativeHandle}
use platform_system_libhidl.Strings.Assign.{
  Holds, CanFree, Copied, freed, cell-freed, clear-freed, copy_assign-Holds,
}
use platform_system_libhidl.Strings.{HidlString, empty_string}
use platform_system_libhidl.Vec.Content.{IsHeap}
use platform_system_libhidl.Vec.{uint32_max}
use platform_system_libhidl.SharedMemory.{
  HidlMemory, AshmemMemory, blank_memory, copy_ctor, move_ctor, destroy, map_memory,
  destroy_mapping,
}
use platform_system_libhidl.Prelude.{
  Bool-cases, length, none-some, ℤ, done, Bytes, ℕ, refl, sym, ap, inl, inr, true, false, Option,
  none, some, List, [], arith, ◌==◌, ◌≤◌, ◌≡◌, ◌∙◌, ◌∷◌,
}

Holds-CanFree : (k : ℕ) (h : Heap ℕ) (s : HidlString) (t : Bytes) → Holds h s t → CanFree k h s
Holds-CanFree k h s t holds = ground (arith, holds.block)

-- When the block of a copy into an empty string is freed, the memory is as it was before the copy.
freed-Copied :
    (k : ℕ) (h g : Heap ℕ) (s : HidlString) (t : Bytes)
    → h.cell k ≡ some (0 ∷ [])
    → Copied k h (empty_string k) t s g
    → (p : ℕ) → (freed k s g).cell p ≡ h.cell p
freed-Copied k h g s t used new p = elim (Bool-cases (s.buffer == p)) [
  | inl same ↦
      let q : p ≡ s.buffer = ground (arith, same) in
      let apart : (s.buffer == k) ≡ false = elim (Bool-cases (s.buffer == k)) [
        | inl e ↦
            let e' : s.buffer ≡ k = ground (arith, e) in
            absurd (none-some (sym new.fresh ∙ ap h.cell e' ∙ used))
        | inr e ↦ e
      ] in
      let fresh : h.cell p ≡ none = ap h.cell q ∙ new.fresh in
      ground (arith, cell-freed k g s p, same, apart, fresh, new.owner, new.valid)
  | inr other ↦ ground (arith, cell-freed k g s p, new.memory p, other)
]

module _ {W : Type 0} (clone : NativeHandle → W → Option NativeHandle × W)
    (close : NativeHandle → W → W) (k init : ℕ) where
  -- A move takes everything and leaves an empty memory behind, whose end closes no handle and frees
  -- no string.
  pub move_ctor_lem :
      (other : HidlMemory) (w v : W) (h g : Heap ℕ)
      → (move_ctor clone close k init other w h
          ≡ done (other, blank_memory clone close k init, w, h))
        × (destroy clone close k init (blank_memory clone close k init) v g ≡ done (v, g))
  unfolding move_ctor destroy
  move_ctor_lem other w v h g = (refl, refl)

  handle-copied :
      (handle : HidlHandle) (native c : NativeHandle) (w w' : W)
      → handle.handle ≡ some native
      → clone native w ≡ (some c, w')
      → Handle.copy_assign clone close empty_handle handle w
        ≡ done (record { handle = some c; owns = true }, w')
  unfolding Handle.copy_assign Handle.free_handle
  handle-copied handle native c w w' own cloned = rw (Handle.copy_assign, own, cloned, cloned) refl

  copy_ctor-Holds :
      (mem : HidlMemory) (native c : NativeHandle) (t : Bytes) (w w' : W) (h : Heap ℕ)
      → mem.handle.handle ≡ some native
      → clone native w ≡ (some c, w')
      → IsHeap h
      → length t ≤ uint32_max
      → Holds h mem.name t
      → (copied : HidlString) × (g : Heap ℕ) × (copy_ctor clone close k init mem w h
          ≡ done (
            record {
              handle = record { handle = some c; owns = true };
              size = mem.size;
              name = copied;
            },
            w',
            g,
          ))
        × Copied k h (empty_string k) t copied g
        × Holds g copied t
        × Holds g mem.name t
  unfolding copy_ctor
  copy_ctor-Holds mem native c t w w' h own cloned is fits holds =
      let (copied, g, e, fresh, new, old) =
        copy_assign-Holds k init h (empty_string k) mem.name t is refl fits holds refl in
      (copied, g, rw (handle-copied mem.handle native c w w' own cloned, e) refl, fresh, new, old)

  module _ (mmap : (size : ℕ) → (fd : ℤ) → W → Option ℕ × W)
      (munmap : (address size : ℕ) → W → W) where
    map_memory-mapped :
        (mem m : HidlMemory) (fd : ℤ) (fds ints : List ℤ) (a : ℕ) (w w' w'' : W) (h g : Heap ℕ)
        → mem.handle.handle ≡ some (record { fds = fd ∷ fds; ints = ints })
        → mmap mem.size fd w ≡ (some a, w')
        → copy_ctor clone close k init mem w' h ≡ done (m, w'', g)
        → map_memory clone close k init mmap munmap mem w h
          ≡ done (some (record { memory = m; mapped = a }), w'', g)
    unfolding map_memory
    map_memory-mapped mem m fd fds ints a w w' w'' h g own mapped copied =
        rw (map_memory, own, mapped, mapped, copied) refl

    -- Where the memory's handle has a descriptor, mmap succeeds and the handle can be cloned, its
    -- name holds a text of at most UINT32_MAX bytes, and kEmptyString's block is in use: mapMemory
    -- gives a mapping with the address that mmap gave and the memory's size, which owns the clone
    -- and a name with the same text in a block that was not in use before, while the memory's own
    -- name still holds the text. The mapping's end unmaps exactly that region and closes exactly
    -- the clone, and then every block of the memory is as it was before mapMemory.
    pub map_memory-destroy :
        (mem : HidlMemory) (fd : ℤ) (fds ints : List ℤ) (c : NativeHandle) (t : Bytes) (a : ℕ)
        (w w' w'' : W) (h : Heap ℕ)
        → mem.handle.handle ≡ some (record { fds = fd ∷ fds; ints = ints })
        → mmap mem.size fd w ≡ (some a, w')
        → clone (record { fds = fd ∷ fds; ints = ints }) w' ≡ (some c, w'')
        → IsHeap h
        → h.cell k ≡ some (0 ∷ [])
        → length t ≤ uint32_max
        → Holds h mem.name t
        → (m : AshmemMemory) × (g : Heap ℕ) × (g' : Heap ℕ) × (map_memory clone close k init mmap
              munmap mem w h
            ≡ done (some m, w'', g))
          × (m.mapped ≡ a)
          × (m.memory.size ≡ mem.size)
          × (m.memory.handle ≡ record { handle = some c; owns = true })
          × (m.memory.name.owns ≡ true)
          × (h.cell m.memory.name.buffer ≡ none)
          × Holds g m.memory.name t
          × Holds g mem.name t
          × (destroy_mapping clone close k init mmap munmap m w'' g
              ≡ done (close c (munmap a mem.size w''), g'))
          × ((p : ℕ) → g'.cell p ≡ h.cell p)
    unfolding destroy_mapping destroy Handle.destroy
    map_memory-destroy mem fd fds ints c t a w w' w'' h own mapped cloned is used fits holds =
        let (copied, g, e, fresh, new, old) =
          copy_ctor-Holds mem (record { fds = fd ∷ fds; ints = ints }) c t w' w'' h own cloned is
            fits holds in
        let cleared = clear-freed k g copied (Holds-CanFree k g copied t new) in
        let memory : HidlMemory = record {
          handle = record { handle = some c; owns = true };
          size = mem.size;
          name = copied;
        } in
        (
          record { memory = memory; mapped = a },
          g,
          freed k copied g,
          map_memory-mapped mem memory fd fds ints a w w' w'' h g own mapped e,
          refl,
          refl,
          refl,
          fresh.owner,
          fresh.fresh,
          new,
          old,
          rw cleared refl,
          freed-Copied k h g copied t used fresh,
        )
