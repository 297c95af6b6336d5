-- ===== src/Tests/Strings.antt =====
-- Strings: block 1 is the empty string's, `hi` owns block 2. A
-- shared memory of 4096 bytes has the name `hi`; its world is a count of calls.
use platform_system_libhidl.Blocks.{Heap}
use platform_system_libhidl.Vec.Content.{IsHeap}
use platform_system_libhidl.Strings.{HidlString, hidl_string}
use platform_system_libhidl.Strings.Assign.{Holds}
use platform_system_libhidl.MqDescriptor.{NativeHandle}
use platform_system_libhidl.SharedMemory.{HidlMemory, AshmemMemory, map_memory, destroy_mapping}
use platform_system_libhidl.SharedMemory.Mapped.{map_memory-destroy}
use platform_system_libhidl.Prelude.{
  ℤ, pos, done, Bytes, ℕ, suc, refl, true, Option, none, some, [], arith, ◌==◌, if◌then◌else◌, ◌+◌,
  ◌≡◌, ◌∷◌,
}

abbrev memory : Heap ℕ
memory = record {
  next = 4;
  cell = λ p.
      if p == 1
      then some (0 ∷ [])
      else if p == 2
      then some (104 ∷ 105 ∷ 0 ∷ [])
      else if p == 3
      then some (98 ∷ 121 ∷ 101 ∷ 0 ∷ [])
      else none;
}

abbrev hi : HidlString
hi = hidl_string 2 2 true

abbrev hi_text : Bytes
hi_text = 104 ∷ 105 ∷ []

memory-IsHeap : IsHeap memory
memory-IsHeap = record { next_pos = omega arith; unused = λ p above. ground arith }

hi-Holds : Holds memory hi hi_text
hi-Holds = record { size = refl; rest = []; block = refl }

abbrev descriptor : NativeHandle
descriptor = record { fds = pos 7 ∷ []; ints = [] }

abbrev cloned : NativeHandle
cloned = record { fds = pos 8 ∷ []; ints = [] }

abbrev clone : NativeHandle → ℕ → Option NativeHandle × ℕ
clone handle w = (some cloned, suc w)

abbrev close : NativeHandle → ℕ → ℕ
close handle w = w + 100

abbrev mmap : ℕ → ℤ → ℕ → Option ℕ × ℕ
mmap size fd w = (some 65536, suc w)

abbrev munmap : ℕ → ℕ → ℕ → ℕ
munmap address size w = w + 10

abbrev page : HidlMemory
page = record { handle = record { handle = some descriptor; owns = true }; size = 4096; name = hi }

map_memory-destroy_example :
    (m : AshmemMemory) × (g : Heap ℕ) × (g' : Heap ℕ) × (map_memory clone close 1 0 mmap munmap page
        0 memory
      ≡ done (some m, 2, g))
    × (m.mapped ≡ 65536)
    × (m.memory.size ≡ 4096)
    × (m.memory.handle ≡ record { handle = some cloned; owns = true })
    × (m.memory.name.owns ≡ true)
    × (memory.cell m.memory.name.buffer ≡ none)
    × Holds g m.memory.name hi_text
    × Holds g hi hi_text
    × (destroy_mapping clone close 1 0 mmap munmap m 2 g ≡ done (112, g'))
    × ((p : ℕ) → g'.cell p ≡ memory.cell p)
map_memory-destroy_example =
    map_memory-destroy clone close 1 0 mmap munmap page (pos 7) [] [] cloned hi_text 65536 0 1 2
      memory refl refl refl memory-IsHeap refl (omega arith) hi-Holds
