-- ===== src/Tests/Vec.antt =====
-- Vectors of numbers: `numbers` owns block 1, `one` owns block 2.
use platform_system_libhidl.Blocks.{Heap}
use platform_system_libhidl.Vec.{HidlVec, hidl_vec, equal}
use platform_system_libhidl.Vec.Iterators.{begin, end_of, traverse, traverse-Holds}
use platform_system_libhidl.Vec.Content.{IsHeap, Holds}
use platform_system_libhidl.Vec.Equal.{same_elements, equal-Holds}
use platform_system_libhidl.Prelude.{
  done, ℕ, refl, true, none, some, List, [], arith, ◌==◌, if◌then◌else◌, ◌≡◌, ◌∷◌,
}

abbrev memory : Heap ℕ
memory = record {
  next = 3;
  cell = λ p. if p == 1 then some (10 ∷ 20 ∷ 30 ∷ []) else if p == 2 then some (7 ∷ []) else none;
}

abbrev numbers : HidlVec
numbers = hidl_vec 1 3 true

abbrev one : HidlVec
one = hidl_vec 2 1 true

abbrev numbers_list : List ℕ
numbers_list = 10 ∷ 20 ∷ 30 ∷ []

memory-IsHeap : IsHeap memory
memory-IsHeap = record { next_pos = omega arith; unused = λ p above. ground arith }

numbers-Holds : Holds memory numbers numbers_list
numbers-Holds = record { size = refl; block = ([], refl) }

one-Holds : Holds memory one (7 ∷ [])
one-Holds = record { size = refl; block = ([], refl) }

equal-Holds_example :
    equal ◌==◌ numbers one memory ≡ done (same_elements ◌==◌ numbers_list (7 ∷ []), memory)
equal-Holds_example =
    equal-Holds ◌==◌ memory numbers one numbers_list (7 ∷ []) numbers-Holds one-Holds

traverse-Holds_example :
    traverse 4 (begin numbers) (end_of numbers) memory ≡ done (some numbers_list, memory)
traverse-Holds_example = traverse-Holds memory numbers numbers_list numbers-Holds
