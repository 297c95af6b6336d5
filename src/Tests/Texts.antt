-- ===== src/Tests/Texts.antt =====
-- A program over strings: block 1 is the empty string's, block 2 the client's, with the text `hi`.
use platform_system_libhidl.Blocks.{Heap}
use platform_system_libhidl.Vec.Content.{IsHeap}
use platform_system_libhidl.Strings.{HidlString}
use platform_system_libhidl.Strings.Pool.{
  Op, assigns, copies, moves, externals, clears, start, run, meanings, AllValid,
}
use platform_system_libhidl.Strings.Good.{IsClient, Good}
use platform_system_libhidl.Strings.Refines.{run_strings-Good}
use platform_system_libhidl.Prelude.{
  done, ℕ, refl, none, some, List, [], arith, ◌==◌, if◌then◌else◌, ◌≡◌, ◌∷◌,
}

abbrev memory : Heap ℕ
memory = record {
  next = 3;
  cell = λ p.
      if p == 1 then some (0 ∷ []) else if p == 2 then some (104 ∷ 105 ∷ 0 ∷ 33 ∷ []) else none;
}

memory-IsHeap : IsHeap memory
memory-IsHeap = record { next_pos = omega arith; unused = λ p above. ground arith }

memory-IsClient : IsClient 1 memory
memory-IsClient = record { static = refl; null = refl }

abbrev program : List Op
program =
    assigns 0 (98 ∷ 121 ∷ 101 ∷ [])
    ∷ externals 1 2 (104 ∷ 105 ∷ [])
    ∷ copies 2 1
    ∷ moves 1 0
    ∷ copies 0 2
    ∷ copies 2 2
    ∷ clears 2
    ∷ []

program-AllValid : AllValid memory program
unfolding AllValid
program-AllValid = (omega arith, ((omega arith, (33 ∷ [], refl)), (tt, (tt, (tt, (tt, (tt, tt)))))))

run_strings-Good_example :
    (g : Heap ℕ) × (f : ℕ → HidlString) × (run 1 0 program (start 1 memory)
      ≡ done (record { objects = f; heap = g }))
    × Good 1 memory g f (meanings program (λ i. []))
run_strings-Good_example =
    run_strings-Good 1 0 memory memory-IsClient program memory-IsHeap program-AllValid

meanings_of_program :
    (meanings program (λ i. []) 0 ≡ 104 ∷ 105 ∷ [])
    × (meanings program (λ i. []) 1 ≡ 98 ∷ 121 ∷ 101 ∷ [])
    × (meanings program (λ i. []) 2 ≡ [])
unfolding meanings
meanings_of_program = (refl, refl, refl)
