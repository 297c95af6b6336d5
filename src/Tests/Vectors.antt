-- ===== src/Tests/Vectors.antt =====
-- A program over vectors of numbers; block 1 is the client's.
use platform_system_libhidl.Blocks.{Heap}
use platform_system_libhidl.Vec.{HidlVec}
use platform_system_libhidl.Vec.Content.{IsHeap}
use platform_system_libhidl.Vec.Pool.{
  Op, assigns, copies, moves, resizes, externals, ends, start, run, meanings, AllValid,
}
use platform_system_libhidl.Vec.Good.{Good}
use platform_system_libhidl.Vec.Refines.{run_vectors-Good}
use platform_system_libhidl.Prelude.{
  done, ℕ, refl, none, some, List, [], arith, ◌==◌, if◌then◌else◌, ◌≡◌, ◌∷◌,
}

abbrev memory : Heap ℕ
memory = record { next = 2; cell = λ p. if p == 1 then some (10 ∷ 20 ∷ 30 ∷ []) else none }

memory-IsHeap : IsHeap memory
memory-IsHeap = record { next_pos = omega arith; unused = λ p above. ground arith }

-- Vector 1 is moved from, and gets a new value before it is read again.
abbrev program : List (Op ℕ)
program =
    externals 0 1 (10 ∷ 20 ∷ [])
    ∷ copies 1 0
    ∷ resizes 1 3
    ∷ moves 2 1
    ∷ assigns 1 (7 ∷ [])
    ∷ copies 0 1
    ∷ ends 1
    ∷ []

program-AllValid : AllValid 0 memory (λ i. some []) program
unfolding AllValid
program-AllValid = (
  (omega arith, ((30 ∷ [], refl), refl)),
  (refl, ((omega arith, refl), ((refl, refl), (omega arith, (refl, (tt, tt)))))),
)

run_vectors-Good_example :
    (g : Heap ℕ) × (f : ℕ → HidlVec) × (run 0 program (start memory)
      ≡ done (record { objects = f; heap = g }))
    × Good memory g f (meanings 0 program (λ i. some []))
run_vectors-Good_example = run_vectors-Good 0 memory program memory-IsHeap program-AllValid

meanings_of_program :
    (meanings 0 program (λ i. some []) 0 ≡ some (7 ∷ []))
    × (meanings 0 program (λ i. some []) 1 ≡ some [])
    × (meanings 0 program (λ i. some []) 2 ≡ some (10 ∷ 20 ∷ 0 ∷ []))
unfolding meanings
meanings_of_program = (refl, refl, refl)
