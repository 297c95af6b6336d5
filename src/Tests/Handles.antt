-- ===== src/Tests/Handles.antt =====
-- Three hidl_handles; the clone of a handle has one descriptor, the next number of the world.
use platform_system_libhidl.MqDescriptor.{NativeHandle}
use platform_system_libhidl.Handle.{empty_handle}
use platform_system_libhidl.Handle.Pool.{
  Pool, Op, copies, moves, assigns, sets, ends, run, clone_noted, close_noted, StopsAtCopy,
}
use platform_system_libhidl.Handle.Fair.{IsBalanced}
use platform_system_libhidl.Handle.Conserved.{run-IsBalanced}
use platform_system_libhidl.Prelude.{
  ltb, replicate, pos, done, fatal, ℕ, refl, Bool, true, Option, none, some, List, [],
  if◌then◌else◌, ◌+◌, ◌≡◌, ◌⊎◌, ◌∷◌,
}

abbrev native : ℕ → NativeHandle
native n = record { fds = pos n ∷ []; ints = [] }

-- Descriptors run out at 50.
abbrev clone : NativeHandle → ℕ → Option NativeHandle × ℕ
clone h w = if ltb w 50 then (some (native w), w + 1) else (none, w)

abbrev close : NativeHandle → ℕ → ℕ
close h w = w

abbrev three : Pool ℕ
three = record {
  objects = replicate 3 empty_handle;
  ledger = record { world = 8; acquired = []; closed = [] };
}

abbrev program : List Op
program =
    sets 0 (some (native 7)) true
    ∷ copies 1 0
    ∷ moves 2 1
    ∷ copies 0 2
    ∷ assigns 2 none
    ∷ copies 2 2
    ∷ ends 0
    ∷ []

abbrev all : NativeHandle → Bool
all h = true

run-IsBalanced_example :
    (StopsAtCopy clone close program three × (run clone close program three ≡ fatal))
    ⊎ ((p' : Pool ℕ) × (run clone close program three ≡ done p') × IsBalanced all p')
run-IsBalanced_example = run-IsBalanced all clone close program three refl

program_runs :
    run clone close program three
    ≡ done (record {
      objects = replicate 3 empty_handle;
      ledger = record {
        world = 10;
        acquired = native 9 ∷ native 8 ∷ native 7 ∷ [];
        closed = native 9 ∷ native 8 ∷ native 7 ∷ [];
      };
    })
unfolding run clone_noted close_noted
program_runs = refl
