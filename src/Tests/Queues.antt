-- ===== src/Tests/Queues.antt =====
-- Message queue descriptors and the lookup of a service in libraries.
use platform_system_libhidl.MqDescriptor.{
  MqDescriptor, synchronized_read_write, from_grantors, from_sizes, get_size, copy_ctor, destroy,
}
use platform_system_libhidl.MqDescriptor.Layout.{IsLayout, regions, queue, from_sizes_lem}
use platform_system_libhidl.MqDescriptor.Copy.{destroy-copy_queue}
use platform_system_libhidl.Passthrough.{Build, Event, Lookup, find_colons, paths, search, get}
use platform_system_libhidl.Passthrough.Handles.{Balances, get-Balances}
use platform_system_libhidl.Tests.Descriptors.{
  Table, is_open, dup, close, dup-fresh, is_open-dup, is_open-close,
}
use platform_system_libhidl.Prelude.{
  ltb, is_some, length, pos, done, Bytes, codes, ℕ, refl, Bool, true, false, Option, none, some,
  List, [], arith, if◌then◌else◌, ◌>>=◌, ◌+◌, ◌≡◌, ◌⊎◌, ◌∷◌,
}

from_sizes_lem_example :
    (from_sizes 64 synchronized_read_write 100 none 4 true
      ≡ done (queue synchronized_read_write 100 none 4 true))
    × IsLayout 0 (regions 100 true)
    × (from_grantors synchronized_read_write (regions 100 true) none 4
        ≡ from_sizes 64 synchronized_read_write 100 none 4 true)
    × ((from_sizes 64 synchronized_read_write 100 none 4 true >>= get_size) ≡ done 100)
from_sizes_lem_example = from_sizes_lem synchronized_read_write 100 none 4 true (omega arith)

abbrev shared : MqDescriptor
shared =
    queue synchronized_read_write 100 (some (record { fds = pos 0 ∷ pos 2 ∷ []; ints = [] })) 4 true

abbrev process : Table
process = record { next = 3; gone = λ x. false }

destroy-copy_queue_example :
    ((copy_ctor dup shared process).0.grantors ≡ regions 100 true)
    × ((copy_ctor dup shared process).0.quantum ≡ 4)
    × ((copy_ctor dup shared process).0.flags ≡ 1)
    × ((if is_open process (pos 2) then is_open (copy_ctor dup shared process).1 (pos 2) else true)
        ≡ true)
    × (is_open
          (destroy close (copy_ctor dup shared process).0 (copy_ctor dup shared process).1)
          (pos 2)
        ≡ is_open process (pos 2))
destroy-copy_queue_example =
    destroy-copy_queue dup close is_open dup-fresh is_open-dup is_open-close shared process (pos 2)

abbrev build : Build
build = record {
  odm = codes "/odm/";
  vendor = codes "/vendor/";
  vndk_sp = codes "/vndk/";
  system = codes "/system/";
  debuggable = false;
  treble_testing_override = none;
  vts_root_path = none;
}

-- Two libraries in every directory; the loader gives their handles from the events so far, and
-- only the symbol of the handle 2 makes an instance.
abbrev listing : List Event → Bytes → Option (List Bytes)
listing t path = some (codes "a@1.0-impl.so" ∷ codes "readme" ∷ codes "a@1.0-impl-b.so" ∷ [])

abbrev dlopen : List Event → Bool → Bytes → Option ℕ
dlopen t sphal path = some (length t + 1)

abbrev dlsym : List Event → ℕ → Bytes → Option ℕ
dlsym t h symbol = some h

abbrev generate : List Event → ℕ → Bytes → Option ℕ
generate t generator name = if ltb 1 generator then some 77 else none

abbrev looked_up : Lookup
looked_up = get listing dlopen dlsym generate (λ t. true) build (codes "a@1.0::IA") (codes "x") []

get-Balances_example :
    ((looked_up.ret ≡ none) × Balances [] none looked_up.events)
    ⊎ ((is_some looked_up.ret ≡ true) × ((h : ℕ) × Balances [] (some h) looked_up.events))
get-Balances_example =
    get-Balances listing dlopen dlsym generate (λ t. true) build (codes "a@1.0::IA") (codes "x") []

looked_up_ret : looked_up.ret ≡ some 77
unfolding get find_colons paths search
looked_up_ret = refl
