-- ===== src/Tests/Managers.antt =====
-- One process, 12, that maps the library a@1-impl.so from /odm/lib/hw/.
use platform_system_libhidl.DebugDump.{
  is_32bit, Infos, FileSystem, contains_key, fetch_pids_for_passthrough_libraries, instance_info,
}
use platform_system_libhidl.DebugDump.Lines.{contains}
use platform_system_libhidl.DebugDump.Clients.{maps_lib, with_clients, fetch_pids_lem}
use platform_system_libhidl.Managers.{default_service_manager1_1}
use platform_system_libhidl.Managers.Default.{default_service_manager_lem}
use platform_system_libhidl.Prelude.{
  ℤ, pos, done, Bytes, codes, eqb_bytes, ℕ, refl, true, false, Option, none, some, List, [],
  if◌then◌else◌, ◌≡◌, ◌&&◌, ◌∷◌, ◌++◌,
}

abbrev file : Bytes
file = codes "/odm/lib/hw/a@1.0-impl.so"

abbrev odm_files : FileSystem
odm_files = record {
  entries = λ path. some (codes "12" ∷ codes "self" ∷ []);
  lines = λ path. some ((codes "7f00-7f01 r-xp " ++ file) ∷ codes "7f02-7f03 rw-p [heap]" ∷ []);
  strtoll = λ name. if eqb_bytes name (codes "12") then pos 12 else pos 0;
  regex_match = λ name. none;
}

abbrev found : Infos
found = (file, instance_info odm_files is_32bit (codes "/odm/lib/hw/") (codes "a@1.0::I*", [])) ∷ []

fetch_pids_lem_example :
    (f : Bytes → List ℤ) × (fetch_pids_for_passthrough_libraries odm_files found
      ≡ done (with_clients odm_files f found))
    × ((lib : Bytes) (p : ℤ)
        → contains p (f lib)
          ≡ (contains_key lib found && maps_lib odm_files (codes "12" ∷ codes "self" ∷ []) lib p))
fetch_pids_lem_example =
    fetch_pids_lem odm_files found (codes "12" ∷ codes "self" ∷ []) refl (tt, (tt, tt))

abbrev answers : List (Option ℕ)
answers = none ∷ some 5 ∷ []

abbrev reference : Option ℕ
reference = some 5

abbrev null : Option ℕ
null = none

default_service_manager_lem_example :
    (default_service_manager1_1 true (false ∷ false ∷ true ∷ []) answers none
      ≡ some (some 5, some 5))
    × (default_service_manager1_1 false [] [] reference ≡ some (some 5, some 5))
    × (default_service_manager1_1 false [] [] null ≡ some (none, none))
default_service_manager_lem_example = default_service_manager_lem 2 1 5 [] [] [] [] false
