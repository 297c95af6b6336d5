-- ===== src/Tests/Memory.antt =====
-- Handles whose clones count descriptors upwards, and mappers that are numbers.
use platform_system_libhidl.MqDescriptor.{NativeHandle}
use platform_system_libhidl.Handle.{HidlHandle}
use platform_system_libhidl.ConcurrentMap.{find_in}
use platform_system_libhidl.Mapping.{MapperService, MapperState, get_mapper_service}
use platform_system_libhidl.Mapping.Cache.{get_mapper_service_lem}
use platform_system_libhidl.Status.Return.{of_value}
use platform_system_libhidl.Prelude.Eq.{bytes_eq}
use platform_system_libhidl.Casts.{CastOps, in_chain, cast_interface}
use platform_system_libhidl.Casts.Outcomes.{cast_interface_lem}
use platform_system_libhidl.Prelude.{
  pos, done, codes, ℕ, suc, refl, Bool, true, false, Option, none, some, List, [], ◌≡◌, ◌∷◌,
}

-- The world lists the handles that were closed.
abbrev clone : NativeHandle → List NativeHandle → Option NativeHandle × List NativeHandle
clone h w = (some (record h { fds = pos 9 ∷ [] }), w)

abbrev close : NativeHandle → List NativeHandle → List NativeHandle
close h w = h ∷ w

abbrev first : HidlHandle
first = record { handle = some (record { fds = pos 4 ∷ []; ints = [] }); owns = true }

abbrev second : HidlHandle
second = record { handle = some (record { fds = pos 5 ∷ []; ints = [] }); owns = true }

abbrev mapper : MapperService ℕ ℕ ℕ ℕ
mapper = record {
  get_service = λ name w. (some w, suc w);
  is_remote = λ m. false;
  map_memory = λ m b w. (of_value (some b), w);
}

abbrev no_mappers : MapperState ℕ ℕ
no_mappers = record { mappers = []; world = 3 }

get_mapper_service_lem_example :
    (get_mapper_service mapper
        (codes "ashmem")
        (get_mapper_service mapper (codes "ashmem") no_mappers).1
      ≡ (some 3, (get_mapper_service mapper (codes "ashmem") no_mappers).1))
    × (find_in (codes "b") (get_mapper_service mapper (codes "ashmem") no_mappers).1.mappers ≡ none)
unfolding get_mapper_service find_in
get_mapper_service_lem_example =
    get_mapper_service_lem mapper (codes "ashmem") (codes "b") no_mappers 3 refl

-- An interface is a number, and its child a pair of it with whether it is a proxy.
abbrev casts : CastOps ℕ (ℕ × Bool) ℕ
casts = record {
  interface_chain = λ i w. (some (codes "IFoo" ∷ codes "IBase" ∷ []), of_value tt, suc w);
  is_remote = λ i. true;
  new_proxy = λ i. (i, true);
  static_cast = λ i. (i, false);
}

cast_interface_lem_example :
    cast_interface casts (some 6) (codes "IBase") true 0 ≡ done (of_value (some (6, true)), 1)
unfolding of_value in_chain
cast_interface_lem_example = cast_interface_lem casts 6 (codes "IBase") true 0
