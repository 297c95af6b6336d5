-- ===== src/Mapping.antt =====
-- libhidlmemory/mapping.cpp: the mappers of this process by name, and mapMemory. The mapper service
-- and its registration are the parameter `MapperService`, over a world `W`.
pub mod Cache
use platform_system_libhidl.ConcurrentMap.{find_in, assign_in}
use platform_system_libhidl.Status.{is_ok}
use platform_system_libhidl.Status.Return.{Return}
use platform_system_libhidl.Prelude.Eq.{bytes_eq}
use platform_system_libhidl.Prelude.{Bytes, Bool, not, Option, none, some, List, if◌then◌else◌}

-- M: references to mappers, I: references to memories, B: the memory to map.
pub record MapperService (M I B W : Type 0) : Type 0 where
  -- IMapper::getService(name, true)
  pub get_service : Bytes → W → Option M × W
  pub is_remote : M → Bool
  pub map_memory : M → B → W → Return (Option I) × W

-- `mappers` is gMappersByName.
pub record MapperState (M W : Type 0) : Type 0 where
  pub mappers : List (Bytes × M)
  pub world : W

module _ {M I B W : Type 0} (t : MapperService M I B W) where
  unfoldable pub get_mapper_service : Bytes → MapperState M W → Option M × MapperState M W
  unfolding find_in assign_in
  get_mapper_service name s = elim (find_in name s.mappers) [
    | some m ↦ (some m, s)
    | none ↦
        let (mapper, w) = t.get_service name s.world in
        elim mapper [
          | none ↦ (none, record s { world = w })
          | some m ↦ (some m, record { mappers = assign_in name m s.mappers; world = w })
        ]
  ]

  -- The memory and the state; the memory's name is an argument.
  unfoldable pub map_memory : Bytes → B → MapperState M W → Option I × MapperState M W
  unfolding get_mapper_service
  map_memory name memory s =
      let (mapper, s') = get_mapper_service name s in
      elim mapper [
        | none ↦ (none, s')
        | some m ↦
            if t.is_remote m
            then (none, s')
            else (let (ret, w) = t.map_memory m memory s'.world in
                (if not (is_ok ret.status) then none else ret.val, record s' { world = w }))
      ]
