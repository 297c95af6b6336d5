-- ===== src/Mapping/Cache.antt =====
-- A mapper is fetched once.
use platform_system_libhidl.ConcurrentMap.{find_in, assign_in}
use platform_system_libhidl.ConcurrentMap.View.{find_in-assign_in}
use platform_system_libhidl.Mapping.{MapperService, MapperState, get_mapper_service}
use platform_system_libhidl.Prelude.Eq.{bytes_eq}
use platform_system_libhidl.Prelude.{
  Bool-cases, Option-cases, Bytes, eqb_bytes, eqb_bytes_refl, eq_of_eqb_bytes, refl, inl, inr, some,
  if◌then◌else◌, ◌≡◌, ◌∙◌,
}

module _ {M I B W : Type 0} (t : MapperService M I B W) where
  -- A mapper that was found stays: the next request for the same name gives the same mapper,
  -- without a call of getService and without a change of the state. The mappers of other names
  -- are as they were.
  pub get_mapper_service_lem :
      (name other : Bytes) (s : MapperState M W) (m : M)
      → (get_mapper_service t name s).0 ≡ some m
      → (get_mapper_service t name (get_mapper_service t name s).1
          ≡ (some m, (get_mapper_service t name s).1))
        × (find_in other (get_mapper_service t name s).1.mappers
            ≡ (if eqb_bytes name other then some m else find_in other s.mappers))
  unfolding get_mapper_service
  get_mapper_service_lem name other s m found = elim (Option-cases (find_in name s.mappers)) [
    | inl e ↦ elim (Option-cases (t.get_service name s.world).0) [
      | inl n ↦ let no = rw (get_mapper_service, e, n) at found in cc
      | inr (k, n) ↦
          let same = rw (get_mapper_service, e, n) at found in
          let put : find_in name (assign_in name k s.mappers) ≡ some k =
            find_in-assign_in name name k s.mappers ∙ rw (eqb_bytes_refl name) in
          (
            rw (get_mapper_service, e, n, put, same) (rw (get_mapper_service, e, n) refl),
            rw (get_mapper_service, e, n, ← same) (find_in-assign_in name other k s.mappers),
          )
    ]
    | inr (m', e) ↦
        let same = rw (get_mapper_service, e) at found in
        (
          rw (get_mapper_service, e, get_mapper_service, e, same) (rw (get_mapper_service, e) refl),
          rw (get_mapper_service, e)
              (elim (Bool-cases (eqb_bytes name other)) [
                | inl c ↦ rw (c, ← (eq_of_eqb_bytes name other c)) (e ∙ same)
                | inr c ↦ rw c refl
              ]),
        )
  ]
