-- ===== src/ConcurrentMap.antt =====
-- transport/include/hidl/ConcurrentMap.h: a map behind a mutex. Each method is one atomic step;
-- `setLocked` and `getLocked` run under a lock that the caller took by `lock()`. The `std::map` is
-- an association list.
pub mod View
use platform_system_libhidl.Prelude.Eq.{Eq}
use platform_system_libhidl.Prelude.{
  is_some, ℕ, Bool, Option, none, some, List, [], if◌then◌else◌, ◌∷◌,
}

pub record ConcurrentMap {ℓ} (K V : Type ℓ) : Type ℓ where
  pub entries : List (K × V)

module _ {ℓ} {K V : Type ℓ} where
  unfoldable pub empty : ConcurrentMap K V
  empty = record { entries = [] }

module _ {ℓ} {K V : Type ℓ} ⦃e : Eq K⦄ where
  -- mMap.find(k)
  unfoldable pub find_in : K → List (K × V) → Option V
  find_in k [] = none
  find_in k ((j, v) ∷ rest) = if e.beq j k then some v else find_in k rest

  -- mMap[k] = v
  unfoldable pub assign_in : K → V → List (K × V) → List (K × V)
  assign_in k v [] = (k, v) ∷ []
  assign_in k v ((j, w) ∷ rest) = if e.beq j k then (j, v) ∷ rest else (j, w) ∷ assign_in k v rest

  -- mMap.erase(k)
  erase_in : K → List (K × V) → List (K × V)
  erase_in k [] = []
  erase_in k ((j, v) ∷ rest) =
      let others = erase_in k rest in if e.beq j k then others else (j, v) ∷ others

  unfoldable pub find : K → ConcurrentMap K V → Option V
  unfolding find_in
  find k m = find_in k m.entries

  unfoldable pub set_locked : K → V → ConcurrentMap K V → ConcurrentMap K V
  unfolding assign_in
  set_locked k v m = record { entries = assign_in k v m.entries }

  unfoldable pub set : K → V → ConcurrentMap K V → ConcurrentMap K V
  unfolding set_locked
  set k v m = set_locked k v m

  unfoldable pub get_locked : K → V → ConcurrentMap K V → V
  unfolding find
  get_locked k def m = elim (find k m) [ none ↦ def | some v ↦ v ]

  unfoldable pub get : K → V → ConcurrentMap K V → V
  unfolding get_locked
  get k def m = get_locked k def m

  -- The new map and the number of erased elements.
  unfoldable pub erase : K → ConcurrentMap K V → ConcurrentMap K V × ℕ
  unfolding find erase_in
  erase k m = (record { entries = erase_in k m.entries }, if is_some (find k m) then 1 else 0)

  -- `same` is V's operator==.
  erase_found : (V → V → Bool) → K → V → ConcurrentMap K V → Option V → ConcurrentMap K V × ℕ
  erase_found same k v m none = (m, 0)
  erase_found same k v m (some w) = if same w v then ((erase k m).0, 1) else (m, 0)

  unfoldable pub erase_if_equal : (V → V → Bool) → K → V → ConcurrentMap K V → ConcurrentMap K V × ℕ
  unfolding erase_found
  erase_if_equal same k v m = erase_found same k v m (find k m)
