-- ===== src/ConcurrentMap/View.antt =====
-- A `ConcurrentMap` as a partial function: what each method does to `find`.
use platform_system_libhidl.Prelude.Eq.{Eq}
use platform_system_libhidl.ConcurrentMap.{
  ConcurrentMap, find_in, assign_in, erase_in, find, set, get, erase, erase_found, erase_if_equal,
}
use platform_system_libhidl.Prelude.{
  is_some, refl, Bool, false, Option, none, some, List, [], arith, if◌then◌else◌, ◌≡◌, ◌&&◌, ◌∷◌,
}

module _ {ℓ} {K V : Type ℓ} ⦃e : Eq K⦄ where
  pub find_in-assign_in :
      (k j : K) (v : V) (m : List (K × V))
      → find_in j (assign_in k v m) ≡ (if e.beq k j then some v else find_in j m)
  unfolding find_in assign_in
  find_in-assign_in k j v [] = refl
  find_in-assign_in k j v ((i, w) ∷ m) =
      ground (arith, e.beq_iff k j, e.beq_iff i k, e.beq_iff i j, find_in-assign_in k j v m)

  find_in-erase_in :
      (k j : K) (m : List (K × V))
      → find_in j (erase_in k m) ≡ (if e.beq k j then none else find_in j m)
  unfolding find_in erase_in
  find_in-erase_in k j [] = ground arith
  find_in-erase_in k j ((i, w) ∷ m) =
      ground (arith, e.beq_iff k j, e.beq_iff i k, e.beq_iff i j, find_in-erase_in k j m)

  pub find-set :
      (k j : K) (v : V) (m : ConcurrentMap K V)
      → find j (set k v m) ≡ (if e.beq k j then some v else find j m)
  unfolding find set
  find-set k j v m = find_in-assign_in k j v m.entries

  pub find-erase :
      (k j : K) (m : ConcurrentMap K V)
      → find j (erase k m).0 ≡ (if e.beq k j then none else find j m)
  unfolding find erase
  find-erase k j m = find_in-erase_in k j m.entries

  -- `get` after `set`: the new value at the key, and at every other key what `get` gave before,
  -- whatever the default.
  pub get-set :
      (k j : K) (v def : V) (m : ConcurrentMap K V)
      → get j def (set k v m) ≡ (if e.beq k j then v else get j def m)
  unfolding get
  get-set k j v def m = ground (arith, find-set k j v m)

  -- `erase` makes the key absent, leaves the other keys alone, and returns how many elements went:
  -- one exactly if the key was there.
  pub erase_lem :
      (k j : K) (def : V) (m : ConcurrentMap K V)
      → (get j def (erase k m).0 ≡ (if e.beq k j then def else get j def m))
        × ((erase k m).1 ≡ (if is_some (find k m) then 1 else 0))
  unfolding get
  erase_lem k j def m = (ground (arith, find-erase k j m), unfold erase in refl)

  -- The key holds a value that equals `v`.
  abbrev pub holds_equal : (V → V → Bool) → K → V → ConcurrentMap K V → Bool
  holds_equal same k v m = elim (find k m) [ none ↦ false | some w ↦ same w v ]

  find-erase_found :
      (same : V → V → Bool) (k j : K) (v : V) (m : ConcurrentMap K V) (o : Option V)
      → let hit : Bool = elim o [ none ↦ false | some w ↦ same w v ] in
        (find j (erase_found same k v m o).0 ≡ (if hit && e.beq k j then none else find j m))
        × ((erase_found same k v m o).1 ≡ (if hit then 1 else 0))
  unfolding erase_found
  find-erase_found same k j v m none = (refl, refl)
  find-erase_found same k j v m (some w) = (ground (arith, find-erase k j m), ground arith)

  -- The map as a partial function from keys to values, at any key `j`: `set` changes it at its key
  -- only, `erase` and `eraseIfEqual` remove at most their key and return how many elements they
  -- removed, `eraseIfEqual` only where the value is equal, and `get` reads it with a default.
  pub find_lem :
      (same : V → V → Bool) (k j : K) (v def : V) (m : ConcurrentMap K V)
      → (find j (set k v m) ≡ (if e.beq k j then some v else find j m))
        × (find j (erase k m).0 ≡ (if e.beq k j then none else find j m))
        × ((erase k m).1 ≡ (if is_some (find k m) then 1 else 0))
        × (find j (erase_if_equal same k v m).0
            ≡ (if holds_equal same k v m && e.beq k j then none else find j m))
        × ((erase_if_equal same k v m).1 ≡ (if holds_equal same k v m then 1 else 0))
        × (get j def m ≡ elim (find j m) [ none ↦ def | some w ↦ w ])
  find_lem same k j v def m = (
    find-set k j v m,
    find-erase k j m,
    unfold erase in refl,
    unfold erase_if_equal in (find-erase_found same k j v m (find k m)).0,
    unfold erase_if_equal in (find-erase_found same k j v m (find k m)).1,
    unfold get in refl,
  )
