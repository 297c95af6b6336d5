-- ===== src/Tests/Binders.antt =====
-- Binder objects: interfaces from 100 on are remote, the stub of interface i is the object i, and
-- the proxy's object of interface i is i + 1000.
use platform_system_libhidl.Binders.{
  BinderOps, BinderState, to_binder, from_binder, interfaces_equal,
}
use platform_system_libhidl.Binders.Cached.{to_binder_cached}
use platform_system_libhidl.Binders.Back.{MakesStubs, HoldsStubs, from_binder-to_binder}
use platform_system_libhidl.Casts.{CastOps}
use platform_system_libhidl.ConcurrentMap
use platform_system_libhidl.Status.Return.{of_value}
use platform_system_libhidl.Prelude.Eq.{nat_eq, bytes_eq}
use platform_system_libhidl.Prelude.{
  ltb, leb, Bool-cases, done, Bytes, codes, ℕ, suc, refl, inl, inr, Bool, true, none, some, [],
  arith, ◌==◌, if◌then◌else◌, ◌+◌, ◌-◌, ◌≡◌, ◌&&◌, ◌∷◌,
}

abbrev camera : Bytes
camera = codes "camera@1.0"

abbrev binders : BinderOps ℕ ℕ Bool ℕ
binders = record {
  interface_descriptor = λ i w. (some camera, of_value tt, suc w);
  as_binder = λ i. i + 1000;
  construct = λ f i w. (if f && ltb i 1000 then some i else none, suc w);
  is_alive = λ b w. true;
  is_local = λ b. ltb b 1000;
  get_impl = λ b. b;
  new_proxy = λ b. b - 1000;
}

abbrev near_and_far : CastOps ℕ ℕ ℕ
near_and_far = record {
  interface_chain = λ i w. (some (camera ∷ []), of_value tt, suc w);
  is_remote = λ i. leb 100 i;
  new_proxy = λ i. i;
  static_cast = λ i. i;
}

abbrev registered : BinderState ℕ ℕ Bool ℕ
registered = record {
  bn_map = record { entries = [] };
  bn_constructors = record { entries = (camera, some true) ∷ [] };
  world = 0;
}

abbrev entered : BinderState ℕ ℕ Bool ℕ
entered = record registered { bn_map = record { entries = (7, some 7) ∷ [] }; world = 2 }

makes_7 : to_binder binders near_and_far (some 7) registered ≡ done (some 7, entered)
unfolding to_binder
makes_7 = refl

to_binder_cached_example :
    (to_binder binders near_and_far (some 7) entered ≡ done (some 7, record entered { world = 3 }))
    × ((j : ℕ)
        → ConcurrentMap.get j none entered.bn_map
          ≡ (if 7 == j then some 7 else ConcurrentMap.get j none registered.bn_map))
unfolding platform_system_libhidl.Binders.get_descriptor
to_binder_cached_example =
    to_binder_cached binders near_and_far 7 7 registered entered entered 99 (codes "amera@1.0") 3
      refl makes_7 refl refl refl

binders-MakesStubs : MakesStubs binders near_and_far
binders-MakesStubs f i w = elim (Bool-cases (f && ltb i 1000)) [
  | inl q ↦ rw q (ground arith, refl)
  | inr q ↦ rw q tt
]

registered-HoldsStubs : HoldsStubs binders near_and_far registered
unfolding ConcurrentMap.get
registered-HoldsStubs i = tt

from_binder-to_binder_example :
    from_binder binders near_and_far camera (some 7) 9 ≡ done (some 7, 10)
unfolding platform_system_libhidl.Casts.can_cast_interface
from_binder-to_binder_example =
    from_binder-to_binder binders near_and_far 7 7 registered entered camera 9 10 refl
      binders-MakesStubs registered-HoldsStubs makes_7 refl
