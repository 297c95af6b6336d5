-- ===== src/Status/Return/Variants.antt =====
-- base/include/hidl/Status.h: `Return<sp<T>>`, `Return<void>` and the passing on of an error by
-- `StatusOf`. A strong pointer is null (none) or the object.
use platform_system_libhidl.Status.{Status, is_ok, ok_status}
use platform_system_libhidl.Status.Return.{
  Return, of_value, of_status, check, value, with_default, destroy, status_of,
}
use platform_system_libhidl.Prelude.{
  done, fatal, refl, true, false, Option, none, some, arith, if◌then◌else◌, ◌>>=◌, ◌≡◌,
}

module _ {ℓ κ} {T : Type ℓ} {U : Type κ} where
  -- The conversion of `sp<U>` to `sp<T>`.
  unfoldable pub convert : (U → T) → Option U → Option T
  convert up none = none
  convert up (some u) = some (up u)

  -- Return(sp<U> v), for a `U` that converts to `T` by `up`; Return(sp<T> v) is the case of `T`.
  unfoldable pub of_sp : (U → T) → Option U → Return (Option T)
  unfolding of_value convert
  of_sp up v = of_value (convert up v)

module _ {ℓ} {T : Type ℓ} where
  -- Return<sp<T>>(Status s)
  unfoldable pub sp_of_status : Status → Return (Option T)
  unfolding of_status
  sp_of_status s = of_status none s

-- Return<void>() and Void()
unfoldable pub void_ok : Return (Unit {0})
unfolding of_value
void_ok = of_value tt

-- Return<void>(Status s)
unfoldable pub void_of_status : Status → Return (Unit {0})
unfolding of_status
void_of_status s = of_status tt s

module _ {ℓ κ} {T : Type ℓ} {U : Type κ} where
  -- A pointer that a method returns reaches the caller converted, by the cast as by withDefault, and
  -- a null pointer stays null: the default is for failed calls only. A Return made of a
  -- status alone holds a null pointer if the status is ok; else the cast aborts and withDefault
  -- gives the default.
  pub of_sp_lem :
      (up : U → T) (v : Option U) (t : Option T) (s : Status)
      → (value (of_sp up v) ≡ done (convert up v, check (of_sp up v)))
        × ((with_default t (of_sp up v)).0 ≡ convert up v)
        × (value (sp_of_status {T = T} s)
            ≡ (if is_ok s then done (none, check (sp_of_status s)) else fatal))
        × ((with_default t (sp_of_status s)).0 ≡ (if is_ok s then none else t))
  unfolding of_sp sp_of_status value with_default ok_status
  of_sp_lem up v t s = (refl, refl, ground arith, refl)

  -- A status that StatusOf passes on is again unchecked: destroying the result unseen always
  -- aborts, as does the call itself on a success or on an unchecked status.
  pub status_of-destroy : (init : U) (r : Return T) → (status_of init r >>= destroy) ≡ fatal
  unfolding status_of destroy of_status
  status_of-destroy init r = ground arith

  -- Of the calls that StatusOf accepts, the result has the status of the argument, and withDefault
  -- gives the default.
  pub status_of-with_default :
      (init t : U) (r : Return T)
      → is_ok r.status ≡ false
      → r.checked ≡ true
      → (r' : Return U) × (status_of init r ≡ done r')
        × (r'.status ≡ r.status)
        × ((with_default t r').0 ≡ t)
  unfolding status_of of_status with_default
  status_of-with_default init t r failed seen =
      (of_status init r.status, rw (failed, seen) refl, refl, rw failed refl)

-- A call without a value need not be looked at exactly if it succeeded.
pub void_lem :
    (s : Status)
    → (destroy void_ok ≡ done tt)
      × (destroy (void_of_status s) ≡ (if is_ok s then done tt else fatal))
unfolding void_ok void_of_status destroy ok_status
void_lem s = (refl, ground arith)
