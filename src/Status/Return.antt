-- ===== src/Status/Return.antt =====
-- base/include/hidl/Status.h, base/Status.cpp: `return_status` and `Return<T>`. A failed status
-- that nobody checked aborts the process when it is destroyed or overwritten.
pub mod Checked
pub mod Variants
use platform_system_libhidl.Status.Codes.{StatusCodes}
use platform_system_libhidl.Status.{Status, ok_status, is_ok, transaction_error}
use platform_system_libhidl.Prelude.{
  eqb_ℤ, Run, done, fatal, Bool, true, false, not, if◌then◌else◌, ◌||◌, ◌>>=◌, ◌>>◌,
}

-- `val` is `T mVal {}`; `checked` is the mutable flag `mCheckedStatus`.
pub record Return {ℓ} (T : Type ℓ) : Type ℓ where
  pub status : Status
  pub checked : Bool
  pub val : T

module _ {ℓ} {T : Type ℓ} where
  unfoldable pub of_value : T → Return T
  unfolding ok_status
  of_value v = record { status = ok_status; checked = false; val = v }

  -- `init` is the value-initialised `T {}`.
  unfoldable pub of_status : T → Status → Return T
  of_status init s = record { status = s; checked = false; val = init }

  -- isOk() const marks the status as checked.
  unfoldable pub check : Return T → Return T
  check r = record r { checked = true }

  unfoldable pub is_dead_object : StatusCodes → Return T → Bool × Return T
  unfolding transaction_error
  is_dead_object c r =
      if eqb_ℤ (transaction_error c r.status) c.dead_object
      then (true, record r { checked = true })
      else (false, r)

  -- assertOk()
  unfoldable pub assert_ok : Return T → Run (Return T)
  unfolding check
  assert_ok r = if is_ok r.status then done (check r) else fatal

  -- operator T()
  unfoldable pub value : Return T → Run (T × Return T)
  unfolding assert_ok
  value r = do r' ← assert_ok r; done (r'.val, r')

  unfoldable pub with_default : T → Return T → T × Return T
  unfolding check
  with_default t r = (if is_ok r.status then r.val else t, check r)

  -- `if (!mCheckedStatus && !isOk()) LOG(FATAL)`: the call of isOk() marks the status.
  unfoldable pub must_be_checked : Return T → Run (Return T)
  unfolding assert_ok
  must_be_checked r = if r.checked then done r else assert_ok r

  -- ~return_status()
  unfoldable pub destroy : Return T → Run (Unit {0})
  unfolding must_be_checked
  destroy r = do r' ← must_be_checked r; done tt

  -- operator=(return_status &&) with the move of `mVal`: this object and `other` afterwards.
  unfoldable pub move_assign : Return T → Return T → Run (Return T × Return T)
  unfolding must_be_checked
  move_assign r other = do
    r' ← must_be_checked r
    done (
      record { status = other.status; checked = other.checked; val = other.val },
      record { status = r'.status; checked = r'.checked; val = other.val },
    )

  -- The move constructor assigns to a default status.
  unfoldable pub move_ctor : T → Return T → Run (Return T × Return T)
  unfolding move_assign of_status
  move_ctor init other = move_assign (of_status init ok_status) other

-- details::StatusOf<T, U>
unfoldable pub status_of {ℓ κ} : {T : Type ℓ} {U : Type κ} → U → Return T → Run (Return U)
unfolding of_status
status_of init other =
    if is_ok other.status || not other.checked then fatal else done (of_status init other.status)
