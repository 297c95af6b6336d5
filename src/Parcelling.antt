-- ===== src/Parcelling.antt =====
-- transport/HidlBinderSupport.cpp: statuses and versions in a parcel. The parcel of libhwbinder is
-- the parameter `ParcelOps`; each call returns its status_t. The conversions of a text to UTF-16 and
-- back, String16 and String8 of libutils, are the parameter `Conversions`.
pub mod Roundtrip
use platform_system_libhidl.Status.Codes.{StatusCodes}
use platform_system_libhidl.Status.{
  Status, ok_status, ex_none, ex_has_reply_header, ex_transaction_failed, set_exception,
  set_from_status_t, transaction_error,
}
use platform_system_libhidl.Version.{HidlVersion, make_hidl_version}
use platform_system_libhidl.Prelude.{
  ℤ, eqb_ℤ, Bytes, ℕ, not, Option, none, some, List, if◌then◌else◌, ◌+◌, ◌*◌, ◌/◌, ◌%◌, ◌^◌,
}

pub record ParcelOps (P : Type 0) : Type 0 where
  pub write_int32 : ℤ → P → ℤ × P
  pub read_int32 : P → ℤ × ℤ × P
  pub write_string16 : List ℕ → P → ℤ × P
  pub read_string16 : P → ℤ × List ℕ × P
  pub write_uint32 : ℕ → P → ℤ × P
  pub read_uint32 : P → ℤ × ℕ × P
  pub data_position : P → ℤ
  -- setDataPosition(from + by)
  pub advance : (from by : ℤ) → P → P

-- String16(const char *) and String8(const String16 &): bytes to 16-bit units and back.
pub record Conversions : Type 0 where
  pub string16 : Bytes → List ℕ
  pub string8 : List ℕ → Bytes

module _ {P : Type 0} (c : StatusCodes) (o : ParcelOps P) where
  -- The reply header, read behind its size field; the call's status, or none if it was skipped.
  unfoldable pub skip_header : P → Option ℤ × P
  skip_header p =
      let (status, header_size, p') = o.read_int32 p in
      if not (eqb_ℤ status c.ok)
      then (some status, p')
      else (none, o.advance (o.data_position p) header_size p')

module _ {P : Type 0} (c : StatusCodes) (o : ParcelOps P) (u : Conversions) where
  -- The rest of readFromParcel, once the exception is known.
  unfoldable pub read_message : Status → ℤ → P → Status × ℤ × P
  unfolding set_exception set_from_status_t
  read_message s exception p =
      let (status, message, p') = o.read_string16 p in
      if not (eqb_ℤ status c.ok)
      then (set_from_status_t c status s, status, p')
      else (set_exception c exception (u.string8 message) s, status, p')

  unfoldable pub read_exception : Status → (status exception : ℤ) → P → Status × ℤ × P
  unfolding read_message
  read_exception s status exception p =
      if eqb_ℤ exception ex_none then (ok_status, status, p) else read_message s exception p

  -- readFromParcel(Status *, const Parcel &): the status object, the result, and the parcel.
  unfoldable pub read_status : Status → P → Status × ℤ × P
  unfolding skip_header read_exception
  read_status s p =
      let (status, exception, p') = o.read_int32 p in
      if not (eqb_ℤ status c.ok)
      then (set_from_status_t c status s, status, p')
      else if eqb_ℤ exception ex_has_reply_header
      then (let (failed, p'') = skip_header c o p' in
          elim failed [
            | none ↦ read_exception s c.ok ex_none p''
            | some e ↦ (set_from_status_t c e s, e, p'')
          ])
      else read_exception s status exception p'

  -- writeToParcel(const Status &, Parcel *)
  unfoldable pub write_status : Status → P → ℤ × P
  unfolding transaction_error
  write_status s p =
      if eqb_ℤ s.exception ex_transaction_failed
      then (transaction_error c s, p)
      else (let (status, p') = o.write_int32 s.exception p in
          if not (eqb_ℤ status c.ok)
          then (status, p')
          else if eqb_ℤ s.exception ex_none
          then (status, p')
          else o.write_string16 (u.string16 s.message) p')

module _ {P : Type 0} (c : StatusCodes) (o : ParcelOps P) where
  -- writeToParcel(const hidl_version &, Parcel &). The minor version has 16 bits, so `|` adds it.
  unfoldable pub write_version : HidlVersion → P → ℤ × P
  write_version v p = o.write_uint32 (v.major * 2 ^ 16 + v.minor) p

  -- readFromParcel(const Parcel &): null if the read fails.
  unfoldable pub read_version : P → Option HidlVersion × P
  read_version p =
      let (status, version, p') = o.read_uint32 p in
      if not (eqb_ℤ status c.ok)
      then (none, p')
      else (some (make_hidl_version (version / 2 ^ 16) (version % 2 ^ 16)), p')
