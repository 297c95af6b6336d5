-- ===== src/References.antt =====
-- transport/include/hidl/HidlBinderSupport.h: references, pointers to buffers of which a parcel
-- holds one copy each. The Parcel is a parameter; pointers are addresses, none the null pointer.
pub mod Shared
use platform_system_libhidl.Prelude.{
  ℤ, eqb_ℤ, ℕ, Bool, true, false, not, Option, none, some, if◌then◌else◌,
}

-- A status comes with the handle that the call stores and the parcel afterwards.
pub record ReferenceOps (P : Type 0) : Type 0 where
  pub ok : ℤ
  -- with isPreviouslyWritten
  pub read_embedded_reference : (parent offset : ℕ) → P → ℤ × ℕ × Bool × P
  -- with the pointer, and isPreviouslyWritten
  pub read_reference : P → ℤ × Option ℕ × ℕ × Bool × P
  pub write_embedded_null_reference : (parent offset : ℕ) → P → ℤ × ℕ × P
  pub write_null_reference : P → ℤ × ℕ × P
  -- found, childHandle and childOffset
  pub find_buffer : (buffer size : ℕ) → P → ℤ × Bool × ℕ × ℕ
  pub write_embedded_buffer : (buffer size : ℕ) → (parent offset : ℕ) → P → ℤ × ℕ × P
  pub write_buffer : (buffer size : ℕ) → P → ℤ × ℕ × P
  pub write_embedded_reference : (child child_offset : ℕ) → (parent offset : ℕ) → P → ℤ × ℕ × P
  pub write_reference : (child child_offset : ℕ) → P → ℤ × ℕ × P

-- What a call returns: the status, what it stores in `handle`, if it does, what it stores in
-- `shouldResolveRefInBuffer`, and the parcel.
pub record Written (P : Type 0) : Type 0 where
  pub status : ℤ
  pub handle : Option ℕ
  pub should_resolve : Bool
  pub parcel : P

unfoldable pub answered : {P : Type 0} → Bool → ℤ × ℕ × P → Written P
answered resolve (status, handle, p) = record {
  status = status;
  handle = some handle;
  should_resolve = resolve;
  parcel = p;
}

-- `size` is sizeof(T).
module _ {P : Type 0} (o : ReferenceOps P) (size : ℕ) where
  unfoldable pub read_embedded_reference_from_parcel : (parent offset : ℕ) → P → Written P
  read_embedded_reference_from_parcel parent offset p =
      let (status, handle, previously, p') = o.read_embedded_reference parent offset p in
      record { status = status; handle = some handle; should_resolve = not previously; parcel = p' }

  unfoldable pub read_reference_from_parcel : P → Option ℕ × Written P
  read_reference_from_parcel p =
      let (status, pointer, handle, previously, p') = o.read_reference p in
      (
        pointer,
        record {
          status = status;
          handle = some handle;
          should_resolve = not previously;
          parcel = p';
        },
      )

  unfoldable pub write_embedded_reference_to_parcel : Option ℕ → (parent offset : ℕ) → P → Written P
  unfolding answered
  write_embedded_reference_to_parcel none parent offset p =
      answered false (o.write_embedded_null_reference parent offset p)
  write_embedded_reference_to_parcel (some buffer) parent offset p =
      let (status, found, child, child_offset) = o.find_buffer buffer size p in
      if not (eqb_ℤ status o.ok)
      then record { status = status; handle = none; should_resolve = not found; parcel = p }
      else if not found
      then answered true (o.write_embedded_buffer buffer size parent offset p)
      else answered false (o.write_embedded_reference child child_offset parent offset p)

  unfoldable pub write_reference_to_parcel : Option ℕ → P → Written P
  unfolding answered
  write_reference_to_parcel none p = answered false (o.write_null_reference p)
  write_reference_to_parcel (some buffer) p =
      let (status, found, child, child_offset) = o.find_buffer buffer size p in
      if not (eqb_ℤ status o.ok)
      then record { status = status; handle = none; should_resolve = not found; parcel = p }
      else if not found
      then answered true (o.write_buffer buffer size p)
      else answered false (o.write_reference child child_offset p)
