-- ===== src/Parcelling/Roundtrip.antt =====
-- What comes back out of a parcel.
use platform_system_libhidl.Status.Codes.{StatusCodes}
use platform_system_libhidl.Status.{
  Status, ok_status, is_ok, ex_has_reply_header, ex_transaction_failed, set_exception,
}
use platform_system_libhidl.Version.{HidlVersion, IsVersion}
use platform_system_libhidl.Parcelling.{
  ParcelOps, Conversions, read_status, read_exception, read_message, write_status, write_version,
  read_version,
}
use platform_system_libhidl.Prelude.{
  Bool-cases, ℤ, eqb_ℤ, eqb_ℤ_refl, ℕ, refl, inl, inr, false, some, List, [], arith, if◌then◌else◌,
  ◌+◌, ◌*◌, ◌/◌, ◌%◌, ◌^◌, ◌≡◌, ◌∙◌, ◌∷◌, ◌++◌,
}

-- What a parcel holds from its position on.
pub data Item : Type 0 where
  int32 : ℤ → Item
  uint32 : ℕ → Item
  string16 : List ℕ → Item

-- The parcel's documented behaviour: a write succeeds and appends, a read of what stands next
-- succeeds and moves on.
pub record Reliable {P : Type 0} (c : StatusCodes) (o : ParcelOps P) (unread : P → List Item)
    : Type 0 where
  pub ok_write_int32 : (v : ℤ) (p : P) → (o.write_int32 v p).0 ≡ c.ok
  pub unread_write_int32 : (v : ℤ) (p : P) → unread (o.write_int32 v p).1 ≡ unread p ++ int32 v ∷ []
  pub ok_write_string16 : (t : List ℕ) (p : P) → (o.write_string16 t p).0 ≡ c.ok
  pub unread_write_string16 :
      (t : List ℕ) (p : P) → unread (o.write_string16 t p).1 ≡ unread p ++ string16 t ∷ []
  pub ok_write_uint32 : (n : ℕ) (p : P) → (o.write_uint32 n p).0 ≡ c.ok
  pub unread_write_uint32 :
      (n : ℕ) (p : P) → unread (o.write_uint32 n p).1 ≡ unread p ++ uint32 n ∷ []
  pub reads_int32 :
      (p : P) (v : ℤ) (rest : List Item)
      → unread p ≡ int32 v ∷ rest
      → (p' : P) × (o.read_int32 p ≡ (c.ok, v, p')) × (unread p' ≡ rest)
  pub reads_string16 :
      (p : P) (t : List ℕ) (rest : List Item)
      → unread p ≡ string16 t ∷ rest
      → (p' : P) × (o.read_string16 p ≡ (c.ok, t, p')) × (unread p' ≡ rest)
  pub reads_uint32 :
      (p : P) (n : ℕ) (rest : List Item)
      → unread p ≡ uint32 n ∷ rest
      → (p' : P) × (o.read_uint32 p ≡ (c.ok, n, p')) × (unread p' ≡ rest)

module _ {P : Type 0} (c : StatusCodes) (o : ParcelOps P) (unread : P → List Item)
    (reliable : Reliable c o unread) where
  -- A version written into an empty parcel is read back, and nothing else is left in it.
  pub read_version-write_version :
      (v : HidlVersion) (p : P)
      → IsVersion v
      → unread p ≡ []
      → (p' : P) × ((write_version c o v p).0 ≡ c.ok)
        × (read_version c o (write_version c o v p).1 ≡ (some v, p'))
        × (unread p' ≡ [])
  unfolding write_version read_version
  read_version-write_version v p range empty =
      let n = v.major * 2 ^ 16 + v.minor in
      let high : n / 2 ^ 16 ≡ v.major = omega (arith, range.minor_range) in
      let low : n % 2 ^ 16 ≡ v.minor = omega (arith, range.minor_range) in
      let w = reliable.unread_write_uint32 n p in
      let (p', e, left) = reliable.reads_uint32 (o.write_uint32 n p).1 n [] (w ∙ rw empty) in
      (p', reliable.ok_write_uint32 n p, rw (read_version, e, eqb_ℤ_refl c.ok, high, low), left)

  -- In a parcel whose writes succeed and append, and whose reads give what stands next: a status
  -- whose message String16 and String8 take to UTF-16 and back unchanged, and whose exception is
  -- neither EX_HAS_REPLY_HEADER nor EX_TRANSACTION_FAILED, is written into the empty parcel. Then
  -- of an error its exception and its message are read back, of a status that is fine the status,
  -- and nothing else is left in the parcel.
  pub read_status-write_status :
      (u : Conversions) (s old : Status) (p : P)
      → u.string8 (u.string16 s.message) ≡ s.message
      → unread p ≡ []
      → eqb_ℤ s.exception ex_has_reply_header ≡ false
      → eqb_ℤ s.exception ex_transaction_failed ≡ false
      → (p' : P) × ((write_status c o u s p).0 ≡ c.ok)
        × (read_status c o u old (write_status c o u s p).1 ≡ (
          if is_ok s
              then ok_status
              else record { exception = s.exception; error_code = c.no_error; message = s.message },
          c.ok,
          p',
        ))
        × (unread p' ≡ [])
  unfolding write_status read_status read_exception read_message set_exception
  read_status-write_status u s old p back empty no_header no_transaction =
      let w = reliable.unread_write_int32 s.exception p in
      let ok_w = reliable.ok_write_int32 s.exception p in
      let same = eqb_ℤ_refl c.ok in
      let p1 = (o.write_int32 s.exception p).1 in
      elim (Bool-cases (is_ok s)) [
        | inl fine ↦
            let (p', e, left) = reliable.reads_int32 p1 s.exception [] (w ∙ rw empty) in
            (
              p',
              rw (no_transaction, ok_w, same, fine) refl,
              rw (no_transaction, ok_w, same, fine, e, same, no_header, fine) refl,
              left,
            )
        | inr bad ↦
            let t = reliable.unread_write_string16 (u.string16 s.message) p1 in
            let p2 = (o.write_string16 (u.string16 s.message) p1).1 in
            let ok_t = reliable.ok_write_string16 (u.string16 s.message) p1 in
            let (p', e, left) =
              reliable.reads_int32 p2 s.exception (string16 (u.string16 s.message) ∷ [])
                (t ∙ rw (w, empty)) in
            let (p'', e', left') = reliable.reads_string16 p' (u.string16 s.message) [] left in
            (
              p'',
              rw (no_transaction, ok_w, same, bad) ok_t,
              rw
                  (
                    no_transaction, ok_w, same, bad, e, same, no_header, read_exception, bad,
                    read_message, e', same, back,
                  )
                  refl,
              left',
            )
      ]
