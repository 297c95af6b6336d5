-- ===== src/Status/Transport.antt =====
-- Transport errors through `Status`: `fromStatusT`, `transactionError` and the printed text.
use platform_system_libhidl.Status.Codes.{StatusCodes, IsDocumented}
use platform_system_libhidl.Status.{is_ok, from_status_t, transaction_error}
use platform_system_libhidl.Status.Describe.{description, status_to_string}
use platform_system_libhidl.Prelude.{
  append-nil, append_assoc, Bool-cases, ℤ, eqb_ℤ, eqb_ℤ_iff, Bytes, codes, sym, inl, inr, Option,
  if◌then◌else◌, ◌≡◌, ◌∙◌, ◌++◌,
}

module _ (c : StatusCodes) (doc : IsDocumented c) where
  -- Where OK and NO_ERROR are 0, a `status_t` comes back unchanged from the status made of it,
  -- and the status is fine exactly if it was NO_ERROR.
  pub transaction_error-from_status_t :
      (s : ℤ)
      → (transaction_error c (from_status_t c s) ≡ s)
        × (is_ok (from_status_t c s) ≡ eqb_ℤ s c.no_error)
  unfolding transaction_error from_status_t
  transaction_error-from_status_t s = elim (Bool-cases (eqb_ℤ s c.no_error)) [
    | inl fine ↦
        let e : s ≡ c.no_error = (eqb_ℤ_iff s c.no_error).0 fine in
        (rw fine (doc.ok_zero ∙ sym doc.no_error_zero ∙ sym e), rw fine)
    | inr bad ↦ (rw bad, rw bad)
  ]

  -- The text of a transport error names the error: "No error" for NO_ERROR, and otherwise the
  -- exception EX_TRANSACTION_FAILED with the text of the `status_t`.
  pub description-from_status_t :
      (to_string : ℤ → Bytes) (strerror_neg : ℤ → Option Bytes) (s : ℤ)
      → description c to_string strerror_neg (from_status_t c s) ≡ (
          if eqb_ℤ s c.no_error
          then codes "No error"
          else codes "Status(EX_TRANSACTION_FAILED): '"
            ++ status_to_string c to_string strerror_neg s
            ++ codes ": '")
  unfolding description from_status_t
  description-from_status_t to_string strerror_neg s = elim (Bool-cases (eqb_ℤ s c.no_error)) [
    | inl fine ↦ rw fine
    | inr bad ↦ rw bad (simp (append-nil, append_assoc))
  ]
