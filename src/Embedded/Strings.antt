-- ===== src/Embedded/Strings.antt =====
-- The check of an embedded string that was received.
use platform_system_libhidl.Embedded.{BufferOps, EmbeddedString, add, check_terminator, read_string}
use native.Mathlib.Nat.{mod-eq_of_lt, mod_self}
use platform_system_libhidl.Prelude.{
  Bool-cases, length, get_elem?, drop, eq_nil_of_length, ℤ, eqb_ℤ, eqb_ℤ_iff, eqb_ℤ_refl, done,
  fault, Bytes, eqb_bytes, ℕ, zero, suc, refl, ap, inl, inr, Bool, not, some, [], arith, ◌==◌,
  if◌then◌else◌, ◌+◌, ◌%◌, ◌^◌, ◌<◌, ◌≡◌, ◌∷◌,
}

last_elem :
    (l : Bytes) (i : ℕ)
    → length l ≡ i + 1
    → (c : ℕ) × (get_elem? l i ≡ some c) × (drop i l ≡ c ∷ [])
last_elem [] i h = absurd (omega (arith, h))
last_elem (x ∷ xs) zero h = (x, refl, ap (λ l. x ∷ l) (eq_nil_of_length xs (omega (arith, h))))
last_elem (x ∷ xs) (suc i) h = last_elem xs i (omega (arith, h))

checked_byte :
    (c : ℕ) (bad good : ℤ)
    → (if not (c == 0) then bad else good) ≡ (if eqb_bytes (c ∷ []) (0 ∷ []) then good else bad)
checked_byte c bad good = elim (Bool-cases (c == 0)) [ inl q ↦ rw q refl | inr q ↦ rw q refl ]

-- What is behind the text is one zero byte.
abbrev pub is_terminated : ℕ → Bytes → Bool
is_terminated size out = eqb_bytes (drop size out) (0 ∷ [])

module _ {P : Type 0} (o : BufferOps P) (w : ℕ) where
  -- What the Parcel promises: a buffer that it could read has the size that was asked for.
  abbrev pub ReadsWhole : Type 0
  ReadsWhole =
      (size parent offset : ℕ) (p : P)
      → (o.read_embedded_buffer size parent offset p).0 ≡ o.ok
      → length (o.read_embedded_buffer size parent offset p).1 ≡ size

  pub check_terminator_lem :
      (size : ℕ) (out : Bytes)
      → length out ≡ size + 1
      → check_terminator o w size out ≡ done (if is_terminated size out then o.ok else o.bad_value)
  unfolding check_terminator
  check_terminator_lem size out h =
      let (c, found, rest) = last_elem out size h in
      rw (check_terminator, found, rest) (ap done (checked_byte c o.bad_value o.ok))

  -- What the parcel reads for the string.
  abbrev pub received : EmbeddedString → (parent offset : ℕ) → P → ℤ × Bytes × P
  received s parent offset p = o.read_embedded_buffer (s.size + 1) parent (add w offset 0) p

  -- If the string's size and one are no overflow of size_t, and the parcel reads whole buffers, then
  -- the check never reads behind the buffer: it returns the parcel's error, or BAD_VALUE where the
  -- byte behind the text is not zero, or OK where it is.
  pub read_string_lem :
      (s : EmbeddedString) (parent offset : ℕ) (p : P)
      → s.size + 1 < 2 ^ w
      → ReadsWhole
      → let (status, out, p') = received s parent offset p in
        read_string o w s parent offset p
        ≡ done (
          if not (eqb_ℤ status o.ok)
              then status
              else if is_terminated s.size out
              then o.ok
              else o.bad_value,
          p',
        )
  unfolding read_string add check_terminator
  read_string_lem s parent offset p h r =
      rw (mod-eq_of_lt h) (elim (Bool-cases (eqb_ℤ (received s parent offset p).0 o.ok)) [
        | inl q ↦
            rw
              (
                q,
                check_terminator_lem s.size (received s parent offset p).1
                    (r (s.size + 1) parent (add w offset 0) p ((eqb_ℤ_iff _ _).0 q)),
              )
              refl
        | inr q ↦ rw q refl
      ])

  -- Where the size and one are 2 ^ w, which a 32-bit size_t allows, the parcel is asked for an empty
  -- buffer, and the check reads far behind it.
  read_string_wraps :
      (s : EmbeddedString) (parent offset : ℕ) (p p' : P)
      → s.size + 1 ≡ 2 ^ w
      → o.read_embedded_buffer 0 parent (add w offset 0) p ≡ (o.ok, [], p')
      → read_string o w s parent offset p ≡ fault
  unfolding read_string add check_terminator
  read_string_wraps s parent offset p p' h q =
      let zero_size : (s.size + 1) % 2 ^ w ≡ 0 = rw h (mod_self (2 ^ w)) in
      rw (zero_size, q, eqb_ℤ_refl o.ok) refl
