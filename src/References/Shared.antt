-- ===== src/References/Shared.antt =====
-- Each buffer is in a parcel once, however many references to it are written.
use platform_system_libhidl.References.{
  ReferenceOps, Written, answered, write_embedded_reference_to_parcel, write_reference_to_parcel,
}
use platform_system_libhidl.Prelude.{
  leb, Bool-cases, ℤ, eqb_ℤ, eqb_ℤ_refl, ℕ, refl, ap, inl, inr, Bool, true, false, not, Option,
  none, some, List, [], if◌then◌else◌, ◌+◌, ◌≡◌, ◌∙◌, ◌&&◌, ◌||◌, ◌∷◌, ◌++◌,
}

-- A buffer: `size` bytes from an address.
pub record Region : Type 0 where
  pub buffer : ℕ
  pub size : ℕ

abbrev pub encloses : Region → Region → Bool
encloses a b = leb a.buffer b.buffer && leb (b.buffer + b.size) (a.buffer + a.size)

-- Is the buffer within one of these?
abbrev pub contains : Region → List Region → Bool
contains b [] = false
contains b (x ∷ xs) = encloses x b || contains b xs

-- The documented behaviour of a parcel that has room: writes succeed, and findBuffer finds what
-- lies within a buffer that the parcel holds, except for a bad pointer and length, to which it
-- answers a failure. Which these are is the parameter `bad`, of what the parcel holds.
pub record FindsBuffers {P : Type 0} (o : ReferenceOps P) (bad : Region → List Region → Bool)
    (held : P → List Region) : Type 0 where
  pub finds :
      (b : Region) (p : P)
      → bad b (held p) ≡ false
      → (child child_offset : ℕ) × (o.find_buffer b.buffer b.size p
          ≡ (o.ok, contains b (held p), child, child_offset))
  pub refuses :
      (b : Region) (p : P)
      → bad b (held p) ≡ true
      → (status : ℤ) × (child child_offset : ℕ) × (eqb_ℤ status o.ok ≡ false)
        × (o.find_buffer b.buffer b.size p ≡ (status, false, child, child_offset))
  pub adds :
      (b : Region) (p : P)
      → ((o.write_buffer b.buffer b.size p).0 ≡ o.ok)
        × (held (o.write_buffer b.buffer b.size p).2 ≡ held p ++ b ∷ [])
  pub adds_embedded :
      (b : Region) (parent offset : ℕ) (p : P)
      → ((o.write_embedded_buffer b.buffer b.size parent offset p).0 ≡ o.ok)
        × (held (o.write_embedded_buffer b.buffer b.size parent offset p).2 ≡ held p ++ b ∷ [])
  pub null_keeps :
      (p : P) → ((o.write_null_reference p).0 ≡ o.ok) × (held (o.write_null_reference p).2 ≡ held p)
  pub embedded_null_keeps :
      (parent offset : ℕ) (p : P)
      → ((o.write_embedded_null_reference parent offset p).0 ≡ o.ok)
        × (held (o.write_embedded_null_reference parent offset p).2 ≡ held p)
  pub reference_keeps :
      (child child_offset : ℕ) (p : P)
      → ((o.write_reference child child_offset p).0 ≡ o.ok)
        × (held (o.write_reference child child_offset p).2 ≡ held p)
  pub embedded_reference_keeps :
      (child child_offset parent offset : ℕ) (p : P)
      → ((o.write_embedded_reference child child_offset parent offset p).0 ≡ o.ok)
        × (held (o.write_embedded_reference child child_offset parent offset p).2 ≡ held p)

-- A reference to write: to a buffer or null, and where it is embedded, with its place.
pub data Request : Type 0 where
  top : Option Region → Request
  embedded : Option Region → (parent offset : ℕ) → Request

-- What the caller of a write learns.
pub record Answer : Type 0 where
  pub succeeds : Bool
  pub should_resolve : Bool

module _ (bad : Region → List Region → Bool) where
  abbrev pub target_answer : Option Region → List Region → Answer
  target_answer none l = record { succeeds = true; should_resolve = false }
  target_answer (some b) l =
      if bad b l
      then record { succeeds = false; should_resolve = true }
      else record { succeeds = true; should_resolve = not (contains b l) }

  abbrev pub added : Option Region → List Region → List Region
  added none l = l
  added (some b) l = if bad b l then l else if contains b l then l else l ++ b ∷ []

  abbrev pub target : Request → Option Region
  target (top b) = b
  target (embedded b parent offset) = b

  -- The answers, and the buffers in the end.
  abbrev pub first_uses : List Request → List Region → List Answer × List Region
  first_uses [] l = ([], l)
  first_uses (r ∷ rs) l =
      let (answers, l') = first_uses rs (added (target r) l) in
      (target_answer (target r) l ∷ answers, l')

module _ {P : Type 0} (o : ReferenceOps P) where
  -- The size of a reference's buffer is that of its type; a null one of some type writes the same.
  abbrev pub size_of : Option Region → ℕ
  size_of none = 0
  size_of (some b) = b.size

  abbrev pub buffer_of : Option Region → Option ℕ
  buffer_of none = none
  buffer_of (some b) = some b.buffer

  unfoldable pub write_request : Request → P → Written P
  unfolding write_reference_to_parcel write_embedded_reference_to_parcel
  write_request (top b) p = write_reference_to_parcel o (size_of b) (buffer_of b) p
  write_request (embedded b parent offset) p =
      write_embedded_reference_to_parcel o (size_of b) (buffer_of b) parent offset p

  abbrev pub answer_of : Written P → Answer
  answer_of w = record { succeeds = eqb_ℤ w.status o.ok; should_resolve = w.should_resolve }

  unfoldable pub write_requests : List Request → P → List Answer × P
  unfolding write_request
  write_requests [] p = ([], p)
  write_requests (r ∷ rs) p =
      let written = write_request r p in
      let (answers, p') = write_requests rs written.parcel in (answer_of written ∷ answers, p')

module _ {P : Type 0} (o : ReferenceOps P) (bad : Region → List Region → Bool)
    (held : P → List Region) (f : FindsBuffers o bad held) where
  write_request_lem :
      (r : Request) (p : P)
      → (answer_of o (write_request o r p) ≡ target_answer bad (target bad r) (held p))
        × (held (write_request o r p).parcel ≡ added bad (target bad r) (held p))
  unfolding write_request answered
  write_request_lem (top none) p =
      let (fine, kept) = f.null_keeps p in (rw (fine, eqb_ℤ_refl o.ok) refl, kept)
  write_request_lem (top (some b)) p = elim (Bool-cases (bad b (held p))) [
    | inl refused ↦
        let (status, child, at, fails, q) = f.refuses b p refused in
        rw (q, fails, refused, fails) (refl, refl)
    | inr well ↦
        let (child, at, q) = f.finds b p well in
        elim (Bool-cases (contains b (held p))) [
          | inl c ↦
              let (fine, kept) = f.reference_keeps child at p in
              rw (q, eqb_ℤ_refl o.ok, well, c, fine, eqb_ℤ_refl o.ok) (refl, kept)
          | inr c ↦
              let (fine, more) = f.adds b p in
              rw (q, eqb_ℤ_refl o.ok, well, c, fine, eqb_ℤ_refl o.ok) (refl, more)
        ]
  ]
  write_request_lem (embedded none parent offset) p =
      let (fine, kept) = f.embedded_null_keeps parent offset p in
      (rw (fine, eqb_ℤ_refl o.ok) refl, kept)
  write_request_lem (embedded (some b) parent offset) p = elim (Bool-cases (bad b (held p))) [
    | inl refused ↦
        let (status, child, at, fails, q) = f.refuses b p refused in
        rw (q, fails, refused, fails) (refl, refl)
    | inr well ↦
        let (child, at, q) = f.finds b p well in
        elim (Bool-cases (contains b (held p))) [
          | inl c ↦
              let (fine, kept) = f.embedded_reference_keeps child at parent offset p in
              rw (q, eqb_ℤ_refl o.ok, well, c, fine, eqb_ℤ_refl o.ok) (refl, kept)
          | inr c ↦
              let (fine, more) = f.adds_embedded b parent offset p in
              rw (q, eqb_ℤ_refl o.ok, well, c, fine, eqb_ℤ_refl o.ok) (refl, more)
        ]
  ]

  -- In a parcel whose writes succeed and whose findBuffer finds what lies within a buffer that the
  -- parcel holds, unless it refuses a bad pointer and length: for any references, top-level or
  -- embedded, repeated, null or bad, of any sizes, a buffer is added where it is first referred to
  -- and not again where one that encloses it is held, and only there does the write succeed and
  -- tell the caller to write what the buffer refers to. The write of a null reference succeeds and
  -- that of a bad one fails, and both add nothing.
  pub write_requests_lem :
      (rs : List Request) (p : P)
      → ((write_requests o rs p).0, held (write_requests o rs p).1) ≡ first_uses bad rs (held p)
  unfolding write_requests
  write_requests_lem [] p = refl
  write_requests_lem (r ∷ rs) p =
      let (answer, kept) = write_request_lem r p in
      ap (λ x. (answer_of o (write_request o r p) ∷ x.0, x.1))
        (write_requests_lem rs (write_request o r p).parcel)
      ∙ rw (answer, kept) refl
