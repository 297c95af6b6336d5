-- ===== src/Embedded/Roundtrip.antt =====
-- What is read back of a memory or a queue descriptor that was written.
use platform_system_libhidl.Embedded.{
  BufferOps, EmbeddedString, EmbeddedMemory, EmbeddedQueue, add, multiply, read_string,
  write_string, read_memory, write_memory, read_queue, write_queue,
}
use platform_system_libhidl.Embedded.Strings.{is_terminated, check_terminator_lem}
use native.Mathlib.Nat.{mod-eq_of_lt, mul_comm}
use platform_system_libhidl.Prelude.{
  length, eqb_ℤ_refl, done, Bytes, ℕ, refl, ap, true, List, [], ◌+◌, ◌%◌, ◌^◌, ◌<◌, ◌≡◌, ◌∙◌, ◌∷◌,
  ◌++◌,
}

-- What a parcel holds from its position on: the handle or the bytes behind a pointer of a buffer
-- that stands in the parcel.
pub data Item : Type 0 where
  native_handle : (parent offset : ℕ) → Item
  bytes : Bytes → (parent offset : ℕ) → Item

-- The parcel's documented behaviour, where `memory` gives the bytes at an address: a write succeeds
-- and appends, a read of what stands next succeeds and moves on.
pub record Reliable {P : Type 0} (o : BufferOps P) (memory : ℕ → ℕ → Bytes) (unread : P → List Item)
    : Type 0 where
  pub writes_handle :
      (handle parent offset : ℕ) (p : P)
      → (p' : P) × (o.write_embedded_native_handle handle parent offset p ≡ (o.ok, p'))
        × (unread p' ≡ unread p ++ native_handle parent offset ∷ [])
  pub writes_buffer :
      (buffer size parent offset : ℕ) (p : P)
      → (h : ℕ) × (p' : P) × (o.write_embedded_buffer buffer size parent offset p ≡ (o.ok, h, p'))
        × (unread p' ≡ unread p ++ bytes (memory buffer size) parent offset ∷ [])
  pub reads_handle :
      (p : P) (parent offset : ℕ) (rest : List Item)
      → unread p ≡ native_handle parent offset ∷ rest
      → (p' : P) × (o.read_nullable_embedded_native_handle parent offset p ≡ (o.ok, p'))
        × (unread p' ≡ rest)
  pub reads_buffer :
      (p : P) (t : Bytes) (size parent offset : ℕ) (rest : List Item)
      → unread p ≡ bytes t parent offset ∷ rest
      → length t ≡ size
      → (p' : P) × (o.read_embedded_buffer size parent offset p ≡ (o.ok, t, p'))
        × (unread p' ≡ rest)
  pub reads_nullable_buffer :
      (p : P) (t : Bytes) (size parent offset : ℕ) (rest : List Item)
      → unread p ≡ bytes t parent offset ∷ rest
      → length t ≡ size
      → (h : ℕ) × (p' : P) × (o.read_nullable_embedded_buffer size parent offset p ≡ (o.ok, h, p'))
        × (unread p' ≡ rest)
  pub memory_length : (buffer size : ℕ) → length (memory buffer size) ≡ size

multiply_comm : (w a b : ℕ) → multiply w a b ≡ multiply w b a
unfolding multiply
multiply_comm w a b = ap (λ n. n % 2 ^ w) (mul_comm a b)

module _ {P : Type 0} (o : BufferOps P) (w : ℕ) (memory : ℕ → ℕ → Bytes) (unread : P → List Item)
    (reliable : Reliable o memory unread) where
  -- A zero byte stands behind the text, whose size and one are no overflow.
  abbrev pub IsText : EmbeddedString → Type 0
  IsText s = (s.size + 1 < 2 ^ w) × (is_terminated s.size (memory s.buffer (s.size + 1)) ≡ true)

  -- The items of a string, and of a memory.
  abbrev pub string_item : EmbeddedString → (parent offset : ℕ) → Item
  string_item s parent offset = bytes (memory s.buffer (s.size + 1)) parent (add w offset 0)

  write_string-unread :
      (s : EmbeddedString) (parent offset : ℕ) (p : P)
      → s.size + 1 < 2 ^ w
      → (p' : P) × (write_string o w s parent offset p ≡ (o.ok, p'))
        × (unread p' ≡ unread p ++ string_item s parent offset ∷ [])
  unfolding write_string
  write_string-unread s parent offset p h =
      let (b, p', e, u) = reliable.writes_buffer s.buffer (s.size + 1) parent (add w offset 0) p in
      (p', rw (mod-eq_of_lt h, e) refl, u)

  read_string-unread :
      (s : EmbeddedString) (parent offset : ℕ) (p : P) (rest : List Item)
      → IsText s
      → unread p ≡ string_item s parent offset ∷ rest
      → (p' : P) × (read_string o w s parent offset p ≡ done (o.ok, p')) × (unread p' ≡ rest)
  unfolding read_string
  read_string-unread s parent offset p rest (h, t) u =
      let (p', e, r) =
        reliable.reads_buffer p (memory s.buffer (s.size + 1)) (s.size + 1) parent (add w offset 0)
          rest u (reliable.memory_length s.buffer (s.size + 1)) in
      (
        p',
        rw
            (
              mod-eq_of_lt h,
              e,
              eqb_ℤ_refl o.ok,
              check_terminator_lem o w s.size (memory s.buffer (s.size + 1))
                  (reliable.memory_length s.buffer (s.size + 1)),
              t,
            )
            refl,
        r,
      )

  -- A memory with a terminated name that is written into an empty parcel is read back: both calls
  -- return OK, the check of the name passes, and nothing else is left in the parcel.
  pub read_memory-write_memory :
      (m : EmbeddedMemory) (parent offset : ℕ) (p : P)
      → IsText m.name
      → unread p ≡ []
      → (p' p'' : P) × (write_memory o w m parent offset p ≡ (o.ok, p'))
        × (read_memory o w m parent offset p' ≡ done (o.ok, p''))
        × (unread p'' ≡ [])
  unfolding write_memory read_memory
  read_memory-write_memory m parent offset p t empty =
      let (p1, e1, u1) = reliable.writes_handle m.handle parent (add w offset 0) p in
      let (p2, e2, u2) = write_string-unread m.name parent (add w offset 24) p1 t.0 in
      let (p3, e3, u3) =
        reliable.reads_handle p2 parent (add w offset 0)
          (string_item m.name parent (add w offset 24) ∷ []) (u2 ∙ rw (u1, empty) refl) in
      let (p4, e4, u4) = read_string-unread m.name parent (add w offset 24) p3 [] t u3 in
      (
        p2,
        p4,
        rw (write_memory, e1, eqb_ℤ_refl o.ok) e2,
        rw (read_memory, e3, eqb_ℤ_refl o.ok) e4,
        u4,
      )

  -- A queue descriptor that is written into an empty parcel is read back: both calls return OK, and
  -- nothing else is left in the parcel.
  pub read_queue-write_queue :
      (q : EmbeddedQueue) (parent offset : ℕ) (p : P)
      → unread p ≡ []
      → (p' p'' : P) × (write_queue o w q parent offset p ≡ (o.ok, p'))
        × (read_queue o w q parent offset p' ≡ (o.ok, p''))
        × (unread p'' ≡ [])
  unfolding write_queue read_queue
  read_queue-write_queue q parent offset p empty =
      let at : ℕ = add w (add w offset q.offset_of_grantors) 0 in
      let (h1, p1, e1, u1) =
        reliable.writes_buffer q.grantors.buffer
          (multiply w q.grantors.element_size q.grantors.size) parent at p in
      let (p2, e2, u2) =
        reliable.writes_handle q.handle parent (add w offset q.offset_of_mq_handle) p1 in
      let (h3, p3, e3, u3) =
        reliable.reads_nullable_buffer p2
          (memory q.grantors.buffer (multiply w q.grantors.element_size q.grantors.size))
          (multiply w q.grantors.size q.grantors.element_size) parent at
          (native_handle parent (add w offset q.offset_of_mq_handle) ∷ [])
          (u2 ∙ rw (u1, empty) refl)
          (reliable.memory_length _ _ ∙ multiply_comm w q.grantors.element_size q.grantors.size) in
      let (p4, e4, u4) =
        reliable.reads_handle p3 parent (add w offset q.offset_of_mq_handle) [] u3 in
      (
        p2,
        p4,
        rw (write_queue, e1, eqb_ℤ_refl o.ok) e2,
        rw (read_queue, e3, eqb_ℤ_refl o.ok) e4,
        u4,
      )
