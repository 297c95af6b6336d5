-- ===== src/Embedded.antt =====
-- transport/HidlBinderSupport.cpp, transport/include/hidl/HidlBinderSupport.h: the parts of strings,
-- memories, vectors and queue descriptors that a parcel carries as embedded buffers. The Parcel is
-- a parameter; pointers are addresses, and `w` is the width of size_t. A returned status comes with
-- what the call stores through its pointers and the parcel afterwards.
pub mod Strings
pub mod Roundtrip
use platform_system_libhidl.Prelude.{
  get_elem?, ℤ, eqb_ℤ, Run, done, fault, Bytes, ℕ, not, none, some, ◌==◌, if◌then◌else◌, ◌>>=◌, ◌+◌,
  ◌*◌, ◌%◌, ◌^◌,
}

pub record BufferOps (P : Type 0) : Type 0 where
  pub ok : ℤ
  pub bad_value : ℤ
  pub read_nullable_embedded_native_handle : (parent offset : ℕ) → P → ℤ × P
  pub write_embedded_native_handle : (handle : ℕ) → (parent offset : ℕ) → P → ℤ × P
  -- with the bytes at `out`
  pub read_embedded_buffer : (size : ℕ) → (parent offset : ℕ) → P → ℤ × Bytes × P
  -- with the handle of the buffer, as for those below
  pub read_nullable_embedded_buffer : (size : ℕ) → (parent offset : ℕ) → P → ℤ × ℕ × P
  pub write_embedded_buffer : (buffer size : ℕ) → (parent offset : ℕ) → P → ℤ × ℕ × P
  pub quick_find_buffer : (buffer : ℕ) → P → ℤ × ℕ

module _ (w : ℕ) where
  -- A sum in size_t.
  unfoldable pub add : ℕ → ℕ → ℕ
  add a b = (a + b) % 2 ^ w

  -- A product in size_t.
  unfoldable pub multiply : ℕ → ℕ → ℕ
  multiply a b = a * b % 2 ^ w

-- hidl_string::kOffsetOfBuffer, hidl_memory::kOffsetOfHandle and hidl_memory::kOffsetOfName
abbrev pub offset_of_buffer : ℕ
offset_of_buffer = 0

abbrev pub offset_of_handle : ℕ
offset_of_handle = 0

abbrev pub offset_of_name : ℕ
offset_of_name = 24

-- A hidl_string: mBuffer and mSize.
pub record EmbeddedString : Type 0 where
  pub buffer : ℕ
  pub size : ℕ

-- A hidl_memory: mHandle and mName.
pub record EmbeddedMemory : Type 0 where
  pub handle : ℕ
  pub name : EmbeddedString

-- A hidl_vec: mBuffer and mSize; `element_size` is sizeof(T).
pub record EmbeddedVec : Type 0 where
  pub buffer : ℕ
  pub size : ℕ
  pub element_size : ℕ

-- An MQDescriptor: mGrantors and mHandle, and their offsets in it.
pub record EmbeddedQueue : Type 0 where
  pub grantors : EmbeddedVec
  pub handle : ℕ
  pub offset_of_grantors : ℕ
  pub offset_of_mq_handle : ℕ

module _ {P : Type 0} (o : BufferOps P) (w : ℕ) where
  -- The check of the terminator; a read behind the buffer is undefined.
  unfoldable pub check_terminator : ℕ → Bytes → Run ℤ
  check_terminator size out = elim (get_elem? out size) [
    | none ↦ fault
    | some c ↦ done (if not (c == 0) then o.bad_value else o.ok)
  ]

  unfoldable pub read_string : EmbeddedString → (parent offset : ℕ) → P → Run (ℤ × P)
  unfolding add check_terminator
  read_string string parent offset p =
      let (status, out, p') =
        o.read_embedded_buffer (add w string.size 1) parent (add w offset offset_of_buffer) p in
      if not (eqb_ℤ status o.ok)
      then done (status, p')
      else (check_terminator string.size out >>= λ s. done (s, p'))

  unfoldable pub write_string : EmbeddedString → (parent offset : ℕ) → P → ℤ × P
  unfolding add
  write_string string parent offset p =
      let (status, handle, p') =
        o.write_embedded_buffer string.buffer (add w string.size 1) parent
          (add w offset offset_of_buffer) p in
      (status, p')

  unfoldable pub read_memory : EmbeddedMemory → (parent offset : ℕ) → P → Run (ℤ × P)
  unfolding add read_string
  read_memory memory parent offset p =
      let (err, p') =
        o.read_nullable_embedded_native_handle parent (add w offset offset_of_handle) p in
      if eqb_ℤ err o.ok
      then read_string memory.name parent (add w offset offset_of_name) p'
      else done (err, p')

  unfoldable pub write_memory : EmbeddedMemory → (parent offset : ℕ) → P → ℤ × P
  unfolding add write_string
  write_memory memory parent offset p =
      let (err, p') =
        o.write_embedded_native_handle memory.handle parent (add w offset offset_of_handle) p in
      if eqb_ℤ err o.ok
      then write_string memory.name parent (add w offset offset_of_name) p'
      else (err, p')

  unfoldable pub read_vec : EmbeddedVec → (parent offset : ℕ) → P → ℤ × ℕ × P
  unfolding add multiply
  read_vec vec parent offset p =
      o.read_nullable_embedded_buffer (multiply w vec.size vec.element_size) parent
        (add w offset offset_of_buffer) p

  unfoldable pub write_vec : EmbeddedVec → (parent offset : ℕ) → P → ℤ × ℕ × P
  unfolding add multiply
  write_vec vec parent offset p =
      o.write_embedded_buffer vec.buffer (multiply w vec.element_size vec.size) parent
        (add w offset offset_of_buffer) p

  unfoldable pub find_in_parcel : EmbeddedVec → P → ℤ × ℕ
  find_in_parcel vec p = o.quick_find_buffer vec.buffer p

  unfoldable pub read_queue : EmbeddedQueue → (parent offset : ℕ) → P → ℤ × P
  unfolding add read_vec
  read_queue queue parent offset p =
      let (err, child, p') =
        read_vec queue.grantors parent (add w offset queue.offset_of_grantors) p in
      if not (eqb_ℤ err o.ok)
      then (err, p')
      else o.read_nullable_embedded_native_handle parent (add w offset queue.offset_of_mq_handle) p'

  unfoldable pub write_queue : EmbeddedQueue → (parent offset : ℕ) → P → ℤ × P
  unfolding add write_vec
  write_queue queue parent offset p =
      let (err, child, p') =
        write_vec queue.grantors parent (add w offset queue.offset_of_grantors) p in
      if not (eqb_ℤ err o.ok)
      then (err, p')
      else o.write_embedded_native_handle queue.handle parent
          (add w offset queue.offset_of_mq_handle) p'
