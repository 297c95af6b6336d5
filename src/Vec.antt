-- ===== src/Vec.antt =====
-- base/include/hidl/HidlSupport.h: `hidl_vec<T>`. A vector object lives outside the heap of blocks:
-- a method takes its fields and returns the new ones. `mSize` is a `uint32_t`, `size_t` has 64 bits.
-- The element type's assignment is a plain copy, and `init` is the value of a new element: one fixed
-- value, also for the types whose new elements are indeterminate.
pub mod Content
pub mod Assign
pub mod Resize
pub mod Equal
pub mod Iterators
pub mod Truncate
pub mod Moves
pub mod Pool
pub mod Good
pub mod Handover
pub mod Changes
pub mod Refines
use platform_system_libhidl.Blocks.{
  Heap, M, pure, ◌>>=◌, ◌>>◌, abort, allocate, release, load, fill_loop, read_list, collect,
}
use platform_system_libhidl.Prelude.{
  ltb, length, ℤ, pos, pos_part, ltb_ℤ, ℕ, zero, suc, min, Bool, true, false, not, List, ◌==◌,
  if◌then◌else◌, ◌+◌, ◌-◌, ◌%◌, ◌^◌, ◌&&◌,
}

pub record HidlVec : Type 0 where
  pub buffer : ℕ
  pub size : ℕ
  pub owns : Bool

abbrev pub hidl_vec : ℕ → ℕ → Bool → HidlVec
hidl_vec buffer size owns = record { buffer = buffer; size = size; owns = owns }

-- UINT32_MAX, and static_cast<uint32_t>
abbrev pub uint32_max : ℕ
uint32_max = 2 ^ 32 - 1

abbrev pub to_uint32 : ℕ → ℕ
to_uint32 n = n % 2 ^ 32

-- hidl_vec()
abbrev pub empty_vec : HidlVec
empty_vec = hidl_vec 0 0 true

module _ {T : Type 0} where
  -- `if (mOwnsBuffer) delete[] mBuffer;`
  unfoldable pub free_buffer : HidlVec → M T (Unit {0})
  unfolding release
  free_buffer v = if v.owns then release v.buffer else pure tt

  -- ~hidl_vec()
  unfoldable pub destroy : HidlVec → M T (Unit {0})
  unfolding free_buffer
  destroy v = free_buffer v

  -- copyFrom(data, size), for any array-like `src`
  unfoldable pub copy_from : T → (ℕ → M T T) → ℕ → M T HidlVec
  unfolding allocate fill_loop
  copy_from init src size =
      if ltb 0 (to_uint32 size)
      then (allocate init size >>= λ p.
          fill_loop src size 0 p >> pure (hidl_vec p (to_uint32 size) true))
      else pure (hidl_vec 0 (to_uint32 size) true)

  -- The constructor from an initializer list.
  unfoldable pub list_ctor : T → List T → M T HidlVec
  unfolding allocate fill_loop read_list
  list_ctor init xs =
      if ltb uint32_max (length xs)
      then abort
      else allocate init (to_uint32 (length xs)) >>= λ p.
          fill_loop (read_list xs) (length xs) 0 p >> pure (hidl_vec p (to_uint32 (length xs)) true)

  -- The constructor from iterators at a `distance`, which gives the elements `xs` converted to T.
  unfoldable pub range_ctor : T → ℤ → List T → M T HidlVec
  unfolding allocate fill_loop read_list
  range_ctor init distance xs =
      if ltb_ℤ (pos uint32_max) distance
      then abort
      else if ltb_ℤ distance (pos 0)
      then abort
      else allocate init (to_uint32 (pos_part distance)) >>= λ p.
          fill_loop (read_list xs) (length xs) 0 p
          >> pure (hidl_vec p (to_uint32 (pos_part distance)) true)

  -- Where the size is too large the process aborts, after the old buffer is freed.
  unfoldable pub set_to_external : ℕ → ℕ → Bool → HidlVec → M T HidlVec
  unfolding free_buffer
  set_to_external external size should_own v =
      free_buffer v
      >> (if ltb uint32_max size
          then abort
          else pure (hidl_vec external (to_uint32 size) should_own))

  unfoldable pub resize : T → ℕ → HidlVec → M T HidlVec
  resize init size v =
      if ltb uint32_max size
      then abort
      else allocate init size >>= λ p.
          fill_loop (load v.buffer) (min (to_uint32 size) v.size) 0 p
          >> (free_buffer v >> pure (hidl_vec p (to_uint32 size) true))

  -- The buffer that the caller now owns, and the vector, which does not own it any more.
  unfoldable pub release_data : T → HidlVec → M T (ℕ × HidlVec)
  unfolding resize
  release_data init v =
      (if not v.owns && ltb 0 v.size then resize init v.size v else pure v) >>= λ v'.
      pure (v'.buffer, record v' { owns = false })

  -- operator=(hidl_vec &&): this vector and `other` afterwards, for two different objects.
  unfoldable pub move_assign : HidlVec → HidlVec → M T (HidlVec × HidlVec)
  unfolding free_buffer
  move_assign v other =
      free_buffer v
      >> pure (hidl_vec other.buffer other.size other.owns, record other { owns = false })

  -- The same where `other` is this object: the fields are read after the buffer is freed.
  unfoldable pub move_assign_self : HidlVec → M T HidlVec
  unfolding free_buffer
  move_assign_self v = free_buffer v >> pure (record v { owns = false })

  -- hidl_vec(hidl_vec &&) starts with an object that owns nothing; its other fields are not set.
  unfoldable pub move_ctor : HidlVec → M T (HidlVec × HidlVec)
  unfolding move_assign
  move_ctor other = move_assign (hidl_vec 0 0 false) other

  -- operator=(const hidl_vec &), for two different objects; an assignment to itself does nothing.
  unfoldable pub copy_assign : T → HidlVec → HidlVec → M T HidlVec
  unfolding load
  copy_assign init v other = free_buffer v >> copy_from init (load other.buffer) other.size

  unfoldable pub copy_ctor : T → HidlVec → M T HidlVec
  unfolding copy_assign
  copy_ctor init other = copy_assign init empty_vec other

  -- operator=(const std::vector<T> &)
  unfoldable pub assign_vector : T → HidlVec → List T → M T HidlVec
  unfolding read_list
  assign_vector init v xs = free_buffer v >> copy_from init (read_list xs) (length xs)

  unfoldable pub vector_ctor : T → List T → M T HidlVec
  unfolding assign_vector
  vector_ctor init xs = assign_vector init empty_vec xs

  -- operator std::vector<T>()
  unfoldable pub to_vector : HidlVec → M T (List T)
  unfolding load collect
  to_vector v = collect (load v.buffer) v.size 0

  -- operator[]
  unfoldable pub index : HidlVec → ℕ → M T T
  unfolding load
  index v i = load v.buffer i

  -- The loop of operator==, with `k` elements left.
  unfoldable pub equal_loop : (T → T → Bool) → HidlVec → HidlVec → ℕ → ℕ → M T Bool
  unfolding index
  equal_loop same v other zero i = pure true
  equal_loop same v other (suc k) i = index v i >>= λ x. index other i >>= λ y. elim (same x y) [
    | true ↦ equal_loop same v other k (i + 1)
    | false ↦ pure false
  ]

  unfoldable pub equal : (T → T → Bool) → HidlVec → HidlVec → M T Bool
  unfolding index
  equal same v other =
      if not (v.size == other.size) then pure false else equal_loop same v other v.size 0
