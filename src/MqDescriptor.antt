-- ===== src/MqDescriptor.antt =====
-- base/include/hidl/MQDescriptor.h: the descriptor of a fast message queue. `size_t` has 64 bits.
-- A native handle is its file descriptors and its integers; `dup` is a parameter.
pub mod Layout
pub mod Copy
use platform_system_libhidl.Vec.{to_uint32}
use platform_system_libhidl.Prelude.{
  ltb, length, get_elem?, take, ℤ, Run, done, fatal, fault, fatal_if, ℕ, Bool, not, Option, none,
  some, List, [], ◌==◌, if◌then◌else◌, ◌+◌, ◌-◌, ◌*◌, ◌/◌, ◌%◌, ◌^◌, ◌∷◌, ◌>>=◌, ◌>>◌,
}

pub record GrantorDescriptor : Type 0 where
  pub flags : ℕ
  pub fd_index : ℕ
  pub offset : ℕ
  pub extent : ℕ

pub data MqFlavor : Type 0 where
  synchronized_read_write unsynchronized_write : MqFlavor

abbrev pub flavor_value : MqFlavor → ℕ
flavor_value synchronized_read_write = 1
flavor_value unsynchronized_write = 2

pub record NativeHandle : Type 0 where
  pub fds : List ℤ
  pub ints : List ℤ

pub record MqDescriptor : Type 0 where
  pub grantors : List GrantorDescriptor
  pub handle : Option NativeHandle
  pub quantum : ℕ
  pub flags : ℕ

-- enum GrantorType, and the counts made of it
abbrev pub data_ptr_pos : ℕ
data_ptr_pos = 2

abbrev pub min_grantor_count : ℕ
min_grantor_count = data_ptr_pos + 1

abbrev pub min_grantor_count_for_ev_flag : ℕ
min_grantor_count_for_ev_flag = 4

abbrev pub size_max : ℕ
size_max = 2 ^ 64 - 1

abbrev pub alignment_size : ℕ
alignment_size = 64

-- `x & ~(kAlignmentSize/8 - 1U)` clears the lowest three bits. `word_size` is __WORDSIZE.
unfoldable pub align_to_word_boundary : (word_size : ℕ) → ℕ → Run ℕ
align_to_word_boundary word_size length =
    if not (alignment_size % word_size == 0)
    then fatal
    else if ltb (size_max - alignment_size / 8 + 1) length
    then fatal
    else done ((length + alignment_size / 8 - 1) / 8 * 8)

-- `offset & (kAlignmentSize/8 - 1)` is the lowest three bits.
unfoldable pub is_aligned_to_word_boundary : ℕ → Bool
is_aligned_to_word_boundary offset = offset % 8 == 0

-- The loop of the first constructor.
unfoldable pub copy_grantors : List GrantorDescriptor → Run (List GrantorDescriptor)
unfolding is_aligned_to_word_boundary
copy_grantors [] = done []
copy_grantors (g ∷ gs) = do
  fatal_if (not (is_aligned_to_word_boundary g.offset))
  rest ← copy_grantors gs
  done (g ∷ rest)

-- MQDescriptor(grantors, nHandle, size); the vector's resize aborts when the size needs more
-- than 32 bits.
unfoldable pub from_grantors :
    MqFlavor → List GrantorDescriptor → Option NativeHandle → ℕ → Run MqDescriptor
unfolding copy_grantors
from_grantors flavor grantors handle size = do
  fatal_if (ltb (2 ^ 32 - 1) (length grantors))
  gs ← copy_grantors grantors
  done (record {
    grantors = gs;
    handle = handle;
    quantum = to_uint32 size;
    flags = flavor_value flavor;
  })

-- The loop of the second constructor over what is left of memSize.
unfoldable pub layout_loop : (word_size : ℕ) → List ℕ → ℕ → Run (List GrantorDescriptor)
unfolding align_to_word_boundary
layout_loop word_size [] offset = done []
layout_loop word_size (m ∷ ms) offset = do
  aligned ← align_to_word_boundary word_size offset
  rest ← layout_loop word_size ms ((offset + m) % 2 ^ 64)
  done (record { flags = 0; fd_index = 0; offset = to_uint32 aligned; extent = m } ∷ rest)

abbrev pub mem_size : ℕ → List ℕ
mem_size buffer_size = 8 ∷ 8 ∷ buffer_size ∷ 4 ∷ []

-- MQDescriptor(bufferSize, nHandle, messageSize, configureEventFlag)
unfoldable pub from_sizes :
    (word_size : ℕ) → MqFlavor → ℕ → Option NativeHandle → ℕ → Bool → Run MqDescriptor
unfolding layout_loop
from_sizes word_size flavor buffer_size handle message_size configure_event_flag = do
  gs ←
      layout_loop word_size
        (take (if configure_event_flag then min_grantor_count_for_ev_flag else min_grantor_count)
          (mem_size buffer_size))
        0
  done (record {
    grantors = gs;
    handle = handle;
    quantum = to_uint32 message_size;
    flags = flavor_value flavor;
  })

-- MQDescriptor()
unfoldable pub default_ctor : MqFlavor → Run MqDescriptor
unfolding from_grantors
default_ctor flavor = from_grantors flavor [] none 0

-- `mHandle->data[i] = dup(other.mHandle->data[i])`
unfoldable pub dup_all : {W : Type 0} → (ℤ → W → ℤ × W) → List ℤ → W → List ℤ × W
dup_all dup [] w = ([], w)
dup_all dup (fd ∷ fds) w =
    let (fd', w') = dup fd w in let (rest, w'') = dup_all dup fds w' in (fd' ∷ rest, w'')

unfoldable pub copy_handle :
    {W : Type 0} → (ℤ → W → ℤ × W) → Option NativeHandle → W → Option NativeHandle × W
unfolding dup_all
copy_handle dup none w = (none, w)
copy_handle dup (some h) w =
    let (fds, w') = dup_all dup h.fds w in (some (record { fds = fds; ints = h.ints }), w')

-- MQDescriptor(const MQDescriptor &)
unfoldable pub copy_ctor : {W : Type 0} → (ℤ → W → ℤ × W) → MqDescriptor → W → MqDescriptor × W
unfolding copy_handle
copy_ctor dup other w =
    let (h, w') = copy_handle dup other.handle w in (record other { handle = h }, w')

-- The destructor closes every file descriptor of the handle; `close` is a parameter.
unfoldable pub close_all : {W : Type 0} → (ℤ → W → W) → List ℤ → W → W
close_all close [] w = w
close_all close (fd ∷ fds) w = close_all close fds (close fd w)

unfoldable pub destroy : {W : Type 0} → (ℤ → W → W) → MqDescriptor → W → W
unfolding close_all
destroy close q w = elim q.handle [ none ↦ w | some h ↦ close_all close h.fds w ]

-- getSize() reads mGrantors[DATAPTRPOS] with no test of the size.
unfoldable pub get_size : MqDescriptor → Run ℕ
get_size q = elim (get_elem? q.grantors data_ptr_pos) [ none ↦ fault | some g ↦ done g.extent ]
