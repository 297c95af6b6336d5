-- ===== src/MqDescriptor/Layout.antt =====
-- The layout of a queue's memory, as the second constructor computes it.
use platform_system_libhidl.Vec.{to_uint32}
use platform_system_libhidl.MqDescriptor.{
  GrantorDescriptor, MqFlavor, NativeHandle, MqDescriptor, align_to_word_boundary,
  is_aligned_to_word_boundary, copy_grantors, layout_loop, from_grantors, from_sizes, get_size,
  flavor_value,
}
use platform_system_libhidl.Prelude.{
  done, ℕ, refl, sym, ap, Bool, true, false, Option, List, [], arith, if◌then◌else◌, ◌>>=◌, ◌+◌,
  ◌-◌, ◌*◌, ◌/◌, ◌%◌, ◌^◌, ◌≤◌, ◌<◌, ◌≡◌, ◌∙◌, ◌∷◌,
}

-- Each region begins on a word boundary, no earlier than `start` and than the end of the one
-- before it.
abbrev pub IsLayout : ℕ → List GrantorDescriptor → Type 0
IsLayout start [] = Unit
IsLayout start (g ∷ gs) =
    (start ≤ g.offset) × (g.offset % 8 ≡ 0) × IsLayout (g.offset + g.extent) gs

abbrev pub grantor : ℕ → ℕ → GrantorDescriptor
grantor offset extent = record { flags = 0; fd_index = 0; offset = offset; extent = extent }

-- The data buffer is followed by the event flag word on the next word boundary.
abbrev pub event_offset : ℕ → ℕ
event_offset buffer_size = (buffer_size + 23) / 8 * 8

abbrev pub regions : ℕ → Bool → List GrantorDescriptor
regions buffer_size event =
    grantor 0 8
    ∷ grantor 8 8
    ∷ grantor 16 buffer_size
    ∷ (if event then grantor (event_offset buffer_size) 4 ∷ [] else [])

abbrev pub queue : MqFlavor → ℕ → Option NativeHandle → ℕ → Bool → MqDescriptor
queue flavor buffer_size handle message_size event = record {
  grantors = regions buffer_size event;
  handle = handle;
  quantum = to_uint32 message_size;
  flags = flavor_value flavor;
}

from_sizes-regions :
    (flavor : MqFlavor) (buffer_size : ℕ) (handle : Option NativeHandle) (message_size : ℕ)
    (event : Bool)
    → buffer_size < 2 ^ 32 - 23
    → from_sizes 64 flavor buffer_size handle message_size event
      ≡ done (queue flavor buffer_size handle message_size event)
unfolding from_sizes layout_loop align_to_word_boundary
from_sizes-regions flavor buffer_size handle message_size true fits = ground arith
from_sizes-regions flavor buffer_size handle message_size false fits = ground arith

regions-IsLayout : (buffer_size : ℕ) (event : Bool) → IsLayout 0 (regions buffer_size event)
regions-IsLayout buffer_size true = ground arith
regions-IsLayout buffer_size false = ground arith

from_grantors-regions :
    (flavor : MqFlavor) (buffer_size : ℕ) (handle : Option NativeHandle) (message_size : ℕ)
    (event : Bool)
    → from_grantors flavor (regions buffer_size event) handle message_size
      ≡ done (queue flavor buffer_size handle message_size event)
unfolding from_grantors copy_grantors is_aligned_to_word_boundary
from_grantors-regions flavor buffer_size handle message_size true = ground arith
from_grantors-regions flavor buffer_size handle message_size false = ground arith

get_size-queue :
    (flavor : MqFlavor) (buffer_size : ℕ) (handle : Option NativeHandle) (message_size : ℕ)
    (event : Bool)
    → get_size (queue flavor buffer_size handle message_size event) ≡ done buffer_size
unfolding get_size
get_size-queue flavor buffer_size handle message_size event = refl

-- For a 64-bit word and a buffer of less than 2 ^ 32 - 23 bytes the constructor that takes sizes
-- succeeds. Its regions each begin on a word boundary after the end of the one before them, the
-- constructor that takes regions builds the same descriptor from them, and getSize() is the size
-- of the buffer.
pub from_sizes_lem :
    (flavor : MqFlavor) (buffer_size : ℕ) (handle : Option NativeHandle) (message_size : ℕ)
    (event : Bool)
    → buffer_size < 2 ^ 32 - 23
    → (from_sizes 64 flavor buffer_size handle message_size event
        ≡ done (queue flavor buffer_size handle message_size event))
      × IsLayout 0 (regions buffer_size event)
      × (from_grantors flavor (regions buffer_size event) handle message_size
          ≡ from_sizes 64 flavor buffer_size handle message_size event)
      × ((from_sizes 64 flavor buffer_size handle message_size event >>= get_size)
          ≡ done buffer_size)
from_sizes_lem flavor buffer_size handle message_size event fits =
    let e = from_sizes-regions flavor buffer_size handle message_size event fits in
    (
      e,
      regions-IsLayout buffer_size event,
      from_grantors-regions flavor buffer_size handle message_size event ∙ sym e,
      ap (λ r. r >>= get_size) e ∙ get_size-queue flavor buffer_size handle message_size event,
    )

-- A buffer of 2 ^ 32 - 23 to 2 ^ 32 - 16 bytes is accepted, and the offset of the event flag word
-- wraps to 0: the word lies on the read counter.
event_flag_wraps :
    (flavor : MqFlavor) (buffer_size : ℕ) (handle : Option NativeHandle) (message_size : ℕ)
    → 2 ^ 32 - 23 ≤ buffer_size
    → buffer_size ≤ 2 ^ 32 - 16
    → (from_sizes 64 flavor buffer_size handle message_size true >>= λ q. done q.grantors)
      ≡ done (grantor 0 8 ∷ grantor 8 8 ∷ grantor 16 buffer_size ∷ grantor 0 4 ∷ [])
unfolding from_sizes layout_loop align_to_word_boundary
event_flag_wraps flavor buffer_size handle message_size large small = ground arith
