-- ===== src/Texts.antt =====
-- base/include/hidl/HidlSupport.h, base/include/hidl/MQDescriptor.h: the debug texts of toString.
-- std::to_string is the parameter `decimal`, and a hexadecimal stream with or without its base the
-- parameter `hex`; a pointer is an address.
pub mod Arrays
use platform_system_libhidl.Array.{product, read_loop}
use platform_system_libhidl.Prelude.{
  ltb, length, get_elem?, ℤ, pos, negsuc, Bytes, codes, ℕ, suc, Bool, true, Option, none, some,
  List, [], if◌then◌else◌, ◌+◌, ◌-◌, ◌^◌, ◌∷◌, ◌++◌,
}

-- The loop of arrayToString over the texts of the elements, at index `i`.
unfoldable pub elements_loop : (i : ℕ) → List Bytes → Bytes
elements_loop i [] = []
elements_loop i (text ∷ texts) =
    (if ltb 0 i then codes ", " else []) ++ text ++ elements_loop (i + 1) texts

unfoldable pub array_to_string : List Bytes → Bytes
unfolding elements_loop
array_to_string texts = codes "{" ++ elements_loop 0 texts ++ codes "}"

module _ {T : Type 0} (to_string : T → Bytes) where
  -- toString(const_accessor<T, SIZES...>) of the accessor at `base`; of no sizes it is the element's.
  unfoldable pub accessor_to_string : (sizes : List ℕ) → (base : ℕ) → List T → Option Bytes
  unfolding read_loop product array_to_string
  accessor_to_string [] base buffer = elim (get_elem? buffer base) [
    | none ↦ none
    | some x ↦ some (to_string x)
  ]
  accessor_to_string (n ∷ ns) base buffer =
      elim (read_loop (λ b. accessor_to_string ns b) (product ns) base 0 n buffer) [
        | none ↦ none
        | some texts ↦ some (array_to_string texts)
      ]

module _ (decimal : ℕ → Bytes) (hex : (showbase : Bool) → ℕ → Bytes) where
  unfoldable pub array_size_to_string : List ℕ → Bytes
  array_size_to_string [] = []
  array_size_to_string (n ∷ ns) = codes "[" ++ decimal n ++ codes "]" ++ array_size_to_string ns

  -- hidl_array
  unfoldable pub hidl_array_to_string :
      {T : Type 0} → (T → Bytes) → (sizes : List ℕ) → List T → Option Bytes
  unfolding array_size_to_string accessor_to_string
  hidl_array_to_string to_string sizes buffer = elim (accessor_to_string to_string sizes 0 buffer) [
    | none ↦ none
    | some text ↦ some (array_size_to_string sizes ++ text)
  ]

  -- hidl_vec, from the texts of its elements
  unfoldable pub vec_to_string : List Bytes → Bytes
  unfolding array_to_string
  vec_to_string texts = codes "[" ++ decimal (length texts) ++ codes "]" ++ array_to_string texts

  -- A value of an 8-bit type goes through int32_t, whose negative values the stream prints as words
  -- of 32 bits.
  unfoldable pub to_hex_string_8 : ℤ → (prefix : Bool) → Bytes
  to_hex_string_8 (pos n) prefix = hex prefix n
  to_hex_string_8 (negsuc n) prefix = hex prefix (2 ^ 32 - suc n)

  -- const void *
  unfoldable pub pointer_to_string : ℕ → Bytes
  pointer_to_string address = hex true address

  -- hidl_string, by its C string
  unfoldable pub string_to_string : Bytes → Bytes
  string_to_string text = codes "\"" ++ text ++ codes "\""

  -- hidl_memory
  unfoldable pub memory_to_string : (name : Bytes) → (size handle : ℕ) → Bytes
  unfolding string_to_string pointer_to_string
  memory_to_string name size handle =
      codes "memory {.name = "
      ++ string_to_string name
      ++ codes ", .size = "
      ++ decimal size
      ++ codes ", .handle = "
      ++ pointer_to_string handle
      ++ codes "}"

  -- sp<hidl_death_recipient>
  unfoldable pub death_recipient_to_string : ℕ → Bytes
  unfolding pointer_to_string
  death_recipient_to_string address = codes "death_recipient@" ++ pointer_to_string address

  -- MQDescriptor, with the flags of its flavor
  unfoldable pub queue_to_string :
      (synchronized unsynchronized : Bool) → (grantors size handle quantum : ℕ) → Bytes
  unfolding pointer_to_string
  queue_to_string synchronized unsynchronized grantors size handle quantum =
      (if synchronized then codes "fmq_sync" else [])
      ++ (if unsynchronized then codes "fmq_unsync" else [])
      ++ codes " {"
      ++ decimal grantors
      ++ codes " grantor(s), "
      ++ codes "size = "
      ++ decimal size
      ++ codes ", .handle = "
      ++ pointer_to_string handle
      ++ codes ", .quantum = "
      ++ decimal quantum
      ++ codes "}"
