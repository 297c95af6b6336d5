-- ===== src/Strings.antt =====
-- base/HidlSupport.cpp, base/include/hidl/HidlSupport.h: `hidl_string` over blocks of bytes. A
-- string object lives outside the blocks; `k` is the block of the static `kEmptyString`. A C string
-- is a pointer to a block that holds its bytes with a NUL behind them, or null (0).
pub mod Assign
pub mod Pool
pub mod Good
pub mod Moved
pub mod Refines
pub mod Compare
use platform_system_libhidl.Blocks.{
  Heap, M, pure, ◌>>=◌, ◌>>◌, abort, allocate, release, load, store, fill_loop, read_list, collect,
}
use platform_system_libhidl.Vec.{uint32_max, to_uint32}
use platform_system_libhidl.Prelude.{
  ltb, length, done, fault, Bytes, ℕ, Bool, true, false, not, Option, none, some, [], ◌==◌,
  if◌then◌else◌, ◌+◌, ◌&&◌, ◌∷◌,
}

pub record HidlString : Type 0 where
  pub buffer : ℕ
  pub size : ℕ
  pub owns : Bool

abbrev pub hidl_string : ℕ → ℕ → Bool → HidlString
hidl_string buffer size owns = record { buffer = buffer; size = size; owns = owns }

-- The bytes before the first NUL.
abbrev pub until_nul : Bytes → Option Bytes
until_nul [] = none
until_nul (b ∷ bs) =
    let rest : Option Bytes = elim (until_nul bs) [ none ↦ none | some r ↦ some (b ∷ r) ] in
    if b == 0 then some [] else rest

-- What `strlen`, `strcmp` and the streams read at a pointer.
text_in : Option Bytes → M ℕ Bytes
text_in none h = fault
text_in (some b) h = elim (until_nul b) [ none ↦ fault | some t ↦ done (t, h) ]

unfoldable pub text_at : ℕ → M ℕ Bytes
unfolding text_in
text_at p h = text_in (h.cell p) h

module _ (k : ℕ) where
  -- hidl_string()
  abbrev pub empty_string : HidlString
  empty_string = hidl_string k 0 false

  unfoldable pub clear : HidlString → M ℕ HidlString
  unfolding release
  clear s =
      (if s.owns && not (s.buffer == k) then release s.buffer else pure tt) >> pure empty_string

  -- moveFrom(other): the string and `other`, whose pointer the move of the hidl_pointer sets to
  -- null before clear() makes it the empty string.
  unfoldable pub move_from : HidlString → M ℕ (HidlString × HidlString)
  unfolding clear
  move_from other = clear (hidl_string 0 other.size false) >>= λ other'.
      pure (hidl_string other.buffer other.size other.owns, other')

  unfoldable pub move_ctor : HidlString → M ℕ (HidlString × HidlString)
  unfolding move_from
  move_ctor other = move_from other

  -- operator=(hidl_string &&), for two different objects.
  unfoldable pub move_assign : HidlString → HidlString → M ℕ (HidlString × HidlString)
  unfolding move_from
  move_assign s other = clear s >>= λ _. move_from other

  -- `init` is what a byte of a new block holds.
  module _ (init : ℕ) where
    -- copyFrom(data, size): malloc(size + 1), memcpy, and the NUL.
    unfoldable pub copy_from : (ℕ → M ℕ ℕ) → ℕ → M ℕ HidlString
    unfolding allocate fill_loop store
    copy_from src size =
        if ltb uint32_max size
        then abort
        else (allocate init (size + 1) >>= λ buf.
            fill_loop src size 0 buf
            >> (store buf size 0 >> pure (hidl_string buf (to_uint32 size) true)))

    unfoldable pub cstr_len_ctor : ℕ → ℕ → M ℕ HidlString
    unfolding load
    cstr_len_ctor s length = copy_from (load s) length

    unfoldable pub cstr_ctor : ℕ → M ℕ HidlString
    unfolding text_at load
    cstr_ctor s =
        if s == 0 then pure empty_string else (text_at s >>= λ t. copy_from (load s) (length t))

    unfoldable pub copy_ctor : HidlString → M ℕ HidlString
    unfolding load
    copy_ctor other = copy_from (load other.buffer) other.size

    unfoldable pub string_ctor : Bytes → M ℕ HidlString
    unfolding read_list
    string_ctor s = copy_from (read_list s) (length s)

    -- operator=(const hidl_string &), for two different objects.
    unfoldable pub copy_assign : HidlString → HidlString → M ℕ HidlString
    unfolding load
    copy_assign s other = clear s >>= λ _. copy_from (load other.buffer) other.size

    unfoldable pub assign_cstr : HidlString → ℕ → M ℕ HidlString
    unfolding text_at load
    assign_cstr s p = clear s >>= λ s'.
        if p == 0 then pure s' else (text_at p >>= λ t. copy_from (load p) (length t))

    unfoldable pub assign_string : HidlString → Bytes → M ℕ HidlString
    unfolding read_list
    assign_string s text = clear s >>= λ _. copy_from (read_list text) (length text)

    unfoldable pub set_to_external : ℕ → ℕ → HidlString → M ℕ HidlString
    set_to_external external size s =
        if ltb uint32_max size
        then abort
        else (clear s >>= λ _. pure (hidl_string external (to_uint32 size) false))

-- operator std::string()
unfoldable pub to_string : HidlString → M ℕ Bytes
unfolding collect load
to_string s = collect (load s.buffer) s.size 0

unfoldable pub empty : HidlString → Bool
empty s = s.size == 0

-- c_str(), and what a reader of the C string finds there.
unfoldable pub c_str : HidlString → M ℕ Bytes
unfolding text_at
c_str s = text_at s.buffer
