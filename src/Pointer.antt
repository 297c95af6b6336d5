-- ===== src/Pointer.antt =====
-- base/include/hidl/HidlInternal.h: hidl_pointer, a union of a pointer of `w` bits (32 or 64) and
-- the 64-bit word `_pad`, on a little-endian machine: the pointer is the low part of the word.
pub mod Word
use platform_system_libhidl.Prelude.{ℕ, ◌+◌, ◌-◌, ◌%◌, ◌^◌}

pub record HidlPointer : Type 0 where
  pub pad : ℕ

unfoldable pub default_pointer : HidlPointer
default_pointer = record { pad = 0 }

-- mPointer
unfoldable pub read_pointer : (w : ℕ) → HidlPointer → ℕ
read_pointer w p = p.pad % 2 ^ w

-- mPointer = ptr: the rest of the word stays.
unfoldable pub write_pointer : (w : ℕ) → HidlPointer → ℕ → HidlPointer
write_pointer w p ptr = record { pad = p.pad - p.pad % 2 ^ w + ptr % 2 ^ w }

unfoldable pub of_pointer : (w : ℕ) → ℕ → HidlPointer
unfolding write_pointer default_pointer
of_pointer w ptr = write_pointer w default_pointer ptr

unfoldable pub copy_ctor : (w : ℕ) → HidlPointer → HidlPointer
unfolding write_pointer read_pointer default_pointer
copy_ctor w other = write_pointer w default_pointer (read_pointer w other)

unfoldable pub copy_assign : (w : ℕ) → HidlPointer → HidlPointer → HidlPointer
unfolding write_pointer read_pointer
copy_assign w p other = write_pointer w p (read_pointer w other)

unfoldable pub assign_pointer : (w : ℕ) → HidlPointer → ℕ → HidlPointer
unfolding write_pointer
assign_pointer w p ptr = write_pointer w p ptr

-- This object and `other` afterwards; they are two objects.
unfoldable pub move_assign : (w : ℕ) → HidlPointer → HidlPointer → HidlPointer × HidlPointer
unfolding write_pointer read_pointer
move_assign w p other = (write_pointer w p (read_pointer w other), write_pointer w other 0)

unfoldable pub move_ctor : (w : ℕ) → HidlPointer → HidlPointer × HidlPointer
unfolding move_assign default_pointer
move_ctor w other = move_assign w default_pointer other

-- p = std::move(p)
unfoldable pub move_assign_self : (w : ℕ) → HidlPointer → HidlPointer
unfolding write_pointer read_pointer
move_assign_self w p = write_pointer w (write_pointer w p (read_pointer w p)) 0
