-- ===== src/Pointer/Word.antt =====
-- The 64-bit word of a hidl_pointer: a process with pointers of another width reads the same.
use platform_system_libhidl.Pointer.{
  HidlPointer, default_pointer, read_pointer, write_pointer, of_pointer, copy_ctor, copy_assign,
  assign_pointer, move_assign, move_ctor, move_assign_self,
}
use native.Mathlib.Nat.{mod-eq_of_lt}
use platform_system_libhidl.Prelude.{ℕ, refl, arith, ◌+◌, ◌-◌, ◌%◌, ◌^◌, ◌<◌, ◌≡◌}

-- The part of the word behind the pointer is zero.
abbrev pub IsExtended : ℕ → HidlPointer → Type 0
IsExtended w p = p.pad < 2 ^ w

-- Ways to make or change a hidl_pointer.
pub data Use : Type 0 where
  fresh : Use
  from_pointer : ℕ → Use
  copied : HidlPointer → Use
  copy_assigned : HidlPointer → Use
  assigned : ℕ → Use
  moved : HidlPointer → Use
  move_assigned : HidlPointer → Use
  moved_from : Use
  self_moved : Use

unfoldable pub use_pointer : (w : ℕ) → HidlPointer → Use → HidlPointer
unfolding default_pointer of_pointer copy_ctor copy_assign assign_pointer move_ctor move_assign
    move_assign_self
use_pointer w p fresh = default_pointer
use_pointer w p (from_pointer ptr) = of_pointer w ptr
use_pointer w p (copied other) = copy_ctor w other
use_pointer w p (copy_assigned other) = copy_assign w p other
use_pointer w p (assigned ptr) = assign_pointer w p ptr
use_pointer w p (moved other) = (move_ctor w other).0
use_pointer w p (move_assigned other) = (move_assign w p other).0
use_pointer w p moved_from = (move_assign w default_pointer p).1
use_pointer w p self_moved = move_assign_self w p

-- The pointer that the object should then hold, from the one that it held.
abbrev pub held : (w : ℕ) → HidlPointer → Use → ℕ
held w p fresh = 0
held w p (from_pointer ptr) = ptr
held w p (copied other) = other.pad
held w p (copy_assigned other) = other.pad
held w p (assigned ptr) = ptr
held w p (moved other) = other.pad
held w p (move_assigned other) = other.pad
held w p moved_from = 0
held w p self_moved = 0

-- The operands of a use fit the width.
abbrev pub Fits : ℕ → Use → Type 0
Fits w fresh = Unit {0}
Fits w (from_pointer ptr) = ptr < 2 ^ w
Fits w (copied other) = IsExtended w other
Fits w (copy_assigned other) = IsExtended w other
Fits w (assigned ptr) = ptr < 2 ^ w
Fits w (moved other) = IsExtended w other
Fits w (move_assigned other) = IsExtended w other
Fits w moved_from = Unit {0}
Fits w self_moved = Unit {0}

write_low : (w n x : ℕ) → n < 2 ^ w → x < 2 ^ w → n - n % 2 ^ w + x % 2 ^ w ≡ x
write_low w n x h f = rw (mod-eq_of_lt h, mod-eq_of_lt f) (omega arith)

write_read : (w n x : ℕ) → n < 2 ^ w → x < 2 ^ w → n - n % 2 ^ w + x % 2 ^ w % 2 ^ w ≡ x
write_read w n x h f = rw (mod-eq_of_lt f) (write_low w n x h f)

-- Every constructor and assignment leaves the whole word equal to the pointer, extended by zeros,
-- where the objects that it reads are of that kind: 64-bit code reads the pointer that 32-bit code
-- wrote. A moved-from object is null, also one that was moved to itself.
pub use_pointer_lem :
    (w : ℕ) (p : HidlPointer) (u : Use)
    → IsExtended w p
    → Fits w u
    → (use_pointer w p u).pad ≡ held w p u
unfolding use_pointer write_pointer read_pointer
use_pointer_lem w p fresh h f = refl
use_pointer_lem w p (from_pointer ptr) h f = write_low w 0 ptr (omega (arith, h)) f
use_pointer_lem w p (copied other) h f = write_read w 0 other.pad (omega (arith, h)) f
use_pointer_lem w p (copy_assigned other) h f = write_read w p.pad other.pad h f
use_pointer_lem w p (assigned ptr) h f = write_low w p.pad ptr h f
use_pointer_lem w p (moved other) h f = write_read w 0 other.pad (omega (arith, h)) f
use_pointer_lem w p (move_assigned other) h f = write_read w p.pad other.pad h f
use_pointer_lem w p moved_from h f = write_low w p.pad 0 h (omega (arith, h))
use_pointer_lem w p self_moved h f =
    rw (write_read w p.pad p.pad h h) (write_low w p.pad 0 h (omega (arith, h)))
