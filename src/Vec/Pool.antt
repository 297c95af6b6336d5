-- ===== src/Vec/Pool.antt =====
-- base/include/hidl/HidlSupport.h: a program over any number of `hidl_vec` objects, and what it does
-- to the lists that they stand for.
use platform_system_libhidl.Blocks.{Heap}
use platform_system_libhidl.Vec.{
  HidlVec, empty_vec, uint32_max, assign_vector, copy_assign, move_assign, move_assign_self, resize,
  set_to_external, destroy,
}
use platform_system_libhidl.Vec.Content.{Stands}
use platform_system_libhidl.Vec.Resize.{resized}
use platform_system_libhidl.Prelude.{
  is_some, length, put, Run, done, ℕ, true, false, Option, none, some, List, [], ◌==◌,
  if◌then◌else◌, ◌>>=◌, ◌≤◌, ◌≡◌, ◌||◌, ◌∷◌,
}

-- A statement: the assignment of a std::vector, of another vector, or of one that is moved from,
-- resize, setToExternal without ownership, and the end of an object, whose number a new one takes.
pub data Op (T : Type 0) : Type 0 where
  assigns : (this : ℕ) → List T → Op T
  copies moves : (this other : ℕ) → Op T
  resizes : (this size : ℕ) → Op T
  externals : (this pointer : ℕ) → List T → Op T
  ends : (this : ℕ) → Op T

-- The objects by number, and the memory.
pub record Pool (T : Type 0) : Type 0 where
  pub objects : ℕ → HidlVec
  pub heap : Heap T

abbrev pub start : {T : Type 0} → Heap T → Pool T
start h0 = record { objects = λ i. empty_vec; heap = h0 }

module _ {T : Type 0} (init : T) where
  -- A method of object `i` that returns the object.
  unfoldable pub on_one : ℕ → (HidlVec → Heap T → Run (HidlVec × Heap T)) → Pool T → Run (Pool T)
  on_one i f p =
      f (p.objects i) p.heap >>= λ r. done (record { objects = put p.objects i r.0; heap = r.1 })

  -- Only the copy assignment tests for the object itself.
  unfoldable pub perform : Op T → Pool T → Run (Pool T)
  unfolding on_one assign_vector copy_assign move_assign move_assign_self resize set_to_external
      destroy
  perform (assigns i xs) p = on_one i (λ v h. assign_vector init v xs h) p
  perform (copies i j) p =
      if i == j then done p else on_one i (λ v h. copy_assign init v (p.objects j) h) p
  perform (moves i j) p =
      if i == j
      then on_one i (λ v h. move_assign_self v h) p
      else move_assign (p.objects i) (p.objects j) p.heap >>= λ r.
          done (record { objects = put (put p.objects i r.0.0) j r.0.1; heap = r.1 })
  perform (resizes i n) p = on_one i (λ v h. resize init n v h) p
  perform (externals i q xs) p = on_one i (λ v h. set_to_external q (length xs) false v h) p
  perform (ends i) p = on_one i (λ v h. destroy v h >>= λ r. done (empty_vec, r.1)) p

  unfoldable pub run : List (Op T) → Pool T → Run (Pool T)
  unfolding perform
  run [] p = done p
  run (o ∷ os) p = perform o p >>= run os

  -- The lists after a statement. A vector that was moved from stands for nothing.
  unfoldable pub meaning : Op T → (ℕ → Option (List T)) → ℕ → Option (List T)
  unfolding resized
  meaning (assigns i xs) lists = put lists i (some xs)
  meaning (copies i j) lists = if i == j then lists else put lists i (lists j)
  meaning (moves i j) lists = put (put lists i (lists j)) j none
  meaning (resizes i n) lists =
      put lists i (elim (lists i) [ none ↦ none | some xs ↦ some (resized init n xs) ])
  meaning (externals i q xs) lists = put lists i (some xs)
  meaning (ends i) lists = put lists i (some [])

  unfoldable pub meanings : List (Op T) → (ℕ → Option (List T)) → ℕ → Option (List T)
  unfolding meaning
  meanings [] lists = lists
  meanings (o ∷ os) lists = meanings os (meaning o lists)

module _ {T : Type 0} where
  -- A statement may be run: it reads no vector that was moved from, moves none to itself, and its
  -- size has 32 bits; an external pointer is null or a block of the client's memory `h0`, and the list
  -- stands there.
  unfoldable pub IsValid : Heap T → (ℕ → Option (List T)) → Op T → Type 0
  IsValid h0 lists (assigns i xs) = length xs ≤ uint32_max
  IsValid h0 lists (copies i j) = is_some (lists j) ≡ true
  IsValid h0 lists (moves i j) = ((i == j) ≡ false) × (is_some (lists j) ≡ true)
  IsValid h0 lists (resizes i n) = (n ≤ uint32_max) × (is_some (lists i) ≡ true)
  IsValid h0 lists (externals i q xs) =
      (length xs ≤ uint32_max) × (Stands h0 q xs × ((q == 0 || is_some (h0.cell q)) ≡ true))
  IsValid h0 lists (ends i) = Unit {0}

module _ {T : Type 0} (init : T) where
  unfoldable pub AllValid : Heap T → (ℕ → Option (List T)) → List (Op T) → Type 0
  unfolding IsValid meaning
  AllValid h0 lists [] = Unit {0}
  AllValid h0 lists (o ∷ os) = IsValid h0 lists o × AllValid h0 (meaning init o lists) os
