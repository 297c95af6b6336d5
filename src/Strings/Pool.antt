-- ===== src/Strings/Pool.antt =====
-- base/HidlSupport.cpp: a program over any number of `hidl_string` objects, and what it does to the
-- texts that they stand for.
use platform_system_libhidl.Blocks.{Heap}
use platform_system_libhidl.Strings.{
  HidlString, empty_string, clear, copy_assign, move_assign, assign_string, set_to_external,
}
use platform_system_libhidl.Vec.{uint32_max}
use platform_system_libhidl.Prelude.{
  length, put, Run, done, Bytes, ℕ, some, List, [], ◌==◌, if◌then◌else◌, ◌>>=◌, ◌≤◌, ◌≡◌, ◌∷◌, ◌++◌,
}

-- A statement: the assignment of a std::string, of another string, or of one that is moved from,
-- setToExternal with the bytes of a text in the client's memory, and clear(), which is also all
-- that the destructor does.
pub data Op : Type 0 where
  assigns : (this : ℕ) → Bytes → Op
  copies moves : (this other : ℕ) → Op
  externals : (this pointer : ℕ) → Bytes → Op
  clears : (this : ℕ) → Op

-- The objects by number, and the memory. An object that no statement has named is empty.
pub record Pool : Type 0 where
  pub objects : ℕ → HidlString
  pub heap : Heap ℕ

-- The objects before a program, in the memory of the client.
abbrev pub start : ℕ → Heap ℕ → Pool
start k h0 = record { objects = λ i. empty_string k; heap = h0 }

module _ (k init : ℕ) where
  -- A method of object `i` that returns the object.
  unfoldable pub on_one : ℕ → (HidlString → Heap ℕ → Run (HidlString × Heap ℕ)) → Pool → Run Pool
  on_one i f p =
      f (p.objects i) p.heap >>= λ r. done (record { objects = put p.objects i r.0; heap = r.1 })

  unfoldable pub perform : Op → Pool → Run Pool
  unfolding on_one assign_string copy_assign move_assign set_to_external clear
  perform (assigns i t) p = on_one i (λ s h. assign_string k init s t h) p
  perform (copies i j) p =
      if i == j then done p else on_one i (λ s h. copy_assign k init s (p.objects j) h) p
  perform (moves i j) p =
      if i == j
      then done p
      else move_assign k (p.objects i) (p.objects j) p.heap >>= λ r.
          done (record { objects = put (put p.objects i r.0.0) j r.0.1; heap = r.1 })
  perform (externals i q t) p = on_one i (λ s h. set_to_external k init q (length t) s h) p
  perform (clears i) p = on_one i (λ s h. clear k s h) p

  unfoldable pub run : List Op → Pool → Run Pool
  unfolding perform
  run [] p = done p
  run (o ∷ os) p = perform o p >>= run os

-- The texts after a statement.
unfoldable pub meaning : Op → (ℕ → Bytes) → ℕ → Bytes
meaning (assigns i t) texts = put texts i t
meaning (copies i j) texts = if i == j then texts else put texts i (texts j)
meaning (moves i j) texts = if i == j then texts else put (put texts i (texts j)) j []
meaning (externals i q t) texts = put texts i t
meaning (clears i) texts = put texts i []

unfoldable pub meanings : List Op → (ℕ → Bytes) → ℕ → Bytes
unfolding meaning
meanings [] texts = texts
meanings (o ∷ os) texts = meanings os (meaning o texts)

-- A statement can be run over the client's memory `h0`: a text that it brings is not too long, and
-- an external one stands there with a NUL behind it.
unfoldable pub IsValid : Heap ℕ → Op → Type 0
IsValid h0 (assigns i t) = length t ≤ uint32_max
IsValid h0 (copies i j) = Unit {0}
IsValid h0 (moves i j) = Unit {0}
IsValid h0 (externals i q t) =
    (length t ≤ uint32_max) × ((rest : Bytes) × (h0.cell q ≡ some (t ++ 0 ∷ rest)))
IsValid h0 (clears i) = Unit {0}

unfoldable pub AllValid : Heap ℕ → List Op → Type 0
unfolding IsValid
AllValid h0 [] = Unit {0}
AllValid h0 (o ∷ os) = IsValid h0 o × AllValid h0 os
