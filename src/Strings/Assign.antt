-- ===== src/Strings/Assign.antt =====
-- Copies of strings: the text, its NUL, and who owns the buffer.
use platform_system_libhidl.Blocks.{Heap, M, write, allocate, load, read_list, collect}
use platform_system_libhidl.Blocks.Fill.{store-append, collect-append}
use platform_system_libhidl.Vec.{uint32_max}
use platform_system_libhidl.Vec.Content.{IsHeap, load-block, get_elem?-append_left, next_of_some}
use platform_system_libhidl.Blocks.Grown.{
  grown, GivesAbove, GivesAbove-read_list, fill_loop-grown, write-grown,
}
use platform_system_libhidl.Strings.{
  HidlString, hidl_string, until_nul, c_str, to_string, clear, copy_from, copy_assign,
  assign_string, empty_string, move_assign,
}
use platform_system_libhidl.Prelude.{
  is_some, length, replicate, length-replicate, replicate-add, done, Bytes, ℕ, refl, Bool, true,
  false, not, none, some, [], arith, ◌==◌, if◌then◌else◌, ◌+◌, ◌≤◌, ◌<◌, ◌≡◌, ◌∙◌, ◌&&◌, ◌∷◌, ◌++◌,
}

-- The string stands for the text `t`: its block begins with the bytes of `t` and a NUL.
pub record Holds (h : Heap ℕ) (s : HidlString) (t : Bytes) : Type 0 where
  pub size : s.size ≡ length t
  pub rest : Bytes
  pub block : h.cell s.buffer ≡ some (t ++ 0 ∷ rest)

-- The string owns block `p`; the block `k` of kEmptyString is never owned.
abbrev pub owns_block : ℕ → HidlString → ℕ → Bool
owns_block k s p = s.owns && not (s.buffer == k) && (s.buffer == p)

-- A buffer that the string owns is allocated.
abbrev pub CanFree : ℕ → Heap ℕ → HidlString → Type 0
CanFree k h s =
    (s.owns && not (s.buffer == k) && not (s.buffer == 0) && not (is_some (h.cell s.buffer)))
    ≡ false

-- No byte of the text is NUL.
abbrev pub no_nul : Bytes → Bool
no_nul [] = true
no_nul (b ∷ bs) = not (b == 0) && no_nul bs

-- What a copy of the text `t` into `s` leaves: the string `w` and the memory `g`.
pub record Copied (k : ℕ) (h : Heap ℕ) (s : HidlString) (t : Bytes) (w : HidlString) (g : Heap ℕ)
    : Type 0 where
  pub size : w.size ≡ length t
  pub owner : w.owns ≡ true
  pub fresh : h.cell w.buffer ≡ none
  pub heap : IsHeap g
  pub valid : 0 < w.buffer
  pub memory :
      (p : ℕ)
      → g.cell p ≡ (
          if w.buffer == p
          then some (t ++ 0 ∷ [])
          else if owns_block k s p && not (p == 0)
          then none
          else h.cell p)

-- The memory without the buffer that `s` owns.
abbrev pub freed : ℕ → HidlString → Heap ℕ → Heap ℕ
freed k s h =
    if s.owns && not (s.buffer == k) && not (s.buffer == 0) then write h s.buffer none else h

until_nul-append : (t rest : Bytes) → no_nul t ≡ true → until_nul (t ++ 0 ∷ rest) ≡ some t
until_nul-append [] rest n = refl
until_nul-append (b ∷ t) rest n = ground (arith, until_nul-append t rest)

-- Of a text with no NUL, c_str() and the cast to `std::string` read the same bytes, those of the
-- text, and leave the memory alone.
pub read-Holds :
    (h : Heap ℕ) (s : HidlString) (t : Bytes)
    → Holds h s t
    → no_nul t ≡ true
    → (c_str s h ≡ done (t, h)) × (to_string s h ≡ done (t, h))
unfolding c_str to_string
read-Holds h s t holds n =
    (ground (arith, holds.block, until_nul-append t holds.rest n), ground (arith, loop, holds.size))
  where
    loop : collect (load s.buffer) (length t) 0 h ≡ done (t, h)
    loop = collect-append (load s.buffer) h [] t λ i x got.
        load-block h s.buffer i x (t ++ 0 ∷ holds.rest) holds.block
          (get_elem?-append_left t (0 ∷ holds.rest) i x got)

module _ (k : ℕ) (h : Heap ℕ) where
  pub clear-freed :
      (s : HidlString) → CanFree k h s → clear k s h ≡ done (empty_string k, freed k s h)
  unfolding clear
  clear-freed s can = ground (arith, can)

  pub cell-freed :
      (s : HidlString) (p : ℕ)
      → (freed k s h).cell p ≡ (if owns_block k s p && not (p == 0) then none else h.cell p)
  unfolding write
  cell-freed s p = ground arith

  pub next-freed : (s : HidlString) → (freed k s h).next ≡ h.next
  unfolding write
  next-freed s = ground arith

module _ (k : ℕ) (init : ℕ) where
  copy_from-grown :
      (src : ℕ → M ℕ ℕ) (h : Heap ℕ) (t : Bytes)
      → length t ≤ uint32_max
      → GivesAbove src h t
      → copy_from k init src (length t) h
        ≡ done (hidl_string h.next (length t) true, grown h (t ++ 0 ∷ []))
  unfolding copy_from allocate
  copy_from-grown src h t fits gives =
      let old : replicate (length t + 1) init ≡ replicate (length t) init ++ init ∷ [] =
        replicate-add (length t) 1 init in
      let filled =
        fill_loop-grown src h t (replicate (length t) init) (init ∷ [])
          (length-replicate (length t) init) gives in
      let stored = store-append (grown h (t ++ init ∷ [])) h.next t [] init 0 (ground arith) in
      ground (arith, old, filled, stored, write-grown h (t ++ init ∷ []) (t ++ 0 ∷ []))

  pub IsHeap-freed : (h : Heap ℕ) (s : HidlString) → IsHeap h → IsHeap (freed k s h)
  IsHeap-freed h s is = record {
    next_pos = rw next-freed is.next_pos;
    unused = λ p above. ground (arith, cell-freed k h s p, next-freed k h s, is.unused p);
  }

  IsHeap-grown : (h : Heap ℕ) (b : Bytes) → IsHeap h → IsHeap (grown h b)
  IsHeap-grown h b is = record {
    next_pos = omega arith;
    unused = λ p above. ground (arith, is.unused p);
  }

  Copied-grown :
      (h : Heap ℕ) (s : HidlString) (t : Bytes)
      → IsHeap h
      → Copied k h s t
          (hidl_string (freed k s h).next (length t) true)
          (grown (freed k s h) (t ++ 0 ∷ []))
  Copied-grown h s t is = record {
    size = refl;
    owner = refl;
    fresh = rw next-freed (is.unused h.next (omega arith));
    heap = IsHeap-grown (freed k s h) (t ++ 0 ∷ []) (IsHeap-freed h s is);
    valid = rw next-freed is.next_pos;
    memory = λ p. ground (arith, cell-freed k h s p);
  }

  -- Assignment from a `std::string` of at most UINT32_MAX bytes: the string gets a new block of its
  -- own with the bytes and a NUL, and frees the block that it owned.
  pub assign_string-Copied :
      (h : Heap ℕ) (s : HidlString) (t : Bytes)
      → IsHeap h
      → CanFree k h s
      → length t ≤ uint32_max
      → (w : HidlString) × (g : Heap ℕ) × (assign_string k init s t h ≡ done (w, g))
        × Copied k h s t w g
        × Holds g w t
  unfolding assign_string
  assign_string-Copied h s t is can fits = (
    hidl_string (freed k s h).next (length t) true,
    grown (freed k s h) (t ++ 0 ∷ []),
    ground (
      arith,
      clear-freed k h s can,
      copy_from-grown (read_list t) (freed k s h) t fits (GivesAbove-read_list (freed k s h) t),
    ),
    Copied-grown h s t is,
    record { size = refl; rest = []; block = ground arith },
  )

  -- Copy assignment to a string whose own buffer may be freed, from another string of at most
  -- UINT32_MAX bytes whose block it does not own, succeeds: the string gets a new block with the
  -- text and a NUL behind it, the block that it owned is freed, and both strings stand for the
  -- text.
  pub copy_assign-Holds :
      (h : Heap ℕ) (s other : HidlString) (t : Bytes)
      → IsHeap h
      → CanFree k h s
      → length t ≤ uint32_max
      → Holds h other t
      → owns_block k s other.buffer ≡ false
      → (w : HidlString) × (g : Heap ℕ) × (copy_assign k init s other h ≡ done (w, g))
        × Copied k h s t w g
        × Holds g w t
        × Holds g other t
  unfolding copy_assign
  copy_assign-Holds h s other t is can fits holds apart = (
    hidl_string (freed k s h).next (length t) true,
    grown (freed k s h) (t ++ 0 ∷ []),
    ground (
      arith,
      clear-freed k h s can,
      holds.size,
      copy_from-grown (load other.buffer) (freed k s h) t fits gives,
    ),
    Copied-grown h s t is,
    record { size = refl; rest = []; block = ground arith },
    record { size = holds.size; rest = holds.rest; block = ground (arith, below, still) },
  )
    where
      still : (freed k s h).cell other.buffer ≡ some (t ++ 0 ∷ holds.rest)
      still = ground (arith, cell-freed k h s other.buffer, holds.block)

      below : other.buffer < (freed k s h).next
      below = next_of_some (freed k s h) other.buffer _ (IsHeap-freed h s is) still

      gives : GivesAbove (load other.buffer) (freed k s h) t
      gives g i x same got =
          load-block g other.buffer i x (t ++ 0 ∷ holds.rest) (same other.buffer below ∙ still)
            (get_elem?-append_left t (0 ∷ holds.rest) i x got)

module _ (k : ℕ) where
  -- Move assignment from another string, whose block `s` does not own, hands its buffer over with
  -- its ownership, frees the block that `s` owned, and leaves the other string empty.
  pub move_assign-empty :
      (h : Heap ℕ) (s other : HidlString) (t : Bytes)
      → CanFree k h s
      → Holds h other t
      → owns_block k s other.buffer ≡ false
      → (move_assign k s other h ≡ done ((other, empty_string k), freed k s h))
        × Holds (freed k s h) other t
  unfolding move_assign
  move_assign-empty h s other t can holds apart = (
    ground (arith, clear-freed k h s can),
    record {
      size = holds.size;
      rest = holds.rest;
      block = ground (arith, cell-freed k h s other.buffer, holds.block);
    },
  )
