-- ===== src/Vec/Content.antt =====
-- The list that a vector stands for, and the reading methods.
use platform_system_libhidl.Blocks.{Heap, load}
use platform_system_libhidl.Blocks.Fill.{Gives, SameBut, collect-append}
use platform_system_libhidl.Vec.{HidlVec, to_vector}
use platform_system_libhidl.Prelude.{
  ltb, ltb→lt, Bool-cases, length, get_elem?, done, ℕ, zero, suc, inl, inr, none, some, List, [],
  arith, ◌≤◌, ◌<◌, ◌≡◌, ◌∙◌, ◌≢◌, ◌∷◌, ◌++◌,
}

-- Block 0 is null, the blocks from `next` on are not allocated yet.
pub record IsHeap {T : Type 0} (h : Heap T) : Type 0 where
  pub next_pos : 0 < h.next
  pub unused : (p : ℕ) → h.next ≤ p → h.cell p ≡ none

-- The vector stands for `xs`: its size is theirs, and they begin its block, if there are any.
abbrev pub Stands : {T : Type 0} → Heap T → ℕ → List T → Type 0
Stands h p [] = Unit
Stands {T} h p (x ∷ xs) = (rest : List T) × (h.cell p ≡ some ((x ∷ xs) ++ rest))

pub record Holds {T : Type 0} (h : Heap T) (v : HidlVec) (xs : List T) : Type 0 where
  pub size : v.size ≡ length xs
  pub block : Stands h v.buffer xs

module _ {T : Type 0} where
  pub get_elem?-append_left :
      (xs ys : List T) (i : ℕ) (x : T) → get_elem? xs i ≡ some x → get_elem? (xs ++ ys) i ≡ some x
  get_elem?-append_left [] ys i x e = cc
  get_elem?-append_left (y ∷ xs) ys zero x e = e
  get_elem?-append_left (y ∷ xs) ys (suc i) x e = get_elem?-append_left xs ys i x e

  pub load-block :
      (h : Heap T) (p i : ℕ) (x : T) (b : List T)
      → h.cell p ≡ some b
      → get_elem? b i ≡ some x
      → load p i h ≡ done (x, h)
  unfolding load
  load-block h p i x b at got = ground (arith, at, got)

  pub load-Stands :
      (h : Heap T) (p i : ℕ) (x : T) (xs : List T)
      → Stands h p xs
      → get_elem? xs i ≡ some x
      → load p i h ≡ done (x, h)
  load-Stands h p i x [] s got = cc
  load-Stands h p i x (y ∷ xs) (rest, at) got =
      load-block h p i x (y ∷ (xs ++ rest)) at (get_elem?-append_left (y ∷ xs) rest i x got)

  pub Stands-SameBut :
      (h g : Heap T) (p q : ℕ) (xs : List T) → Stands h p xs → SameBut q h g → q ≢ p → Stands g p xs
  Stands-SameBut h g p q [] s same ne = s
  Stands-SameBut h g p q (x ∷ xs) (rest, at) same ne = (rest, same p ne ∙ at)

  pub Gives-load :
      (h : Heap T) (p dst : ℕ) (xs : List T) → Stands h p xs → dst ≢ p → Gives (load p) dst h xs
  Gives-load h p dst xs s ne g i x same got =
      load-Stands g p i x xs (Stands-SameBut h g p dst xs s same ne) got

  -- The cast to `std::vector` gives the elements of the vector and leaves the memory alone.
  pub to_vector-Holds :
      (h : Heap T) (v : HidlVec) (xs : List T) → Holds h v xs → to_vector v h ≡ done (xs, h)
  unfolding to_vector
  to_vector-Holds h v xs holds = rw holds.size (
      collect-append (load v.buffer) h [] xs
        (λ i x got. load-Stands h v.buffer i x xs holds.block got))

  pub next_of_some : (h : Heap T) (p : ℕ) (b : List T) → IsHeap h → h.cell p ≡ some b → p < h.next
  next_of_some h p b is at = elim (Bool-cases (ltb p h.next)) [
    | inl below ↦ ltb→lt p h.next below
    | inr above ↦ absurd (ground (arith, is.unused p))
  ]
