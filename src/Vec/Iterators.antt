-- ===== src/Vec/Iterators.antt =====
-- hidl_vec::iter, a pointer into the vector's buffer: a block, and a position that may lie outside.
use platform_system_libhidl.Blocks.{M, Heap, pure, load, ◌>>=◌}
use platform_system_libhidl.Vec.{HidlVec}
use platform_system_libhidl.Vec.Content.{Holds, load-Stands}
use platform_system_libhidl.Prelude.{
  ==_refl, length, get_elem?, ℤ, pos, negsuc, ltb_ℤ, eqb_ℤ, difference, negate, Run, done, fault, ℕ,
  zero, suc, refl, ap, Bool, true, false, not, Option, none, some, List, [], arith, ◌+ℤ◌, ◌==◌,
  if◌then◌else◌, ◌+◌, ◌≡◌, ◌∙◌, ◌&&◌, ◌∷◌,
}

pub record Iter : Type 0 where
  pub buffer : ℕ
  pub at : ℤ

-- it + n, on mPtr
unfoldable pub plus : Iter → ℤ → Iter
plus it n = record it { at = it.at +ℤ n }

unfoldable pub minus : Iter → ℤ → Iter
minus it n = record it { at = it.at +ℤ negate n }

unfoldable pub increment : Iter → Iter
unfolding plus
increment it = plus it (pos 1)

-- The result, and the iterator afterwards.
unfoldable pub post_increment : Iter → Iter × Iter
unfolding increment
post_increment it = (it, increment it)

unfoldable pub decrement : Iter → Iter
unfolding minus
decrement it = minus it (pos 1)

unfoldable pub post_decrement : Iter → Iter × Iter
unfolding decrement
post_decrement it = (it, decrement it)

-- it - other, for iterators of one vector
unfoldable pub distance : Iter → Iter → ℤ
distance it other = it.at +ℤ negate other.at

unfoldable pub equal : Iter → Iter → Bool
equal it rhs = (it.buffer == rhs.buffer) && eqb_ℤ it.at rhs.at

unfoldable pub not_equal : Iter → Iter → Bool
unfolding equal
not_equal it rhs = not (equal it rhs)

-- <, for iterators of one vector; > swaps the operands.
unfoldable pub less : Iter → Iter → Bool
less it rhs = ltb_ℤ it.at rhs.at

unfoldable pub less_equal : Iter → Iter → Bool
less_equal it rhs = not (ltb_ℤ rhs.at it.at)

unfoldable pub begin : HidlVec → Iter
begin v = record { buffer = v.buffer; at = pos 0 }

unfoldable pub end_of : HidlVec → Iter
end_of v = record { buffer = v.buffer; at = pos v.size }

abbrev position : ℕ → ℕ → Iter
position b i = record { buffer = b; at = pos i }

difference-zero : (m : ℕ) → difference m 0 ≡ pos m
difference-zero m = ground arith

not_equal-position : (b i n : ℕ) → not_equal (position b i) (position b n) ≡ not (i == n)
unfolding not_equal equal
not_equal-position b i n = rw (==_refl b) refl

increment-position : (b i : ℕ) → increment (position b i) ≡ position b (i + 1)
unfolding increment plus
increment-position b i = ap (λ a. record { buffer = b; at = a }) (difference-zero (i + 1))

module _ {T : Type 0} where
  -- *it
  unfoldable pub deref : Iter → M T T
  unfolding load
  deref it h = elim it.at [ pos i ↦ load it.buffer i h | negsuc i ↦ fault ]

  -- it[n]
  unfoldable pub subscript : Iter → ℕ → M T T
  unfolding plus deref
  subscript it n = deref (plus it (pos n))

  -- for (; it != last; ++it) with the elements in the order that the loop sees them; none is out of
  -- fuel.
  unfoldable pub traverse : (fuel : ℕ) → Iter → Iter → M T (Option (List T))
  unfolding not_equal deref increment
  traverse zero it last = pure none
  traverse (suc k) it last =
      if not_equal it last
      then (deref it >>= λ x. traverse k (increment it) last >>= λ r.
          pure (elim r [ none ↦ none | some xs ↦ some (x ∷ xs) ]))
      else pure (some [])

  deref-position : (h : Heap T) (b i : ℕ) → deref (position b i) h ≡ load b i h
  unfolding deref
  deref-position h b i = refl

  -- The rest of a round behind what the traversal gives, and behind what the iterator reads.
  abbrev collect_one : Heap T → T → Run (Option (List T) × Heap T) → Run (Option (List T) × Heap T)
  collect_one h x m = ((λ g. m) >>= λ r. pure (elim r [ none ↦ none | some xs ↦ some (x ∷ xs) ])) h

  abbrev after_deref : Heap T → ℕ → Iter → Iter → Run (T × Heap T) → Run (Option (List T) × Heap T)
  after_deref h k it last m =
      ((λ g. m) >>= λ x. traverse k (increment it) last >>= λ r.
      pure (elim r [ none ↦ none | some xs ↦ some (x ∷ xs) ]))
        h

  traverse-cons :
      (h : Heap T) (k : ℕ) (it last : Iter)
      → not_equal it last ≡ true
      → traverse (suc k) it last h ≡ after_deref h k it last (deref it h)
  unfolding traverse
  traverse-cons h k it last apart = rw apart refl

  traverse-step :
      (h : Heap T) (k : ℕ) (it last : Iter) (x : T) (xs : List T)
      → not_equal it last ≡ true
      → deref it h ≡ done (x, h)
      → traverse (suc k) (increment it) last h ≡ done (some xs, h)
      → traverse (suc (suc k)) it last h ≡ done (some (x ∷ xs), h)
  traverse-step h k it last x xs apart here rest =
      traverse-cons h (suc k) it last apart
      ∙ ap (after_deref h (suc k) it last) here
      ∙ ap (collect_one h x) rest

  traverse_lem :
      (h : Heap T) (b i n : ℕ) (xs : List T)
      → ((j : ℕ) (x : T) → get_elem? xs j ≡ some x → load b (i + j) h ≡ done (x, h))
      → n ≡ i + length xs
      → traverse (suc (length xs)) (position b i) (position b n) h ≡ done (some xs, h)
  unfolding traverse
  traverse_lem h b i n [] gives e =
      let met : not_equal (position b i) (position b n) ≡ false =
        not_equal-position b i n ∙ ground (arith, e) in
      rw met refl
  traverse_lem h b i n (x ∷ xs) gives e =
      let apart : not_equal (position b i) (position b n) ≡ true =
        not_equal-position b i n ∙ ground (arith, e) in
      let here : deref (position b i) h ≡ done (x, h) =
        deref-position h b i ∙ ap (λ k. load b k h) (omega arith) ∙ gives 0 x refl in
      let next =
        traverse_lem h b (i + 1) n xs
          (λ j y got. ap (λ k. load b k h) (omega arith) ∙ gives (suc j) y got)
          (omega (arith, e)) in
      traverse-step h (length xs) (position b i) (position b n) x xs apart here
        (ap (λ it. traverse (suc (length xs)) it (position b n) h) (increment-position b i) ∙ next)

  -- A range-for over a vector ends after as many rounds as it has elements and one test, sees each
  -- element once and in order, reads nothing outside and leaves the memory alone.
  pub traverse-Holds :
      (h : Heap T) (v : HidlVec) (xs : List T)
      → Holds h v xs
      → traverse (suc v.size) (begin v) (end_of v) h ≡ done (some xs, h)
  unfolding begin end_of
  traverse-Holds h v xs holds = rw holds.size (
      traverse_lem h v.buffer 0 (length xs) xs
        (λ j x got.
          ap (λ k. load v.buffer k h) (omega arith) ∙ load-Stands h v.buffer j x xs holds.block got)
        (omega arith))
