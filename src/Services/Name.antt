-- ===== src/Services/Name.antt =====
-- The short name of a process.
use platform_system_libhidl.Passthrough.{starts_with}
use platform_system_libhidl.Services.{last_index, rfind, before, short_name}
use platform_system_libhidl.Prelude.{
  length, take, drop, length-append, take-append, Bytes, eqb_bytes_refl, ℕ, suc, refl, true, none,
  some, [], arith, ◌+◌, ◌≡◌, ◌∷◌, ◌++◌,
}

last_index-append :
    (c : ℕ) (xs ys : Bytes)
    → last_index c ys ≡ none
    → last_index c (xs ++ c ∷ ys) ≡ some (length xs)
unfolding last_index
last_index-append c [] ys e = rw e (ground arith)
last_index-append c (x ∷ xs) ys e = rw (last_index-append c xs ys e)

starts_with-append : (text rest : Bytes) → starts_with (text ++ rest) text ≡ true
unfolding starts_with
starts_with-append text rest =
    rw (take-append text rest, eqb_bytes_refl text, length-append text rest) (ground arith)

-- The dot before the last one.
second_dot :
    (p m n : Bytes)
    → last_index 46 m ≡ none
    → last_index 46 n ≡ none
    → rfind 46 ((p ++ 46 ∷ m) ++ 46 ∷ n) (before (rfind 46 ((p ++ 46 ∷ m) ++ 46 ∷ n) none))
      ≡ some (length p)
unfolding rfind before
second_dot p m n no_m no_n =
    let last = last_index-append 46 (p ++ 46 ∷ m) n no_n in
    let size : length (p ++ 46 ∷ m) ≡ suc (length p + length m) =
      omega (arith, length-append p (46 ∷ m)) in
    let kept : take (suc (length p + length m)) ((p ++ 46 ∷ m) ++ 46 ∷ n) ≡ p ++ 46 ∷ m =
      rw (← size) (take-append (p ++ 46 ∷ m) (46 ∷ n)) in
    rw (last, size, kept) (last_index-append 46 p m no_m)

after_dot :
    (p m n rest : Bytes)
    → drop (length p + 1) (((p ++ 46 ∷ m) ++ 46 ∷ n) ++ rest) ≡ (m ++ 46 ∷ n) ++ rest
after_dot [] m n rest = refl
after_dot (x ∷ p) m n rest =
    let k : suc (length p) + 1 ≡ suc (length p + 1) = omega arith in rw k (after_dot p m n rest)

-- "p.m.n" with no dot in m and n, and anything behind it, is shortened to what follows "p.", and
-- that is cut to 15 bytes.
pub short_name_lem :
    (p m n rest : Bytes)
    → last_index 46 m ≡ none
    → last_index 46 n ≡ none
    → short_name (((p ++ 46 ∷ m) ++ 46 ∷ n) ++ rest) ((p ++ 46 ∷ m) ++ 46 ∷ n)
      ≡ some (take 15 ((m ++ 46 ∷ n) ++ rest))
unfolding short_name
short_name_lem p m n rest no_m no_n = rw (
  short_name,
  starts_with-append ((p ++ 46 ∷ m) ++ 46 ∷ n) rest,
  second_dot p m n no_m no_n,
  after_dot p m n rest,
)
