-- ===== src/Blocks.antt =====
-- The memory behind the owning classes of base/include/hidl/HidlSupport.h: blocks of elements that
-- `new T[n]` and `malloc` return and `delete[]` and `free` give back. A pointer is a block's
-- number, and 0 is null. No number is used twice, so a dangling pointer never becomes valid again;
-- allocation does not fail, since the code does not handle its failure.
pub mod Fill
pub mod Grown
use platform_system_libhidl.Prelude.{
  ltb, length, get_elem?, set, replicate, Run, done, fatal, fault, ℕ, zero, suc, Option, none, some,
  List, [], ◌==◌, if◌then◌else◌, ◌+◌, ◌∷◌,
}

pub record Heap (T : Type 0) : Type 0 where
  pub next : ℕ
  pub cell : ℕ → Option (List T)

abbrev pub M : Type 0 → Type 0 → Type 0
M T A = Heap T → Run (A × Heap T)

module _ {T : Type 0} where
  abbrev pub pure : {A : Type 0} → A → M T A
  pure a h = done (a, h)

  infixl 5 ◌>>=◌ ◌>>◌
  abbrev pub ◌>>=◌ : {A B : Type 0} → M T A → (A → M T B) → M T B
  ◌>>=◌ m f h = elim (m h) [ done (a, h') ↦ f a h' | fatal ↦ fatal | fault ↦ fault ]

  abbrev pub ◌>>◌ : {B : Type 0} → M T (Unit {0}) → M T B → M T B
  m >> k = m >>= λ _. k

  abbrev pub abort : {A : Type 0} → M T A
  abort h = fatal

  abbrev pub update : (ℕ → Option (List T)) → ℕ → Option (List T) → ℕ → Option (List T)
  update f p b q = if p == q then b else f q

  unfoldable pub write : Heap T → ℕ → Option (List T) → Heap T
  write h p b = record h { cell = update h.cell p b }

  -- `init` is the value that a new element has.
  unfoldable pub allocate : T → ℕ → M T ℕ
  unfolding write
  allocate init n h =
      done (
        h.next,
        record { next = suc h.next; cell = update h.cell h.next (some (replicate n init)) },
      )

  -- Freeing null does nothing; freeing what is not allocated is undefined.
  release_at : ℕ → Option (List T) → M T (Unit {0})
  unfolding write
  release_at p none h = fault
  release_at p (some b) h = done (tt, write h p none)

  unfoldable pub release : ℕ → M T (Unit {0})
  unfolding release_at
  release p h = if p == 0 then done (tt, h) else release_at p (h.cell p) h

  load_from : Option (List T) → ℕ → M T T
  load_from none i h = fault
  load_from (some b) i h = elim (get_elem? b i) [ none ↦ fault | some x ↦ done (x, h) ]

  unfoldable pub load : ℕ → ℕ → M T T
  unfolding load_from
  load p i h = load_from (h.cell p) i h

  store_to : ℕ → Option (List T) → ℕ → T → M T (Unit {0})
  unfolding write
  store_to p none i x h = fault
  store_to p (some b) i x h =
      if ltb i (length b) then done (tt, write h p (some (set b i x))) else fault

  unfoldable pub store : ℕ → ℕ → T → M T (Unit {0})
  unfolding store_to
  store p i x h = store_to p (h.cell p) i x h

  -- `for (i = ...; i < n; ++i) dst[i] = src[i];` with `k` rounds left.
  unfoldable pub fill_loop : (ℕ → M T T) → ℕ → ℕ → ℕ → M T (Unit {0})
  unfolding store
  fill_loop src zero i dst = pure tt
  fill_loop src (suc k) i dst = src i >>= λ x. store dst i x >> fill_loop src k (i + 1) dst

  -- A `std::vector`, an initializer list or an iterator range as the source of a loop.
  unfoldable pub read_list : List T → ℕ → M T T
  read_list xs i h = elim (get_elem? xs i) [ none ↦ fault | some x ↦ done (x, h) ]

  -- `std::vector<T> v(n); for (...) v[i] = src[i];`
  unfoldable pub collect : (ℕ → M T T) → ℕ → ℕ → M T (List T)
  collect src zero i = pure []
  collect src (suc k) i = src i >>= λ x. collect src k (i + 1) >>= λ xs. pure (x ∷ xs)
