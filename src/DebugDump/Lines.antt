-- ===== src/DebugDump/Lines.antt =====
-- What one line of a process's memory maps adds to the processes of a library.
use platform_system_libhidl.Services.{last_index}
use platform_system_libhidl.DebugDump.{
  Infos, insert_pid, back, lib_file_name, Pids, pids_of, insert, contains_key, add_line,
}
use platform_system_libhidl.Prelude.{
  Bool-cases, is_some, drop, ℤ, eqb_ℤ, eqb_ℤ_iff, done, Bytes, eqb_bytes, eqb_bytes_iff, ℕ, refl,
  inl, inr, Bool, false, not, Option, none, some, List, [], arith, ◌==◌, if◌then◌else◌, ◌+◌, ◌≡◌,
  ◌&&◌, ◌||◌, ◌∷◌,
}

abbrev pub contains : ℤ → List ℤ → Bool
contains p [] = false
contains p (q ∷ qs) = eqb_ℤ q p || contains p qs

contains-insert_pid :
    (p q : ℤ) (ps : List ℤ) → contains p (insert_pid q ps) ≡ (eqb_ℤ q p || contains p ps)
unfolding insert_pid
contains-insert_pid p q [] = refl
contains-insert_pid p q (x ∷ xs) =
    ground (arith, contains-insert_pid p q xs, eqb_ℤ_iff x q, eqb_ℤ_iff x p, eqb_ℤ_iff q p)

-- The library that a line names, if the filters find one.
abbrev pub named : Bytes → Option Bytes
named line = elim (back line) [
  | none ↦ none
  | some c ↦
      if not (c == 111)
      then none
      else if not (is_some (last_index 64 line))
      then none
      else elim (last_index 32 line) [ none ↦ none | some i ↦ some (drop (i + 1) line) ]
]

abbrev pub names_it : Bytes → Option Bytes → Bool
names_it lib none = false
names_it lib (some name) = eqb_bytes name lib

-- Whether one of the lines names the library, and whether the maps of a process `p` do.
abbrev pub in_lines : Bytes → List Bytes → Bool
in_lines lib [] = false
in_lines lib (line ∷ lines) = names_it lib (named line) || in_lines lib lines

pids_of-insert :
    (lib name : Bytes) (p q : ℤ) (m : Pids)
    → contains p (pids_of lib (insert name q m))
      ≡ ((eqb_bytes name lib && eqb_ℤ q p) || contains p (pids_of lib m))
unfolding pids_of insert
pids_of-insert lib name p q [] = ground arith
pids_of-insert lib name p q ((k, s) ∷ rest) = ground (
  arith,
  contains-insert_pid p q s,
  pids_of-insert lib name p q rest,
  eqb_bytes_iff k name,
  eqb_bytes_iff k lib,
  eqb_bytes_iff name lib,
)

pub contains-add_line :
    (infos : Infos) (q : ℤ) (n : Option Bytes) (m : Pids) (lib : Bytes) (p : ℤ)
    → contains p (pids_of lib (add_line infos q n m))
      ≡ ((contains_key lib infos && (names_it lib n && eqb_ℤ q p)) || contains p (pids_of lib m))
unfolding add_line
contains-add_line infos q none m lib p = elim (Bool-cases (contains_key lib infos)) [
  | inl k ↦ rw k refl
  | inr k ↦ rw k refl
]
contains-add_line infos q (some name) m lib p =
    ground (arith, pids_of-insert lib name p q m, eqb_bytes_iff name lib)

pub and_false : (k c : Bool) → ((k && false) || c) ≡ c
and_false k c = ground arith

pub one_more :
    (k a b q c : Bool) → ((k && (b && q)) || ((k && (a && q)) || c)) ≡ ((k && ((a || b) && q)) || c)
one_more k a b q c = ground arith

pub one_process : (k a b c : Bool) → ((k && b) || ((k && a) || c)) ≡ ((k && (a || b)) || c)
one_process k a b c = ground arith

pub or_false : (b : Bool) → (b || false) ≡ b
or_false b = ground arith

back-cons : (c : ℕ) (cs : Bytes) → (d : ℕ) × (back (c ∷ cs) ≡ some d)
unfolding back
back-cons c [] = (c, refl)
back-cons c (x ∷ xs) = back-cons x xs

pub lib_file_name-cons : (c : ℕ) (cs : Bytes) → lib_file_name (c ∷ cs) ≡ done (named (c ∷ cs))
unfolding lib_file_name
lib_file_name-cons c cs =
    let (d, e) = back-cons c cs in
    rw (lib_file_name, named, e)
      (elim (Bool-cases (d == 111)) [
        | inl k ↦ elim (Bool-cases (is_some (last_index 64 (c ∷ cs)))) [
          | inl l ↦ rw (k, l) refl
          | inr l ↦ rw (k, l) refl
        ]
        | inr k ↦ rw k refl
      ])

-- No line is empty, as in every /proc/PID/maps.
abbrev pub NoneEmpty : List Bytes → Type 0
NoneEmpty [] = Unit {0}
NoneEmpty ([] ∷ lines) = ⊥
NoneEmpty ((c ∷ cs) ∷ lines) = NoneEmpty lines
