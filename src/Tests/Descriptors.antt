-- ===== src/Tests/Descriptors.antt =====
-- A process that numbers its file descriptors upwards.
use platform_system_libhidl.Prelude.{
  ltb, ℤ, pos, negsuc, eqb_ℤ, ℕ, suc, Bool, true, false, not, arith, if◌then◌else◌, ◌≡◌, ◌&&◌,
}

-- The descriptors of a process: those below `next` that were not closed.
pub record Table : Type 0 where
  pub next : ℕ
  pub gone : ℤ → Bool

abbrev pub is_open : Table → ℤ → Bool
is_open w (pos n) = ltb n w.next && not (w.gone (pos n))
is_open w (negsuc n) = false

abbrev pub dup : ℤ → Table → ℤ × Table
dup fd w = (
  pos w.next,
  record { next = suc w.next; gone = λ x. if eqb_ℤ x (pos w.next) then false else w.gone x },
)

abbrev pub close : ℤ → Table → Table
close fd w = record w { gone = λ x. if eqb_ℤ x fd then true else w.gone x }

pub dup-fresh : (fd : ℤ) (w : Table) → is_open w (dup fd w).0 ≡ false
dup-fresh fd w = ground arith

pub is_open-dup :
    (fd : ℤ) (w : Table) (x : ℤ)
    → is_open (dup fd w).1 x
      ≡ (if eqb_ℤ x (dup fd w).0 then not (eqb_ℤ x (negsuc 0)) else is_open w x)
is_open-dup fd w (pos n) = ground arith
is_open-dup fd w (negsuc n) = ground arith

pub is_open-close :
    (fd : ℤ) (w : Table) (x : ℤ)
    → is_open (close fd w) x ≡ (if eqb_ℤ x fd then false else is_open w x)
is_open-close fd w (pos n) = ground arith
is_open-close fd w (negsuc n) = ground arith
