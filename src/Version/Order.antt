-- ===== src/Version/Order.antt =====
-- The comparison operators of `hidl_version` against one number for each version.
use platform_system_libhidl.Prelude.{ℕ, ◌+◌, ◌*◌, ◌≡◌, ltb, leb, ◌==◌, arith}
use platform_system_libhidl.Version.{HidlVersion, IsVersion, eq, lt, gt, le, ge}

-- Major and minor as one 32-bit number.
abbrev pub rank : HidlVersion → ℕ
rank v = v.major * 65536 + v.minor

-- Between versions in range every comparison operator is the comparison of the ranks, so the six
-- operators describe one total order, with equality as its equivalence.
pub compare-rank :
    (a b : HidlVersion)
    → IsVersion a
    → IsVersion b
    → (eq a b ≡ (rank a == rank b))
      × (lt a b ≡ ltb (rank a) (rank b))
      × (gt a b ≡ ltb (rank b) (rank a))
      × (le a b ≡ leb (rank a) (rank b))
      × (ge a b ≡ leb (rank b) (rank a))
unfolding eq lt gt le ge
compare-rank a b ha hb = (ground arith, ground arith, ground arith, ground arith, ground arith)
