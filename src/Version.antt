-- ===== src/Version.antt =====
-- base/include/hidl/HidlSupport.h: `hidl_version` and its comparison operators.
-- `mMajor` and `mMinor` are `uint16_t`: `IsVersion` states their range.
pub mod Order
use platform_system_libhidl.Prelude.{ℕ, ◌^◌, ◌<◌, Bool, ◌&&◌, ◌||◌, not, ltb, ◌==◌}

pub record HidlVersion : Type 0 where
  pub major : ℕ
  pub minor : ℕ

abbrev pub make_hidl_version : ℕ → ℕ → HidlVersion
make_hidl_version major minor = record { major = major; minor = minor }

pub record IsVersion (v : HidlVersion) : Type 0 where
  pub major_range : v.major < 2 ^ 16
  pub minor_range : v.minor < 2 ^ 16

unfoldable pub eq : HidlVersion → HidlVersion → Bool
eq v other = (v.major == other.major) && (v.minor == other.minor)

unfoldable pub lt : HidlVersion → HidlVersion → Bool
lt v other = ltb v.major other.major || ((v.major == other.major) && ltb v.minor other.minor)

unfoldable pub gt : HidlVersion → HidlVersion → Bool
unfolding lt
gt v other = lt other v

unfoldable pub le : HidlVersion → HidlVersion → Bool
unfolding gt
le v other = not (gt v other)

unfoldable pub ge : HidlVersion → HidlVersion → Bool
unfolding lt
ge v other = not (lt v other)
