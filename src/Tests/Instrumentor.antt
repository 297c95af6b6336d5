-- ===== src/Tests/Instrumentor.antt =====
-- Pointers, and instrumentation: one directory with one library, whose callback is its symbol's length; the
-- property is on at every second call.
use platform_system_libhidl.Instrumentor.{
  SystemOps, HidlInstrumentor, mangle_package, configure_instrumentation,
}
use platform_system_libhidl.Instrumentor.Symbol.{mangle_package_total}
use platform_system_libhidl.Instrumentor.Register.{
  is_tidy, configured, asked, after_asked, configured_lem,
}
use platform_system_libhidl.Pointer.{HidlPointer}
use platform_system_libhidl.Prelude.{
  length, pos, Bytes, codes, eqb_bytes, ℕ, suc, true, none, some, [], ◌==◌, if◌then◌else◌, ◌%◌, ◌≡◌,
  ◌≢◌, ◌⊎◌, ◌∷◌,
}

abbrev nfc : Bytes
nfc = codes "android.hardware.nfc@1.0"

mangle_package_total_example : mangle_package nfc ≡ some (codes "android_hardware_nfc_V1_0")
mangle_package_total_example = mangle_package_total nfc

abbrev system : SystemOps ℕ ℕ ℕ ℕ
system = record {
  property_get_bool = λ name default_value w. (w % 2 == 1, suc w);
  property_get = λ name default_value w. (pos 0, default_value, w);
  opendir = λ path w. (
    if eqb_bytes path (codes "/vendor/")
        then none
        else some (5, record { is_regular = true; d_name = codes "nfc.profiler.so" } ∷ []),
    w,
  );
  closedir = λ d w. w;
  dlopen = λ file w. (some 9, w);
  dlsym = λ h name w. (some (length name), w);
  regex_match = λ pattern text. true;
}

configured_lem_example :
    let (m, w) = configured system true true nfc (codes "INfc") 0 1 in
    let next = configure_instrumentation system true true m w in
    (is_tidy m ≡ true)
    × (next.0.enable_instrumentation ≡ asked system w)
    × ((asked system w ≢ m.enable_instrumentation) ⊎ (next ≡ (m, after_asked system w)))
configured_lem_example = configured_lem system true true nfc (codes "INfc") 0 1

abbrev nfc_client : HidlInstrumentor ℕ
nfc_client = record {
  enable_instrumentation = true;
  instrumentation_callbacks = [];
  instrumentation_lib_package = nfc;
  interface_name = codes "INfc";
}

abbrev pointer_to : ℕ → HidlPointer
pointer_to n = record { pad = n }
