-- ===== src/Instrumentor.antt =====
-- base/HidlInternal.cpp, base/include/hidl/HidlInternal.h: HidlInstrumentor, which registers the
-- callbacks of instrumentation libraries. D: open directories, H: library handles, Cb: callbacks,
-- W: the world. The log is left out.
pub mod Symbol
pub mod Register
use platform_system_libhidl.Prelude.{
  length, get_elem?, set, take, drop, ℤ, pos, ltb_ℤ, Bytes, codes, ℕ, zero, suc, Bool, true, false,
  not, Option, none, some, List, [], ◌==◌, if◌then◌else◌, ◌+◌, ◌*◌, ◌^◌, ◌∷◌, ◌++◌,
}

pub record Dirent : Type 0 where
  -- d_type == DT_REG
  pub is_regular : Bool
  pub d_name : Bytes

-- What the class asks of the system.
pub record SystemOps (D H Cb W : Type 0) : Type 0 where
  pub property_get_bool : Bytes → (default_value : Bool) → W → Bool × W
  -- the returned length, and the value
  pub property_get : Bytes → (default_value : Bytes) → W → ℤ × Bytes × W
  -- with the entries that readdir() then returns until it returns NULL
  pub opendir : Bytes → W → Option (D × List Dirent) × W
  pub closedir : D → W → W
  pub dlopen : Bytes → W → Option H × W
  -- none where dlerror() reports an error afterwards
  pub dlsym : H → Bytes → W → Option Cb × W
  -- std::regex_match, with the pattern first
  pub regex_match : Bytes → Bytes → Bool

pub record HidlInstrumentor (Cb : Type 0) : Type 0 where
  pub enable_instrumentation : Bool
  pub instrumentation_callbacks : List Cb
  pub instrumentation_lib_package : Bytes
  pub interface_name : Bytes

-- package.insert(i, s)
unfoldable pub insert : ℕ → Bytes → Bytes → Bytes
insert i s pkg = take i pkg ++ s ++ drop i pkg

-- The body of the loop on the package, at the index `i` of the character `c`.
unfoldable pub mangle : ℕ → ℕ → Bytes → Bytes
unfolding insert
mangle i c pkg =
    if c == 46
    then set pkg i 95
    else if c == 64
    then insert (i + 1) (codes "V") (set pkg i 95)
    else pkg

-- The loop, whose bound package.size() grows with the package; none is out of fuel.
unfoldable pub mangle_loop : (fuel : ℕ) → ℕ → Bytes → Option Bytes
unfolding mangle
mangle_loop zero i pkg = none
mangle_loop (suc n) i pkg = elim (get_elem? pkg i) [
  | none ↦ some pkg
  | some c ↦ mangle_loop n (i + 1) (mangle i c pkg)
]

unfoldable pub mangle_package : Bytes → Option Bytes
unfolding mangle_loop
mangle_package pkg = mangle_loop (suc (2 * length pkg)) 0 pkg

-- The name that dlsym looks up.
unfoldable pub symbol_name : Bytes → Bytes → Bytes
unfolding mangle_package
symbol_name pkg interface = elim (mangle_package pkg) [
  | none ↦ []
  | some mangled ↦ codes "HIDL_INSTRUMENTATION_FUNCTION_" ++ mangled ++ codes "_" ++ interface
]

-- HAL_LIBRARY_PATH_SYSTEM, _VNDK_SP, _VENDOR and _ODM.
unfoldable pub hal_library_paths : (lp64 : Bool) → List Bytes
hal_library_paths true =
    codes "/system/lib64/hw/"
    ∷ codes "/system/lib64/vndk-sp/hw/"
    ∷ codes "/vendor/lib64/hw/"
    ∷ codes "/odm/lib64/hw/"
    ∷ []
hal_library_paths false =
    codes "/system/lib/hw/"
    ∷ codes "/system/lib/vndk-sp/hw/"
    ∷ codes "/vendor/lib/hw/"
    ∷ codes "/odm/lib/hw/"
    ∷ []

module _ {D H Cb W : Type 0} (o : SystemOps D H Cb W) where
  unfoldable pub is_instrumentation_lib : (debuggable : Bool) → HidlInstrumentor Cb → Dirent → Bool
  is_instrumentation_lib false m file = false
  is_instrumentation_lib true m file =
      if not file.is_regular
      then false
      else o.regex_match (codes "^" ++ m.instrumentation_lib_package ++ codes "(.*).profiler.so$")
          file.d_name

  -- A library that was found: dlopen, then dlsym; a handle without the symbol stays open.
  unfoldable pub load_lib : HidlInstrumentor Cb → Bytes → W → Option Cb × W
  unfolding symbol_name
  load_lib m file w =
      let (handle, w') = o.dlopen file w in
      elim handle [
        | none ↦ (none, w')
        | some h ↦ o.dlsym h (symbol_name m.instrumentation_lib_package m.interface_name) w'
      ]

  unfoldable pub push_found : Option Cb → List Cb → List Cb
  push_found none callbacks = callbacks
  push_found (some cb) callbacks = callbacks ++ cb ∷ []

  -- while ((file = readdir(dir)) != NULL)
  unfoldable pub files_loop : HidlInstrumentor Cb → Bytes → List Dirent → List Cb → W → List Cb × W
  unfolding is_instrumentation_lib load_lib push_found
  files_loop m path [] callbacks w = (callbacks, w)
  files_loop m path (file ∷ files) callbacks w =
      let (found, w') =
        if not (is_instrumentation_lib true m file)
        then (none, w)
        else load_lib m (path ++ file.d_name) w in
      files_loop m path files (push_found found callbacks) w'

  -- for (auto path : instrumentationLibPaths); a path that cannot be opened ends the loop.
  unfoldable pub paths_loop : HidlInstrumentor Cb → List Bytes → List Cb → W → List Cb × W
  unfolding files_loop
  paths_loop m [] callbacks w = (callbacks, w)
  paths_loop m (path ∷ paths) callbacks w =
      let (dir, w') = o.opendir path w in
      elim dir [
        | none ↦ (callbacks, w')
        | some (d, files) ↦
            let (callbacks', w'') = files_loop m path files callbacks w' in
            paths_loop m paths callbacks' (o.closedir d w'')
      ]

  -- The builds are LIBHIDL_TARGET_DEBUGGABLE or not, and __LP64__ or not.
  unfoldable pub lib_paths : (lp64 : Bool) → W → List Bytes × W
  unfolding hal_library_paths
  lib_paths lp64 w =
      let (n, path, w') = o.property_get (codes "hal.instrumentation.lib.path") [] w in
      (if ltb_ℤ (pos 0) n then path ∷ [] else hal_library_paths lp64, w')

  unfoldable pub register_instrumentation_callbacks :
      (debuggable lp64 : Bool) → HidlInstrumentor Cb → List Cb → W → List Cb × W
  unfolding lib_paths paths_loop
  register_instrumentation_callbacks false lp64 m callbacks w = (callbacks, w)
  register_instrumentation_callbacks true lp64 m callbacks w =
      let (paths, w') = lib_paths lp64 w in paths_loop m paths callbacks w'

  unfoldable pub configure_instrumentation :
      (debuggable lp64 : Bool) → HidlInstrumentor Cb → W → HidlInstrumentor Cb × W
  unfolding register_instrumentation_callbacks
  configure_instrumentation debuggable lp64 m w =
      let (enable, w') = o.property_get_bool (codes "hal.instrumentation.enable") false w in
      let enabled : HidlInstrumentor Cb = record m { enable_instrumentation = true } in
      let (callbacks, w'') =
        register_instrumentation_callbacks debuggable lp64 enabled m.instrumentation_callbacks w' in
      if enable
      then (if m.enable_instrumentation
          then (m, w')
          else (record enabled { instrumentation_callbacks = callbacks }, w''))
      else (if m.enable_instrumentation
          then (record m { enable_instrumentation = false; instrumentation_callbacks = [] }, w')
          else (m, w'))

  unfoldable pub make_instrumentor :
      (debuggable lp64 : Bool) → (pkg interface : Bytes) → W → HidlInstrumentor Cb × W
  unfolding configure_instrumentation
  make_instrumentor debuggable lp64 pkg interface w =
      configure_instrumentation debuggable lp64
        record {
          enable_instrumentation = false;
          instrumentation_callbacks = [];
          instrumentation_lib_package = pkg;
          interface_name = interface;
        }
        w
