-- ===== src/Passthrough.antt =====
-- transport/ServiceManagement.cpp: the lookup of a service in the libraries of this process.
-- The loader and the file system are parameters, and may depend on what happened before.
-- A library handle, a symbol and an instance are non-null pointers; none is the null pointer.
pub mod Handles
use platform_system_libhidl.Prelude.{
  leb, length, take, drop, Bytes, codes, eqb_bytes, ℕ, suc, Bool, true, false, not, Option, none,
  some, List, [], if◌then◌else◌, ◌+◌, ◌-◌, ◌&&◌, ◌∷◌, ◌++◌,
}

unfoldable pub starts_with : Bytes → Bytes → Bool
starts_with text prefix =
    leb (length prefix) (length text) && eqb_bytes (take (length prefix) text) prefix

unfoldable pub ends_with : Bytes → Bytes → Bool
ends_with text suffix =
    leb (length suffix) (length text) && eqb_bytes (drop (length text - length suffix) text) suffix

-- The index of the first "::".
unfoldable pub find_colons : Bytes → Option ℕ
unfolding starts_with
find_colons [] = none
find_colons (c ∷ cs) =
    let rest = find_colons cs in
    if starts_with (c ∷ cs) (codes "::")
    then some 0
    else (elim rest [ none ↦ none | some i ↦ some (suc i) ])

-- The loop of search over the names of the directory.
unfoldable pub matching : Bytes → Bytes → List Bytes → List Bytes
unfolding starts_with ends_with
matching prefix suffix [] = []
matching prefix suffix (name ∷ names) =
    let rest = matching prefix suffix names in
    if starts_with name prefix && ends_with name suffix then name ∷ rest else rest

unfoldable pub search : Option (List Bytes) → Bytes → Bytes → List Bytes
unfolding matching
search none prefix suffix = []
search (some names) prefix suffix = matching prefix suffix names

-- What the build and the environment settle: the directories HAL_LIBRARY_PATH_*, whether the
-- build is debuggable, and TREBLE_TESTING_OVERRIDE and VTS_ROOT_PATH.
pub record Build : Type 0 where
  pub odm : Bytes
  pub vendor : Bytes
  pub vndk_sp : Bytes
  pub system : Bytes
  pub debuggable : Bool
  pub treble_testing_override : Option Bytes
  pub vts_root_path : Option Bytes

unfoldable pub vts_path : Build → Option Bytes → List Bytes
vts_path b none = []
vts_path b (some []) = []
vts_path b (some (c ∷ cs)) = ((c ∷ cs) ++ b.system) ∷ []

unfoldable pub is_override : Option Bytes → Bool
is_override none = false
is_override (some env) = eqb_bytes env (codes "true")

unfoldable pub paths : Build → List Bytes
unfolding vts_path is_override
paths b =
    b.odm
    ∷ b.vendor
    ∷ b.vndk_sp
    ∷ b.system
    ∷ (if b.debuggable && is_override b.treble_testing_override
        then vts_path b b.vts_root_path
        else [])

module _ {S : Type 0} (listing : S → Bytes → Option (List Bytes))
    (load : (sphal : Bool) → Bytes → S → Option ℕ × S)
    (each_lib : ℕ → (lib symbol : Bytes) → S → Bool × S) where
  -- The inner loop of openLibs, over the libraries of one directory: whether to go on.
  unfoldable pub libs_loop : (sphal : Bool) → (path symbol : Bytes) → List Bytes → S → Bool × S
  libs_loop sphal path symbol [] s = (true, s)
  libs_loop sphal path symbol (lib ∷ libs) s =
      let (handle, s') = load sphal (path ++ lib) s in
      elim handle [
        | none ↦ libs_loop sphal path symbol libs s'
        | some h ↦
            let (continue, s'') = each_lib h lib symbol s' in
            elim continue [ true ↦ libs_loop sphal path symbol libs s'' | false ↦ (false, s'') ]
      ]

  -- The outer loop.
  unfoldable pub paths_loop : (system prefix symbol : Bytes) → List Bytes → S → S
  unfolding libs_loop
  paths_loop system prefix symbol [] s = s
  paths_loop system prefix symbol (path ∷ ps) s =
      let libs = search (listing s path) prefix (codes ".so") in
      let (continue, s') = libs_loop (not (eqb_bytes path system)) path symbol libs s in
      elim continue [ true ↦ paths_loop system prefix symbol ps s' | false ↦ s' ]

  unfoldable pub open_libs : Build → Bytes → S → S
  unfolding paths_loop
  open_libs b fq_name s = elim (find_colons fq_name) [
    | none ↦ s
    | some idx ↦
        if leb (length fq_name) (idx + 2 + 1)
        then s
        else paths_loop b.system (take idx fq_name ++ codes "-impl")
            (codes "HIDL_FETCH_" ++ drop (idx + 2) fq_name) (paths b) s
  ]

pub data Event : Type 0 where
  not_loaded : Bytes → Event
  loaded closed : ℕ → Event
  generated : ℕ → Bytes → Event
  referenced : Bytes → Bytes → Event

-- The variable `ret` of get, and what happened, the latest event first.
pub record Lookup : Type 0 where
  pub ret : Option ℕ
  pub events : List Event

module _ (listing : List Event → Bytes → Option (List Bytes))
    (dlopen : List Event → (sphal : Bool) → Bytes → Option ℕ)
    (dlsym : List Event → ℕ → Bytes → Option ℕ) (generate : List Event → ℕ → Bytes → Option ℕ)
    (has_manager : List Event → Bool) where
  unfoldable pub load_lib : (sphal : Bool) → Bytes → Lookup → Option ℕ × Lookup
  load_lib sphal path s = elim (dlopen s.events sphal path) [
    | none ↦ (none, record s { events = not_loaded path ∷ s.events })
    | some h ↦ (some h, record s { events = loaded h ∷ s.events })
  ]

  unfoldable pub register_reference : Bytes → Bytes → List Event → List Event
  register_reference fq_name name t = if has_manager t then referenced fq_name name ∷ t else t

  -- The function that get passes to openLibs.
  unfoldable pub try_lib :
      (fq_name name : Bytes) → ℕ → (lib symbol : Bytes) → Lookup → Bool × Lookup
  unfolding register_reference
  try_lib fq_name name handle lib symbol s = elim (dlsym s.events handle symbol) [
    | none ↦ (true, record s { events = closed handle ∷ s.events })
    | some generator ↦
        let ret = generate s.events generator name in
        let t = generated generator name ∷ s.events in
        elim ret [
          | none ↦ (true, record { ret = none; events = closed handle ∷ t })
          | some p ↦ (false, record { ret = some p; events = register_reference fq_name name t })
        ]
  ]

  unfoldable pub get : Build → (fq_name name : Bytes) → List Event → Lookup
  unfolding load_lib try_lib open_libs
  get b fq_name name t =
      open_libs (λ s. listing s.events) load_lib (try_lib fq_name name) b fq_name
        (record { ret = none; events = t })
