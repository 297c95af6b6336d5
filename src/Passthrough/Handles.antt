-- ===== src/Passthrough/Handles.antt =====
-- The libraries that a lookup leaves open.
use platform_system_libhidl.Passthrough.{
  Build, libs_loop, paths_loop, open_libs, Event, not_loaded, loaded, closed, generated, referenced,
  Lookup, load_lib, register_reference, try_lib, get, search, paths, find_colons,
}
use platform_system_libhidl.Prelude.{
  leb, Bool-cases, Option-cases, is_some, length, take, drop, Bytes, codes, eqb_bytes, ℕ, suc, refl,
  inl, inr, Bool, true, false, not, Option, none, some, List, [], arith, ◌==◌, if◌then◌else◌, ◌+◌,
  ◌≡◌, ◌⊎◌, ◌∷◌, ◌++◌,
}

module _ {S : Type 0} (listing : S → Bytes → Option (List Bytes))
    (load : (sphal : Bool) → Bytes → S → Option ℕ × S)
    (each_lib : ℕ → (lib symbol : Bytes) → S → Bool × S) (Keeps : Bool → S → Type 0)
    (not_loaded_keeps : (sphal : Bool) (path : Bytes) (s : S)
      → Keeps true s
      → (load sphal path s).0 ≡ none
      → Keeps true (load sphal path s).1)
    (loaded_keeps : (sphal : Bool) (path lib symbol : Bytes) (s : S) (h : ℕ)
      → Keeps true s
      → (load sphal path s).0 ≡ some h
      → Keeps
          (each_lib h lib symbol (load sphal path s).1).0
          (each_lib h lib symbol (load sphal path s).1).1) where
  libs_loop-keeps :
      (sphal : Bool) (path symbol : Bytes) (libs : List Bytes) (s : S)
      → Keeps true s
      → Keeps
          (libs_loop listing load each_lib sphal path symbol libs s).0
          (libs_loop listing load each_lib sphal path symbol libs s).1
  unfolding libs_loop
  libs_loop-keeps sphal path symbol [] s k = k
  libs_loop-keeps sphal path symbol (lib ∷ libs) s k =
      elim (Option-cases (load sphal (path ++ lib) s).0) [
        | inl e ↦
            rw (e, libs_loop)
              (libs_loop-keeps sphal path symbol libs (load sphal (path ++ lib) s).1
                (not_loaded_keeps sphal (path ++ lib) s k e))
        | inr (h, e) ↦
            let k' = loaded_keeps sphal (path ++ lib) lib symbol s h k e in
            elim (Bool-cases (each_lib h lib symbol (load sphal (path ++ lib) s).1).0) [
              | inl c ↦
                  rw (e, libs_loop, c)
                    (libs_loop-keeps sphal path symbol libs
                      (each_lib h lib symbol (load sphal (path ++ lib) s).1).1 (rw c at k'))
              | inr c ↦ rw (e, libs_loop, c) (rw c at k')
            ]
      ]

  paths_loop-keeps :
      (system prefix symbol : Bytes) (ps : List Bytes) (s : S)
      → Keeps true s
      → Keeps true (paths_loop listing load each_lib system prefix symbol ps s)
        ⊎ Keeps false (paths_loop listing load each_lib system prefix symbol ps s)
  unfolding paths_loop
  paths_loop-keeps system prefix symbol [] s k = inl k
  paths_loop-keeps system prefix symbol (path ∷ ps) s k =
      let libs = search (listing s path) prefix (codes ".so") in
      let sphal = not (eqb_bytes path system) in
      let k' = libs_loop-keeps sphal path symbol libs s k in
      elim (Bool-cases (libs_loop listing load each_lib sphal path symbol libs s).0) [
        | inl c ↦
            rw (c, paths_loop)
              (paths_loop-keeps system prefix symbol ps
                (libs_loop listing load each_lib sphal path symbol libs s).1 (rw c at k'))
        | inr c ↦ rw (c, paths_loop) (inr (rw c at k'))
      ]

  open_libs-keeps :
      (b : Build) (fq_name : Bytes) (s : S)
      → Keeps true s
      → Keeps true (open_libs listing load each_lib b fq_name s)
        ⊎ Keeps false (open_libs listing load each_lib b fq_name s)
  unfolding open_libs
  open_libs-keeps b fq_name s k = elim (Option-cases (find_colons fq_name)) [
    | inl e ↦ rw (e, open_libs) (inl k)
    | inr (idx, e) ↦ elim (Bool-cases (leb (length fq_name) (idx + 2 + 1))) [
      | inl c ↦ rw (e, open_libs, c) (inl k)
      | inr c ↦
          rw (e, open_libs, c)
            (paths_loop-keeps b.system (take idx fq_name ++ codes "-impl")
              (codes "HIDL_FETCH_" ++ drop (idx + 2) fq_name) (paths b) s k)
    ]
  ]

abbrev pub loads : ℕ → List Event → ℕ
loads h [] = 0
loads h (loaded h' ∷ t) = if h' == h then suc (loads h t) else loads h t
loads h (not_loaded _ ∷ t) = loads h t
loads h (closed _ ∷ t) = loads h t
loads h (generated _ _ ∷ t) = loads h t
loads h (referenced _ _ ∷ t) = loads h t

abbrev pub closes : ℕ → List Event → ℕ
closes h [] = 0
closes h (loaded _ ∷ t) = closes h t
closes h (not_loaded _ ∷ t) = closes h t
closes h (closed h' ∷ t) = if h' == h then suc (closes h t) else closes h t
closes h (generated _ _ ∷ t) = closes h t
closes h (referenced _ _ ∷ t) = closes h t

-- Of each library the loads and closes since `before` balance, but for the one that is kept.
abbrev pub Balances : List Event → Option ℕ → List Event → Type 0
Balances before kept after =
    (h : ℕ)
    → loads h after + closes h before
      ≡ closes h after
        + loads h before
        + (elim kept [ none ↦ 0 | some h' ↦ if h' == h then 1 else 0 ])

-- What holds of the lookup: nothing is found and kept yet, or both.
GetKeeps : List Event → Bool → Lookup → Type 0
GetKeeps before true s = (s.ret ≡ none) × Balances before none s.events
GetKeeps before false s = (is_some s.ret ≡ true) × ((h : ℕ) × Balances before (some h) s.events)

module _ (listing : List Event → Bytes → Option (List Bytes))
    (dlopen : List Event → (sphal : Bool) → Bytes → Option ℕ)
    (dlsym : List Event → ℕ → Bytes → Option ℕ) (generate : List Event → ℕ → Bytes → Option ℕ)
    (has_manager : List Event → Bool) where
  try_lib-keeps :
      (before : List Event) (fq_name name : Bytes) (h : ℕ) (lib symbol : Bytes) (s : Lookup)
      → s.ret ≡ none
      → Balances before (some h) s.events
      → GetKeeps before
          (try_lib listing dlopen dlsym generate has_manager fq_name name h lib symbol s).0
          (try_lib listing dlopen dlsym generate has_manager fq_name name h lib symbol s).1
  unfolding try_lib register_reference GetKeeps
  try_lib-keeps before fq_name name h lib symbol s r k =
      elim (Option-cases (dlsym s.events h symbol)) [
        | inl e ↦ rw (e, try_lib) (r, λ x. let b = k x in ground arith)
        | inr (g, e) ↦ elim (Option-cases (generate s.events g name)) [
          | inl e' ↦ rw (e, try_lib, e') (refl, λ x. let b = k x in ground arith)
          | inr (p, e') ↦ elim (Bool-cases (has_manager (generated g name ∷ s.events))) [
            | inl m ↦ rw (e, try_lib, e', m) (refl, (h, λ x. k x))
            | inr m ↦ rw (e, try_lib, e', m) (refl, (h, λ x. k x))
          ]
        ]
      ]

  load_lib-keeps :
      (before : List Event) (sphal : Bool) (path : Bytes) (s : Lookup)
      → GetKeeps before true s
      → (load_lib listing dlopen dlsym generate has_manager sphal path s).0 ≡ none
      → GetKeeps before true (load_lib listing dlopen dlsym generate has_manager sphal path s).1
  unfolding load_lib GetKeeps
  load_lib-keeps before sphal path s k n = elim (Option-cases (dlopen s.events sphal path)) [
    | inl e ↦ rw (e, load_lib) (k.0, λ x. let b = k.1 x in ground arith)
    | inr (p, e) ↦ let c = rw (e, load_lib) at n in cc
  ]

  loaded_lib-keeps :
      (before : List Event) (fq_name name : Bytes) (sphal : Bool) (path lib symbol : Bytes)
      (s : Lookup) (h : ℕ)
      → GetKeeps before true s
      → (load_lib listing dlopen dlsym generate has_manager sphal path s).0 ≡ some h
      → GetKeeps before
          (try_lib listing dlopen dlsym generate has_manager fq_name name h lib symbol
            (load_lib listing dlopen dlsym generate has_manager sphal path s).1).0
          (try_lib listing dlopen dlsym generate has_manager fq_name name h lib symbol
            (load_lib listing dlopen dlsym generate has_manager sphal path s).1).1
  unfolding load_lib GetKeeps
  loaded_lib-keeps before fq_name name sphal path lib symbol s h k n =
      elim (Option-cases (dlopen s.events sphal path)) [
        | inl e ↦ let c = rw (e, load_lib) at n in cc
        | inr (p, e) ↦
            let same = rw (e, load_lib) at n in
            rw (e, load_lib)
              (try_lib-keeps before fq_name name h lib symbol
                (record s { events = loaded p ∷ s.events }) k.0
                (λ x. let b = k.1 x in ground arith))
      ]

  -- A lookup of a service in the libraries closes every library that it loads, as often as it
  -- loads it, but one library where it returns an instance; it returns none where it keeps none.
  pub get-Balances :
      (b : Build) (fq_name name : Bytes) (before : List Event)
      → ((get listing dlopen dlsym generate has_manager b fq_name name before).ret ≡ none
          × Balances before none
              (get listing dlopen dlsym generate has_manager b fq_name name before).events)
        ⊎ ((is_some (get listing dlopen dlsym generate has_manager b fq_name name before).ret
              ≡ true)
            × ((h : ℕ) × Balances before
                  (some h)
                  (get listing dlopen dlsym generate has_manager b fq_name name before).events))
  unfolding get GetKeeps
  get-Balances b fq_name name before =
      open_libs-keeps (λ s. listing s.events) (load_lib listing dlopen dlsym generate has_manager)
        (try_lib listing dlopen dlsym generate has_manager fq_name name) (GetKeeps before)
        (load_lib-keeps before) (loaded_lib-keeps before fq_name name) b fq_name
        (record { ret = none; events = before }) (refl, λ x. ground arith)
