-- ===== src/DebugDump/Clients.antt =====
-- The processes that debugDump reports for a library.
use platform_system_libhidl.DebugDump.{
  Infos, Pids, pids_of, contains_key, add_line, lines_loop, FileSystem, processes_loop,
  clients_loop, fetch_pids_for_passthrough_libraries,
}
use platform_system_libhidl.DebugDump.Lines.{
  contains, named, names_it, in_lines, contains-add_line, and_false, one_more, one_process,
  or_false, lib_file_name-cons, NoneEmpty,
}
use platform_system_libhidl.Prelude.{
  Bool-cases, Option-cases, ℤ, pos, eqb_ℤ, Run, done, Bytes, codes, refl, sym, ap, inl, inr, Bool,
  false, Option, none, some, List, [], if◌then◌else◌, ◌>>=◌, ◌≡◌, ◌∙◌, ◌&&◌, ◌||◌, ◌∷◌, ◌++◌,
}

-- The pids that are added to `m` are those that `news` tells for a library and a pid.
abbrev Adds : Infos → Pids → (Bytes → ℤ → Bool) → Pids → Type 0
Adds infos m news m' =
    (lib : Bytes) (p : ℤ)
    → contains p (pids_of lib m')
      ≡ ((contains_key lib infos && news lib p) || contains p (pids_of lib m))

lines_loop-Adds :
    (infos : Infos) (q : ℤ) (lines : List Bytes) (m : Pids)
    → NoneEmpty lines
    → (m' : Pids) × (lines_loop infos q lines m ≡ done m')
      × Adds infos m (λ lib p. in_lines lib lines && eqb_ℤ q p) m'
unfolding lines_loop
lines_loop-Adds infos q [] m h =
    (m, refl, λ lib p. sym (and_false (contains_key lib infos) (contains p (pids_of lib m))))
lines_loop-Adds infos q ([] ∷ lines) m h = absurd h
lines_loop-Adds infos q ((c ∷ cs) ∷ lines) m h =
    let (m', e, adds) = lines_loop-Adds infos q lines (add_line infos q (named (c ∷ cs)) m) h in
    (
      m',
      rw (lib_file_name-cons c cs) e,
      λ lib p.
          adds lib p
          ∙ ap (λ b. (contains_key lib infos && (in_lines lib lines && eqb_ℤ q p)) || b)
              (contains-add_line infos q (named (c ∷ cs)) m lib p)
          ∙ one_more (contains_key lib infos) (names_it lib (named (c ∷ cs))) (in_lines lib lines)
              (eqb_ℤ q p) (contains p (pids_of lib m)),
    )

-- The maps of a process that has any: they have no empty line, name a library, and are added.
abbrev pub FullMaps : Option (List Bytes) → Type 0
FullMaps none = Unit {0}
FullMaps (some lines) = NoneEmpty lines

abbrev pub in_maps : Bytes → Option (List Bytes) → Bool
in_maps lib none = false
in_maps lib (some lines) = in_lines lib lines

abbrev add_maps : Infos → ℤ → Option (List Bytes) → Pids → Run Pids
add_maps infos q none m = done m
add_maps infos q (some lines) m = lines_loop infos q lines m

add_maps-Adds :
    (infos : Infos) (q : ℤ) (maps : Option (List Bytes)) (m : Pids)
    → FullMaps maps
    → (m' : Pids) × (add_maps infos q maps m ≡ done m')
      × Adds infos m (λ lib p. in_maps lib maps && eqb_ℤ q p) m'
add_maps-Adds infos q none m h =
    (m, refl, λ lib p. sym (and_false (contains_key lib infos) (contains p (pids_of lib m))))
add_maps-Adds infos q (some lines) m h = lines_loop-Adds infos q lines m h

module _ (fs : FileSystem) where
  -- The maps of the process in an entry of /proc, if it is one and they can be read.
  abbrev pub maps_of : Bytes → Option (List Bytes)
  maps_of name =
      if eqb_ℤ (fs.strtoll name) (pos 0)
      then none
      else fs.lines (codes "/proc/" ++ name ++ codes "/maps")

  -- Whether the maps of process `p` name the library.
  abbrev pub maps_lib : List Bytes → Bytes → ℤ → Bool
  maps_lib [] lib p = false
  maps_lib (name ∷ names) lib p =
      (in_maps lib (maps_of name) && eqb_ℤ (fs.strtoll name) p) || maps_lib names lib p

  abbrev pub MapsFull : List Bytes → Type 0
  MapsFull [] = Unit {0}
  MapsFull (name ∷ names) = FullMaps (maps_of name) × MapsFull names

  processes_loop-cons :
      (infos : Infos) (name : Bytes) (names : List Bytes) (m : Pids)
      → processes_loop fs infos (name ∷ names) m
        ≡ (add_maps infos (fs.strtoll name) (maps_of name) m >>= processes_loop fs infos names)
  unfolding processes_loop
  processes_loop-cons infos name names m = elim (Bool-cases (eqb_ℤ (fs.strtoll name) (pos 0))) [
    | inl z ↦ rw z refl
    | inr z ↦ elim (Option-cases (fs.lines (codes "/proc/" ++ name ++ codes "/maps"))) [
      | inl n ↦ rw (z, n) refl
      | inr (ls, n) ↦ rw (z, n) refl
    ]
  ]

  processes_loop-Adds :
      (infos : Infos) (names : List Bytes) (m : Pids)
      → MapsFull names
      → (m' : Pids) × (processes_loop fs infos names m ≡ done m') × Adds infos m (maps_lib names) m'
  processes_loop-Adds infos [] m h =
      unfold processes_loop in
      (m, refl, λ lib p. sym (and_false (contains_key lib infos) (contains p (pids_of lib m))))
  processes_loop-Adds infos (name ∷ names) m (f, h) =
      let (m1, e1, adds1) = add_maps-Adds infos (fs.strtoll name) (maps_of name) m f in
      let (m', e, adds) = processes_loop-Adds infos names m1 h in
      (
        m',
        processes_loop-cons infos name names m
            ∙ ap (λ r. r >>= processes_loop fs infos names) e1
            ∙ e,
        λ lib p.
            adds lib p
            ∙ ap (λ b. (contains_key lib infos && maps_lib names lib p) || b) (adds1 lib p)
            ∙ one_process (contains_key lib infos) _ (maps_lib names lib p) _,
      )

  -- The map with the clients that `f` gives each library.
  abbrev pub with_clients : (Bytes → List ℤ) → Infos → Infos
  with_clients f [] = []
  with_clients f ((lib, info) ∷ rest) =
      (lib, record info { client_pids = f lib }) ∷ with_clients f rest

  clients_loop-with_clients :
      (pids : Pids) (infos : Infos)
      → clients_loop fs pids infos ≡ with_clients (λ lib. pids_of lib pids) infos
  unfolding clients_loop
  clients_loop-with_clients pids [] = refl
  clients_loop-with_clients pids ((lib, info) ∷ rest) =
      rw (clients_loop-with_clients pids rest) refl

  -- Where /proc can be listed and no line of a process's maps is empty, the pids are fetched without
  -- a fault: every library keeps its place and its other fields, and its clients are exactly the
  -- processes whose maps have a line that the filters accept and that ends in the library's name.
  pub fetch_pids_lem :
      (infos : Infos) (names : List Bytes)
      → fs.entries (codes "/proc/") ≡ some names
      → MapsFull names
      → (f : Bytes → List ℤ) × (fetch_pids_for_passthrough_libraries fs infos
          ≡ done (with_clients f infos))
        × ((lib : Bytes) (p : ℤ)
            → contains p (f lib) ≡ (contains_key lib infos && maps_lib names lib p))
  unfolding fetch_pids_for_passthrough_libraries pids_of
  fetch_pids_lem infos names l h =
      let (m, e, adds) = processes_loop-Adds infos names [] h in
      (
        (λ lib. pids_of lib m),
        rw (fetch_pids_for_passthrough_libraries, l, e)
            (ap done (clients_loop-with_clients m infos)),
        λ lib p. adds lib p ∙ or_false _,
      )
