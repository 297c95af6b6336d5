-- ===== src/DebugDump.antt =====
-- transport/ServiceManagement.cpp: debugDump of the passthrough service manager, which lists the
-- implementation libraries and the processes that map them. Regular expressions, strtoll and the
-- file system are parameters; the libraries and maps do not change meanwhile.
pub mod Clients
pub mod Lines
use platform_system_libhidl.Passthrough.{search}
use platform_system_libhidl.Services.{last_index}
use platform_system_libhidl.Strings.Compare.{lt, compare_strings}
use platform_system_libhidl.Prelude.{
  is_some, drop, ℤ, pos, ltb_ℤ, eqb_ℤ, Run, done, fault, Bytes, codes, eqb_bytes, ℕ, Bool, true,
  false, not, Option, none, some, List, [], ◌==◌, if◌then◌else◌, ◌>>=◌, ◌+◌, ◌*◌, ◌∷◌, ◌++◌, ◌>>◌,
}

pub data Architecture : Type 0 where
  is_64bit is_32bit : Architecture

-- `pid` is what the initializer leaves out.
pub record InstanceDebugInfo : Type 0 where
  pub interface_name : Bytes
  pub instance_name : Bytes
  pub pid : ℤ
  pub client_pids : List ℤ
  pub arch : Architecture

-- A std::map with the names of files as keys, in their order.
abbrev pub Infos : Type 0
Infos = List (Bytes × InstanceDebugInfo)

-- map.emplace(key, info): an entry that is there stays.
unfoldable pub emplace : Bytes → InstanceDebugInfo → Infos → Infos
emplace key info [] = (key, info) ∷ []
emplace key info ((k, i) ∷ rest) =
    let inserted = emplace key info rest in
    if eqb_bytes k key
    then (k, i) ∷ rest
    else if compare_strings lt key k
    then (key, info) ∷ (k, i) ∷ rest
    else (k, i) ∷ inserted

-- pids[lib].insert(pid) for one library: a std::set of pids.
unfoldable pub insert_pid : ℤ → List ℤ → List ℤ
insert_pid pid [] = pid ∷ []
insert_pid pid (p ∷ ps) =
    let inserted = insert_pid pid ps in
    if eqb_ℤ p pid then p ∷ ps else if ltb_ℤ pid p then pid ∷ p ∷ ps else p ∷ inserted

-- line.back(), which an empty line does not have.
unfoldable pub back : Bytes → Option ℕ
back [] = none
back (c ∷ cs) = let last = back cs in elim cs [ [] ↦ some c | _ ↦ last ]

-- The library of a line of /proc/PID/maps, where the filters find one.
unfoldable pub lib_file_name : Bytes → Run (Option Bytes)
unfolding back last_index
lib_file_name line = elim (back line) [
  | none ↦ fault
  | some c ↦
      if not (c == 111)
      then done none
      else if not (is_some (last_index 64 line))
      then done none
      else done (elim (last_index 32 line) [ none ↦ none | some i ↦ some (drop (i + 1) line) ])
]

-- std::map<std::string, std::set<pid_t>>, and its element at a name, which is empty where there is
-- none.
abbrev pub Pids : Type 0
Pids = List (Bytes × List ℤ)

unfoldable pub pids_of : Bytes → Pids → List ℤ
pids_of name [] = []
pids_of name ((k, set_of_pids) ∷ rest) =
    let later = pids_of name rest in if eqb_bytes k name then set_of_pids else later

-- pids[name].insert(pid)
unfoldable pub insert : Bytes → ℤ → Pids → Pids
unfolding insert_pid
insert name pid [] = (name, insert_pid pid []) ∷ []
insert name pid ((k, set_of_pids) ∷ rest) =
    let inserted = insert name pid rest in
    if eqb_bytes k name then (k, insert_pid pid set_of_pids) ∷ rest else (k, set_of_pids) ∷ inserted

-- infos->find(name) != infos->end()
unfoldable pub contains_key : Bytes → Infos → Bool
contains_key name [] = false
contains_key name ((k, info) ∷ rest) =
    let later = contains_key name rest in if eqb_bytes k name then true else later

unfoldable pub add_line : Infos → ℤ → Option Bytes → Pids → Pids
unfolding insert contains_key
add_line infos pid none pids = pids
add_line infos pid (some name) pids = if contains_key name infos then insert name pid pids else pids

-- for (std::string line; std::getline(ifs, line);)
unfoldable pub lines_loop : Infos → ℤ → List Bytes → Pids → Run Pids
unfolding lib_file_name add_line
lines_loop infos pid [] pids = done pids
lines_loop infos pid (line ∷ lines) pids = do
  name ← lib_file_name line
  lines_loop infos pid lines (add_line infos pid name pids)

-- What the system is asked: the entries of directories, the lines of a file if it opens, strtoll
-- narrowed to pid_t, and the two groups of gLibraryFileNamePattern where a name matches it.
pub record FileSystem : Type 0 where
  pub entries : Bytes → Option (List Bytes)
  pub lines : Bytes → Option (List Bytes)
  pub strtoll : Bytes → ℤ
  pub regex_match : Bytes → Option (Bytes × Bytes)

module _ (fs : FileSystem) where
  -- while ((dp = readdir(dir.get())) != nullptr)
  unfoldable pub processes_loop : Infos → List Bytes → Pids → Run Pids
  unfolding lines_loop
  processes_loop infos [] pids = done pids
  processes_loop infos (name ∷ names) pids =
      if eqb_ℤ (fs.strtoll name) (pos 0)
      then processes_loop infos names pids
      else (elim (fs.lines (codes "/proc/" ++ name ++ codes "/maps")) [
        | none ↦ processes_loop infos names pids
        | some ls ↦ (do
          pids' ← lines_loop infos (fs.strtoll name) ls pids
          processes_loop infos names pids')
      ])

  -- for (auto& pair : *infos)
  unfoldable pub clients_loop : Pids → Infos → Infos
  unfolding pids_of
  clients_loop pids [] = []
  clients_loop pids ((lib, info) ∷ rest) =
      (lib, record info { client_pids = pids_of lib pids }) ∷ clients_loop pids rest

  unfoldable pub fetch_pids_for_passthrough_libraries : Infos → Run Infos
  unfolding processes_loop clients_loop
  fetch_pids_for_passthrough_libraries infos = elim (fs.entries (codes "/proc/")) [
    | none ↦ done infos
    | some names ↦ (processes_loop infos names [] >>= λ pids. done (clients_loop pids infos))
  ]

  -- The name and the implementation's name.
  unfoldable pub match_package_name : Bytes → Option (Bytes × Bytes)
  match_package_name lib = elim (fs.regex_match lib) [
    | none ↦ none
    | some (path, impl) ↦ some (path ++ codes "::I*", impl)
  ]

  unfoldable pub instance_info : Architecture → Bytes → Bytes × Bytes → InstanceDebugInfo
  instance_info arch path (matched_name, impl_name) = record {
    interface_name = matched_name;
    instance_name =
        codes "* ("
        ++ path
        ++ codes ")"
        ++ elim impl_name [ [] ↦ [] | c ∷ cs ↦ codes " (" ++ (c ∷ cs) ++ codes ")" ];
    pid = pos 0;
    client_pids = [];
    arch = arch;
  }

  -- for (const std::string &lib : libs)
  unfoldable pub dump_libs : Architecture → Bytes → List Bytes → Infos → Infos
  unfolding match_package_name instance_info emplace
  dump_libs arch path [] infos = infos
  dump_libs arch path (lib ∷ libs) infos = dump_libs arch path libs (elim (match_package_name lib) [
    | none ↦ infos
    | some matched ↦ emplace (path ++ lib) (instance_info arch path matched) infos
  ])

  -- for (const auto &path : pair.second)
  unfoldable pub dump_paths : Architecture → List Bytes → Infos → Infos
  unfolding dump_libs
  dump_paths arch [] infos = infos
  dump_paths arch (path ∷ paths) infos =
      dump_paths arch paths (dump_libs arch path (search (fs.entries path) [] (codes ".so")) infos)

  unfoldable pub values : Infos → List InstanceDebugInfo
  values [] = []
  values ((k, info) ∷ rest) = info ∷ values rest

  -- `paths_64bit` and `paths_32bit` are the directories of sAllPaths. The result is what the
  -- callback is given.
  unfoldable pub debug_dump : (paths_64bit paths_32bit : List Bytes) → Run (List InstanceDebugInfo)
  unfolding dump_paths fetch_pids_for_passthrough_libraries values
  debug_dump paths_64bit paths_32bit = do
    infos ←
        fetch_pids_for_passthrough_libraries
          (dump_paths is_32bit paths_32bit (dump_paths is_64bit paths_64bit []))
    done (values infos)
