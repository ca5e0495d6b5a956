-- ===== src/Runtime/Conmon.antt =====
-- ParseConmonCmdline of pkg/runtime/stdio.go.
pub mod Arguments
use c_ray.Files.{DirEntry, Files}
use c_ray.Prelude.{Bool, List, Option, [], false, if◌then◌else◌, none, not, some, true, ◌||◌, ◌∷◌}
use c_ray.Text.Basic.{Text, codes, contains, has_prefix, is_empty, text_eq, trim_prefix}
use c_ray.Text.Fields.{fields}
use c_ray.Text.Letters.{to_lower}
use c_ray.Text.Path.{dir, join_path}

pub record ConmonFields : Type 0 where
  pub log_path : Text
  pub attach_socket : Text
  pub terminal : Option Bool

-- The fields, and `found`.
pub record ConmonState : Type 0 where
  pub fields : ConmonFields
  pub found : Bool

abbrev pub set_log_path : Text → ConmonState → ConmonState
set_log_path v s = record { fields = record (s.fields) { log_path = v }; found = true }

abbrev pub set_attach_socket : Text → ConmonState → ConmonState
set_attach_socket v s = record { fields = record (s.fields) { attach_socket = v }; found = true }

abbrev pub set_terminal : ConmonState → ConmonState
set_terminal s = record { fields = record (s.fields) { terminal = some true }; found = true }

abbrev pub is_log_option : Text → Bool
is_log_option arg = text_eq arg (codes "-l") || text_eq arg (codes "--log-path")

abbrev pub is_attach_option : Text → Bool
is_attach_option arg = text_eq arg (codes "--attach-socket-path")

abbrev pub is_terminal_option : Text → Bool
is_terminal_option arg = text_eq arg (codes "-t") || text_eq arg (codes "--terminal")

-- The cases of the switch that read this argument alone.
unfoldable pub conmon_flag : Text → ConmonState → ConmonState
conmon_flag arg s =
    if has_prefix (codes "--log-path=") arg
    then set_log_path (trim_prefix (codes "--log-path=") arg) s
    else if has_prefix (codes "--attach-socket-path=") arg
    then set_attach_socket (trim_prefix (codes "--attach-socket-path=") arg) s
    else if is_terminal_option arg
    then set_terminal s
    else s

-- The loop. An option with a value takes the next argument; the last argument has none behind it.
-- The two exact options are tested first: neither has a prefix of the other cases.
unfoldable pub conmon_loop : List Text → ConmonState → ConmonState
conmon_loop [] s = s
conmon_loop (arg ∷ []) s = conmon_flag arg s
conmon_loop (arg ∷ next ∷ rest) s = elim (is_log_option arg) [
  | true ↦ conmon_loop rest (set_log_path next s)
  | false ↦ elim (is_attach_option arg) [
    | true ↦ conmon_loop rest (set_attach_socket next s)
    | false ↦ conmon_loop (next ∷ rest) (conmon_flag arg s)
  ]
]

abbrev pub no_conmon : ConmonState
no_conmon = record {
  fields = record { log_path = []; attach_socket = []; terminal = none };
  found = false;
}

abbrev pub found_fields : ConmonState → Option ConmonFields
found_fields s = if s.found then some s.fields else none

-- ParseConmonCmdline; nil is none.
unfoldable pub parse_conmon_cmdline : List Text → Option ConmonFields
unfolding conmon_loop conmon_flag
parse_conmon_cmdline cmdline = found_fields (conmon_loop cmdline no_conmon)

-- stdioRelatedSuffixes and isStdioRelatedFile.
abbrev pub stdio_related_suffixes : List Text
stdio_related_suffixes =
    codes "attach"
    ∷ codes "ctl"
    ∷ codes "control"
    ∷ codes "winsz"
    ∷ codes "resize"
    ∷ codes "log"
    ∷ codes "pidfile"
    ∷ codes "pid"
    ∷ codes "exit"
    ∷ codes "sock"
    ∷ []

unfoldable pub contains_any : List Text → Text → Bool
contains_any [] lower = false
contains_any (suffix ∷ suffixes) lower = contains suffix lower || contains_any suffixes lower

unfoldable pub is_stdio_related_file : Text → Bool
unfolding contains_any
is_stdio_related_file name = contains_any stdio_related_suffixes (to_lower name)

-- The loop of ScanUserdataDir.
unfoldable pub userdata_paths : Text → List DirEntry → List Text
userdata_paths dir [] = []
userdata_paths dir (e ∷ es) =
    elim (e.is_dir || text_eq e.name (codes "config.json") || not (is_stdio_related_file e.name)) [
      | true ↦ userdata_paths dir es
      | false ↦ join_path (dir ∷ e.name ∷ []) ∷ userdata_paths dir es
    ]

abbrev pub paths_of_entries : Text → Option (List DirEntry) → List Text
paths_of_entries dir none = []
paths_of_entries dir (some es) = userdata_paths dir es

-- ScanUserdataDir.
unfoldable pub scan_userdata_dir : Files → Text → List Text
unfolding userdata_paths
scan_userdata_dir fs dir = if is_empty dir then [] else paths_of_entries dir (fs.read_dir dir)

-- FindUserdataFile.
unfoldable pub find_userdata_file : Files → Text → Text → Text
find_userdata_file fs dir filename =
    if is_empty dir
    then []
    else if fs.exists (join_path (dir ∷ filename ∷ []))
    then join_path (dir ∷ filename ∷ [])
    else []
