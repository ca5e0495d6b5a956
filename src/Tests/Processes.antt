-- ===== src/Tests/Processes.antt =====
-- A container with one process: the host has it as 7, the container as 1.
use c_ray.Files.{DirEntry, Files, scan_lines}
use c_ray.Map.{has_key, int_eq, int_key}
use c_ray.Prelude.{
  All, AllPairs, Any, Bool-cases, List, Option, [], ap, false, if◌then◌else◌, inl, inr, map, none,
  refl, some, sym, true, ℕ, ◌∙◌, ◌∷◌, ◌≡◌, ◌≢◌, ◌⊎◌,
}
use c_ray.Prelude.Int.{pos, ℤ}
use c_ray.Result.{Result, err, ok, panic, ◌>>=◌}
use c_ray.Sysinfo.Collector.{Clock, collect_container_processes, container_root}
use c_ray.Sysinfo.Collector.Collected.{collect_container_processes-IsAscending}
use c_ray.Sysinfo.Host.{host_root, namespace_pid, read_pid_namespace_inode, resolve_host_pids}
use c_ray.Sysinfo.Host.Namespace.{
  IsFatal, IsFilled, host_of, resolve_host_pids-IsFilled, with_hosts,
}
use c_ray.Sysinfo.Proc.{
  entry_pids, get_process_ppid, list_pids, new_process, pid_path, read_process, read_stat_fields,
}
use c_ray.Sysinfo.Proc.Frame.{read_process-fails}
use c_ray.Sysinfo.Stat.{ProcStatFields, StatError, parse_proc_stat, read_failed}
use c_ray.Sysinfo.Status.{read_nspid}
use c_ray.Sysinfo.Tree.{ProcessTree, values}
use c_ray.Sysinfo.Tree.Sorted.{IsAscending, process_at}
use c_ray.Sysinfo.Tree.Table.{value_of_read}
use c_ray.Sysinfo.Types.{Process}
use c_ray.Tests.Words.{file_in}
use c_ray.Text.Basic.{Text, codes, contains_char, text_eq}
use c_ray.Text.Fields.{fields}
use c_ray.Text.Number.{itoa, itoa_int, parse_int, parse_uint}
use c_ray.Text.Path.{join_path}
use c_ray.Text.Split.{cut}
use c_ray.Text.Trim.{is_space}

abbrev no_rate : ℕ
no_rate = 0

abbrev container_files : List (Text × Text)
container_files =
    (codes "/proc/7/root/proc/1/stat", codes "1 (sh) S 0 1 1 0 -1 4 5 6 7 8 42 43 0")
    ∷ (codes "/proc/7/stat", codes "7 (sh) S 3 1 1 0 -1 4 5 6 7 8 42 43 0")
    ∷ (codes "/proc/7/status", codes "NSpid:\t7\t1\n")
    ∷ []

abbrev directory : Text → Option (List DirEntry)
directory path =
    if text_eq path (codes "/proc")
    then some (record { name = codes "7"; is_dir = true } ∷ [])
    else if text_eq path (codes "/proc/7/root/proc")
    then some (
        record { name = codes "1"; is_dir = true }
        ∷ record { name = codes "stat"; is_dir = false }
        ∷ [])
    else none

abbrev host_files : Files
host_files = record {
  read_file = file_in container_files;
  read_link =
      λ path. if text_eq path (codes "/proc/7/ns/pid") then some (codes "pid:[4]") else none;
  read_dir = directory;
  exists = λ path. false;
}

file_in-safe :
    (files : List (Text × Text)) (path : Text)
    → All (λ (e : Text × Text). parse_proc_stat e.1 ≢ panic) files
    → (file_in files path ≡ none)
      ⊎ ((content : Text) × (file_in files path ≡ some content) × (parse_proc_stat content ≢ panic))
file_in-safe [] path h = inl refl
file_in-safe ((name, content) ∷ files) path (h, hs) = elim (Bool-cases (text_eq name path)) [
  | inl here ↦ inr (content, rw here refl, h)
  | inr there ↦ elim (file_in-safe files path hs) [
    | inl e ↦ inl (rw there e)
    | inr (c, e, safe) ↦ inr (c, rw there e, safe)
  ]
]

container_files-safe : All (λ (e : Text × Text). parse_proc_stat e.1 ≢ panic) container_files
unfolding parse_proc_stat is_space parse_int parse_uint contains_char
container_files-safe = ((λ e. cc), ((λ e. cc), ((λ e. cc), tt)))

abbrev stat_of : Option Text → Result StatError ProcStatFields
stat_of o = elim o [ none ↦ err read_failed | some content ↦ parse_proc_stat content ]

err≢panic : {x : StatError} → ◌≢◌ {A = Result StatError ProcStatFields} (err x) panic
err≢panic e = cc

read_stat_fields-safe : (root : Text) (pid : ℤ) → read_stat_fields host_files root pid ≢ panic
unfolding read_stat_fields
read_stat_fields-safe root pid =
    elim (file_in-safe container_files (pid_path root pid (codes "stat" ∷ []))
      container_files-safe) [
        | inl e ↦ λ fatal. err≢panic (sym (ap stat_of e) ∙ fatal)
        | inr (c, e, safe) ↦ λ fatal. safe (sym (ap stat_of e) ∙ fatal)
      ]

get_process_ppid-safe : (pid : ℤ) → get_process_ppid host_files host_root pid ≢ panic
unfolding get_process_ppid
get_process_ppid-safe pid =
    go (read_stat_fields host_files host_root pid) (read_stat_fields-safe host_root pid)
  where
    go :
        (r : Result StatError ProcStatFields)
        → r ≢ panic
        → (r >>= λ (st : ProcStatFields). ok st.ppid) ≢ panic
    go (ok st) h = λ e. cc
    go (err x) h = λ e. cc
    go panic h = λ e. h refl

abbrev in_container : Text
in_container = container_root 7

read_process-safe :
    All (λ pid. read_process no_rate host_files in_container pid ≢ panic) (pos 1 ∷ [])
read_process-safe = (
  λ fatal.
      read_stat_fields-safe in_container (pos 1)
        ((read_process-fails no_rate host_files in_container (pos 1)).1.0 fatal),
  tt,
)

listed : list_pids host_files (container_root 7) ≡ some (pos 1 ∷ [])
unfolding list_pids entry_pids text_eq itoa parse_int
listed = refl

abbrev in_order : List (ℤ × Process ℕ) → List (Process ℕ)
in_order = values

collect_container_processes-IsAscending_example :
    (ps : List (Process ℕ)) × (qs : List (Process ℕ)) × (collect_container_processes in_order
        no_rate host_files 7
      ≡ ok qs)
    × IsAscending qs
    × AllPairs (IsFilled host_files) (map (with_hosts host_files 7) ps) qs
    × ((pid : ℤ)
        → process_at pid ps ≡ (
            if has_key pid (pos 1 ∷ [])
            then value_of_read (read_process no_rate host_files (container_root 7) pid) none
            else none))
collect_container_processes-IsAscending_example =
    collect_container_processes-IsAscending in_order no_rate host_files 7 (pos 1 ∷ []) listed
      read_process-safe get_process_ppid-safe

found : host_of host_files 7 (pos 1) ≡ some (pos 7)
unfolding list_pids entry_pids text_eq itoa parse_int read_pid_namespace_inode namespace_pid
    read_nspid itoa_int join_path scan_lines is_space int_eq cut fields
found = refl

abbrev process : ℕ → ℕ → Process ℕ
process pid ppid = record (new_process no_rate (pos pid)) { ppid = pos ppid }

resolve_host_pids-IsFilled_example :
    ((qs : List (Process ℕ)) × (resolve_host_pids host_files (process 1 0 ∷ []) 7 ≡ ok qs)
      × AllPairs (IsFilled host_files) (map (with_hosts host_files 7) (process 1 0 ∷ [])) qs)
    ⊎ (resolve_host_pids host_files (process 1 0 ∷ []) 7 ≡ panic)
      × Any (IsFatal host_files) (map (with_hosts host_files 7) (process 1 0 ∷ []))
resolve_host_pids-IsFilled_example = resolve_host_pids-IsFilled host_files (process 1 0 ∷ []) 7

abbrev family : ProcessTree ℕ
family = record {
  processes = (pos 4, process 4 1) ∷ (pos 1, process 1 0) ∷ [];
  children = (pos 1, pos 4 ∷ []) ∷ [];
}

abbrev clock : Clock
clock = record { unix = 1; process_now = 2; network_now = 3 }
