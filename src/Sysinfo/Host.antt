-- ===== src/Sysinfo/Host.antt =====
-- The host PIDs of pkg/sysinfo/process.go: the map from the PIDs of a container's namespace to those
-- of the host, and what it gives the processes of the container. A process is changed in place by the
-- source; here each function returns the changed processes. A read that panics ends the program, so
-- the functions return a Result, which has no other error but those that they pass on.
pub mod Namespace
use c_ray.Files.{Files, scan_lines}
use c_ray.Map.{insert, int_eq, int_key, lookup}
use c_ray.Prelude.{Bool, List, Option, [], if◌then◌else◌, map, none, some, ℕ, ◌&&◌, ◌∷◌}
use c_ray.Prelude.Int.{is_positive, pos, ℤ}
use c_ray.Result.{Result, err, ok, panic, ◌>>=◌}
use c_ray.Sysinfo.CGroup.{set_or}
use c_ray.Sysinfo.Proc.{get_process_ppid, list_pids, pid_path}
use c_ray.Sysinfo.Stat.{StatError}
use c_ray.Sysinfo.Status.{StatusError, read_nspid}
use c_ray.Sysinfo.Types.{Process}
use c_ray.Text.Basic.{Text, codes, text_eq}

abbrev pub host_root : Text
host_root = codes "/proc"

-- ReadPIDNamespaceInode.
unfoldable pub read_pid_namespace_inode : Files → Text → ℤ → Option Text
read_pid_namespace_inode fs root pid =
    fs.read_link (pid_path root pid (codes "ns" ∷ codes "pid" ∷ []))

-- nsPIDs[len(nsPIDs)-1], where there is one.
unfoldable pub innermost : List ℤ → Option ℤ
innermost [] = none
innermost (n ∷ []) = some n
innermost (m ∷ n ∷ ns) = innermost (n ∷ ns)

-- The innermost PID of ReadNSpid; none is an error or no number.
abbrev pub innermost_of : Result StatusError (List ℤ) → Option ℤ
innermost_of (ok ns) = innermost ns
innermost_of (err e) = none
innermost_of panic = none

abbrev pub read_innermost : Files → Text → ℤ → Option ℤ
read_innermost fs root pid = elim (fs.read_file (pid_path root pid (codes "status" ∷ []))) [
  | none ↦ none
  | some content ↦ innermost_of (read_nspid (scan_lines content))
]

-- The PID that a process of the host has in the namespace, if it lives there.
unfoldable pub namespace_pid : Files → Text → ℤ → Option ℤ
unfolding read_pid_namespace_inode innermost read_nspid
namespace_pid fs container_ns host_pid = elim (read_pid_namespace_inode fs host_root host_pid) [
  | none ↦ none
  | some inode ↦ if text_eq inode container_ns then read_innermost fs host_root host_pid else none
]

-- The loop over the PIDs of the host.
unfoldable pub ns_pid_loop : Files → Text → List (ℤ × ℤ) → List ℤ → List (ℤ × ℤ)
unfolding namespace_pid insert
ns_pid_loop fs container_ns m [] = m
ns_pid_loop fs container_ns m (h ∷ hs) =
    ns_pid_loop fs container_ns
      (elim (namespace_pid fs container_ns h) [ none ↦ m | some ns_pid ↦ insert ns_pid h m ]) hs

abbrev pub ns_pid_map : Files → Option Text → Option (List ℤ) → Option (List (ℤ × ℤ))
ns_pid_map fs none hosts = none
ns_pid_map fs (some container_ns) none = none
ns_pid_map fs (some container_ns) (some hosts) = some (ns_pid_loop fs container_ns [] hosts)

-- buildNsPIDToHostPIDMap; nil is none.
unfoldable pub build_ns_pid_to_host_pid_map : Files → ℕ → Option (List (ℤ × ℤ))
unfolding ns_pid_loop read_pid_namespace_inode list_pids
build_ns_pid_to_host_pid_map fs container_pid =
    ns_pid_map fs (read_pid_namespace_inode fs host_root (pos container_pid))
      (list_pids fs host_root)

module _ {V : Type 0} where
  -- The body of the loop of applyHostPIDs.
  unfoldable pub apply_host_pid : List (ℤ × ℤ) → Process V → Process V
  unfolding lookup
  apply_host_pid m p = record p {
    host_pid = set_or p.host_pid (lookup p.pid m);
    host_ppid = set_or p.host_ppid (lookup p.ppid m);
  }

  -- applyHostPIDs.
  unfoldable pub apply_host_pids : List (Process V) → Option (List (ℤ × ℤ)) → List (Process V)
  unfolding apply_host_pid
  apply_host_pids procs none = procs
  apply_host_pids procs (some m) = map (apply_host_pid m) procs

  -- `err == nil && ppid > 0`, with what GetProcessPPID returned.
  abbrev pub fill_host_ppid : Result StatError ℤ → Process V → Result StatError (Process V)
  fill_host_ppid panic p = panic
  fill_host_ppid (err e) p = ok p
  fill_host_ppid (ok ppid) p = ok (if is_positive ppid then record p { host_ppid = ppid } else p)

  abbrev pub is_gap : Process V → Bool
  is_gap p = is_positive p.host_pid && int_eq p.host_ppid (pos 0)

  -- The body of the second loop of resolveHostPIDs.
  unfoldable pub resolve_gap : Files → Process V → Result StatError (Process V)
  resolve_gap fs p =
      if is_gap p then fill_host_ppid (get_process_ppid fs host_root p.host_pid) p else ok p

  unfoldable pub resolve_gaps : Files → List (Process V) → Result StatError (List (Process V))
  unfolding resolve_gap
  resolve_gaps fs [] = ok []
  resolve_gaps fs (p ∷ ps) = do q ← resolve_gap fs p; qs ← resolve_gaps fs ps; ok (q ∷ qs)

  -- resolveHostPIDs.
  unfoldable pub resolve_host_pids :
      Files → List (Process V) → ℕ → Result StatError (List (Process V))
  unfolding resolve_gaps apply_host_pids build_ns_pid_to_host_pid_map
  resolve_host_pids fs procs container_pid =
      resolve_gaps fs (apply_host_pids procs (build_ns_pid_to_host_pid_map fs container_pid))
