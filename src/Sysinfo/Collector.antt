-- ===== src/Sysinfo/Collector.antt =====
-- The ProcessCollector of pkg/sysinfo/process.go: the processes of a container and the data of the top
-- view. `visit` is the order in which Go visits the map of processes, `now` the readings of the clock.
pub mod Collected
use c_ray.Files.{Files}
use c_ray.Float.{Float}
use c_ray.Map.{int_key}
use c_ray.Prelude.{List, Option, [], false, if◌then◌else◌, none, some, true, ℕ, ◌&&◌, ◌++◌, ◌∷◌}
use c_ray.Prelude.Int.{is_positive, pos, ℤ}
use c_ray.Result.{Result, err, ok, panic, ◌>>=◌}
use c_ray.Sysinfo.CGroup.{CGroupVersion, read_cgroup_limits}
use c_ray.Sysinfo.CGroupFile.{cgroup_path}
use c_ray.Sysinfo.Host.{host_root, resolve_host_pids}
use c_ray.Sysinfo.NetDev.{read_net_dev}
use c_ray.Sysinfo.Proc.{get_process_ppid, list_pids, pid_path, read_process}
use c_ray.Sysinfo.Sampler.{Sampler, calculate_network_rates, calculate_process_rates}
use c_ray.Sysinfo.Sampler.Rates.{rated}
use c_ray.Sysinfo.Stat.{StatError}
use c_ray.Sysinfo.Tree.{build, get_all_processes}
use c_ray.Sysinfo.Types.{CGroupLimits, NetworkStats, Process}
use c_ray.Text.Basic.{Text, codes}
use c_ray.Text.Number.{itoa}

-- fmt.Sprintf("/proc/%d/root/proc", containerPID).
abbrev pub container_root : ℕ → Text
container_root container_pid = codes "/proc/" ++ (itoa container_pid ++ codes "/root/proc")

module _ {V : Type 0} where
  -- The host parent in the fallback; a read that panics ends the program.
  abbrev pub with_host_parent : Process V → Result StatError ℤ → Result StatError (List (Process V))
  with_host_parent p panic = panic
  with_host_parent p (err e) = ok (record p { host_pid = p.pid } ∷ [])
  with_host_parent p (ok ppid) = ok (record p { host_pid = p.pid; host_ppid = ppid } ∷ [])

  -- The fallback of CollectContainerProcesses: only the main process, read from the host.
  unfoldable pub collect_main_process : V → Files → ℕ → Result StatError (List (Process V))
  collect_main_process z fs container_pid = do
    p ← read_process z fs host_root (pos container_pid)
    with_host_parent p (get_process_ppid fs host_root p.pid)

  abbrev pub collect_listed :
      (List (ℤ × Process V) → List (Process V))
      → V
      → Files
      → ℕ
      → Option (List ℤ)
      → Result StatError (List (Process V))
  collect_listed visit z fs container_pid none = collect_main_process z fs container_pid
  collect_listed visit z fs container_pid (some pids) = do
    t ← build visit z fs (container_root container_pid) pids
    resolve_host_pids fs (get_all_processes t) container_pid

  -- CollectContainerProcesses.
  unfoldable pub collect_container_processes :
      (List (ℤ × Process V) → List (Process V))
      → V
      → Files
      → ℕ
      → Result StatError (List (Process V))
  unfolding collect_main_process build resolve_host_pids get_all_processes list_pids itoa
  collect_container_processes visit z fs container_pid =
      collect_listed visit z fs container_pid (list_pids fs (container_root container_pid))

  -- collectTopProcesses; an empty list of targets, or a first target that is not positive, stands for
  -- the whole container.
  unfoldable pub collect_top_processes :
      (List (ℤ × Process V) → List (Process V))
      → V
      → Files
      → ℕ
      → List ℤ
      → Result StatError (List (Process V))
  unfolding collect_container_processes resolve_host_pids
  collect_top_processes visit z fs container_pid [] =
      collect_container_processes visit z fs container_pid
  collect_top_processes visit z fs container_pid (target ∷ targets) = elim (is_positive target) [
    | false ↦ collect_container_processes visit z fs container_pid
    | true ↦ do
      p ← read_process z fs (container_root container_pid) target
      resolve_host_pids fs (p ∷ []) container_pid
  ]

pub record ProcessTop (V : Type 0) : Type 0 where
  pub processes : List (Process V)
  pub network_io : List (NetworkStats V)
  pub timestamp : ℕ
  pub cpu_cores : V
  pub memory_limit : ℤ

-- The readings of the clock: for the record, and in the two methods of the sampler.
pub record Clock : Type 0 where
  pub unix : ℕ
  pub process_now : ℕ
  pub network_now : ℕ

module _ (f : Float) where
  -- The CPU limit in cores and the memory limit, from the cgroup.
  abbrev pub cores_of : CGroupLimits → f.Value
  cores_of limits =
      if is_positive limits.cpu_quota && is_positive limits.cpu_period
      then f.div (f.of_int limits.cpu_quota) (f.of_int limits.cpu_period)
      else f.ratio 0 1

  abbrev pub top_limits : CGroupVersion → Files → Text → f.Value × ℤ
  top_limits version fs [] = (f.ratio 0 1, pos 0)
  top_limits version fs (c ∷ cgroup_path) =
      let limits = read_cgroup_limits version fs (c ∷ cgroup_path) in
      (cores_of limits, limits.memory_limit)

  -- The rates of the interfaces, where /proc/[pid]/net/dev can be read.
  abbrev pub top_network :
      ℕ → Files → ℕ → Option Text → Sampler → Sampler × List (NetworkStats f.Value)
  top_network now fs container_pid none s = (s, [])
  top_network now fs container_pid (some content) s =
      calculate_network_rates f now
        (read_net_dev (f.ratio 0 1) fs host_root (pos container_pid) content) s

  -- What CollectProcessTop does with the processes.
  unfoldable pub fill_process_top :
      Clock
      → CGroupVersion
      → Files
      → ℕ
      → Text
      → List (Process f.Value)
      → Sampler
      → Sampler × ProcessTop f.Value
  unfolding calculate_process_rates calculate_network_rates read_cgroup_limits read_net_dev itoa
  fill_process_top clock version fs container_pid cgroup_path ps s =
      let (cores, limit) = top_limits version fs cgroup_path in
      let (s1, rated) =
        calculate_process_rates f clock.process_now (itoa container_pid) ps cores limit s in
      let (s2, io) =
        top_network clock.network_now fs container_pid
          (fs.read_file (pid_path host_root (pos container_pid) (codes "net" ∷ codes "dev" ∷ [])))
          s1 in
      (
        s2,
        record {
          processes = rated;
          network_io = io;
          timestamp = clock.unix;
          cpu_cores = cores;
          memory_limit = limit;
        },
      )

  -- CollectProcessTop; on an error the sampler is left as it is.
  unfoldable pub collect_process_top :
      (List (ℤ × Process f.Value) → List (Process f.Value))
      → Clock
      → CGroupVersion
      → Files
      → ℕ
      → Text
      → List ℤ
      → Sampler
      → Result StatError (Sampler × ProcessTop f.Value)
  unfolding collect_top_processes fill_process_top
  collect_process_top visit clock version fs container_pid cgroup_path targets s = do
    ps ← collect_top_processes visit (f.ratio 0 1) fs container_pid targets
    ok (fill_process_top clock version fs container_pid cgroup_path ps s)
