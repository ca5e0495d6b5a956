-- ===== src/Sysinfo/Tree.antt =====
-- The ProcessTree of pkg/sysinfo/process.go. The map of processes is an association list. The Children
-- of a process are the list of their PIDs under the parent's PID; Go visits a map in any order, so
-- that order is a parameter. Slices are sorted by PIDs that differ, so every sort gives one result.
pub mod Sorted
pub mod Table
pub mod Children
use c_ray.Files.{Files}
use c_ray.Map.{insert, int_key, lookup}
use c_ray.Prelude.{Bool, List, Option, [], false, map, none, select, some, true, ◌++◌, ◌∷◌}
use c_ray.Prelude.Int.{int_ltb, ℤ}
use c_ray.Result.{Result, err, ok, panic, ◌>>=◌}
use c_ray.Sysinfo.Proc.{read_process}
use c_ray.Sysinfo.Stat.{StatError}
use c_ray.Sysinfo.Types.{Process}
use c_ray.Text.Basic.{Text}

-- The processes and the Children of each.
pub record ProcessTree (V : Type 0) : Type 0 where
  pub processes : List (ℤ × Process V)
  pub children : List (ℤ × List ℤ)

abbrev pub children_of : ℤ → List (ℤ × List ℤ) → List ℤ
children_of pid cs = elim (lookup pid cs) [ none ↦ [] | some pids ↦ pids ]

module _ {V : Type 0} where
  -- The first loop of Build: processes that cannot be read are skipped.
  unfoldable pub read_loop :
      V → Files → Text → List (ℤ × Process V) → List ℤ → Result StatError (List (ℤ × Process V))
  unfolding insert
  read_loop z fs root m [] = ok m
  read_loop z fs root m (pid ∷ pids) = elim (read_process z fs root pid) [
    | panic ↦ panic
    | err e ↦ read_loop z fs root m pids
    | ok p ↦ read_loop z fs root (insert pid p m) pids
  ]

  -- The second loop of Build, over the processes in the order in which the map is visited.
  unfoldable pub link_loop :
      List (ℤ × Process V) → List (Process V) → List (ℤ × List ℤ) → List (ℤ × List ℤ)
  unfolding lookup insert
  link_loop m [] cs = cs
  link_loop m (p ∷ ps) cs = link_loop m ps (elim (lookup p.ppid m) [
    | none ↦ cs
    | some parent ↦ insert p.ppid (children_of p.ppid cs ++ p.pid ∷ []) cs
  ])

  abbrev pub values : List (ℤ × Process V) → List (Process V)
  values m = map (λ (e : ℤ × Process V). e.1) m

  abbrev pub linked :
      (List (ℤ × Process V) → List (Process V)) → List (ℤ × Process V) → ProcessTree V
  linked visit m = record { processes = m; children = link_loop m (visit m) [] }

  -- Build, on a new tree.
  unfoldable pub build :
      (List (ℤ × Process V) → List (Process V))
      → V
      → Files
      → Text
      → List ℤ
      → Result StatError (ProcessTree V)
  unfolding read_loop link_loop
  build visit z fs root pids = do m ← read_loop z fs root [] pids; ok (linked visit m)

  -- The loop of BuildProcessTree that fills the map.
  unfoldable pub store_loop : List (ℤ × Process V) → List (Process V) → List (ℤ × Process V)
  unfolding insert
  store_loop m [] = m
  store_loop m (p ∷ ps) = store_loop (insert p.pid p m) ps

  -- BuildProcessTree.
  unfoldable pub build_process_tree :
      (List (ℤ × Process V) → List (Process V)) → List (Process V) → ProcessTree V
  unfolding store_loop link_loop
  build_process_tree visit processes = linked visit (store_loop [] processes)

  -- sort.Slice by PID.
  unfoldable pub insert_by_pid : Process V → List (Process V) → List (Process V)
  insert_by_pid p [] = p ∷ []
  insert_by_pid p (q ∷ qs) = elim (int_ltb p.pid q.pid) [
    | true ↦ p ∷ q ∷ qs
    | false ↦ q ∷ insert_by_pid p qs
  ]

  unfoldable pub sort_by_pid : List (Process V) → List (Process V)
  unfolding insert_by_pid
  sort_by_pid [] = []
  sort_by_pid (p ∷ ps) = insert_by_pid p (sort_by_pid ps)

  -- A process whose parent is not in the map.
  abbrev pub is_root : List (ℤ × Process V) → Process V → Bool
  is_root m p = elim (lookup p.ppid m) [ none ↦ true | some parent ↦ false ]

  -- GetRootProcesses.
  unfoldable pub get_root_processes : ProcessTree V → List (Process V)
  unfolding sort_by_pid
  get_root_processes t = sort_by_pid (select (is_root t.processes) (values t.processes))

  -- GetAllProcesses.
  unfoldable pub get_all_processes : ProcessTree V → List (Process V)
  unfolding sort_by_pid
  get_all_processes t = sort_by_pid (values t.processes)

  -- GetProcess.
  unfoldable pub get_process : ProcessTree V → ℤ → Option (Process V)
  unfolding lookup
  get_process t pid = lookup pid t.processes
