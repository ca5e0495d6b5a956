-- ===== src/Sysinfo/Tree/Children.antt =====
-- The Children of the processes of a tree.
use c_ray.Map.{int_eq, int_key}
use c_ray.Prelude.{List, Option, [], if◌then◌else◌, none, some, ◌∷◌}
use c_ray.Prelude.Int.{ℤ}
use c_ray.Sysinfo.Types.{Process}

module _ {V : Type 0} where
  -- The PIDs of the processes with this parent, in the order of the list.
  abbrev pub child_pids : ℤ → List (Process V) → List ℤ
  child_pids pid [] = []
  child_pids pid (p ∷ ps) =
      let rest = child_pids pid ps in if int_eq p.ppid pid then p.pid ∷ rest else rest

  -- The children that the tree records: those of a process that is in the map.
  abbrev pub linked_pids : Option (Process V) → List ℤ → List ℤ
  linked_pids none pids = []
  linked_pids (some parent) pids = pids
