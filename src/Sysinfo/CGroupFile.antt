-- ===== src/Sysinfo/CGroupFile.antt =====
-- ReadUnifiedCGroupPath and ReadCGroupPath of pkg/sysinfo/procfs.go, on the lines of
-- /proc/[pid]/cgroup.
pub mod Choice
use c_ray.Prelude.{Bool, List, Option, [], if◌then◌else◌, none, some, ◌&&◌, ◌∷◌}
use c_ray.Text.Basic.{Text, codes, contains, is_empty, text_eq}
use c_ray.Text.Split.{split, split_3}
use c_ray.Text.Trim.{trim_space}

abbrev pub is_unified : Text → Text → Bool
is_unified id controllers = text_eq id (codes "0") && is_empty controllers

-- The loop of ReadUnifiedCGroupPath; none is the error that the path was not found.
unfoldable pub unified_cgroup_path : List Text → Option Text
unified_cgroup_path [] = none
unified_cgroup_path (line ∷ lines) = elim (split_3 b':' line) [
  | none ↦ unified_cgroup_path lines
  | some (id, controllers, path) ↦
      if is_unified id controllers then some (trim_space path) else unified_cgroup_path lines
]

-- ReadUnifiedCGroupPath. An empty line has no three parts, so the test for it changes nothing.
unfoldable pub read_unified_cgroup_path : Text → Option Text
unfolding unified_cgroup_path
read_unified_cgroup_path content = unified_cgroup_path (split b'\n' content)

-- The entry that the loop of ReadCGroupPath sees in a line, unless it goes on to the next line.
unfoldable pub cgroup_entry : Text → Option (Text × Text × Text)
cgroup_entry line = elim (split_3 b':' line) [
  | none ↦ none
  | some (id, controllers, path) ↦
      if is_empty (trim_space path) then none else some (id, controllers, trim_space path)
]

-- The loop of ReadCGroupPath, with v1Fallback; none is the error that no path was found.
unfoldable pub cgroup_path : Text → List Text → Option Text
cgroup_path fallback [] = if is_empty fallback then none else some fallback
cgroup_path fallback (line ∷ lines) = elim (cgroup_entry line) [
  | none ↦ cgroup_path fallback lines
  | some (id, controllers, path) ↦
      if is_unified id controllers
      then some path
      else if contains (codes "memory") controllers
      then some path
      else cgroup_path (if is_empty fallback then path else fallback) lines
]

-- ReadCGroupPath, on the text of the file.
unfoldable pub read_cgroup_path : Text → Option Text
unfolding cgroup_path
read_cgroup_path content = cgroup_path [] (split b'\n' content)
