-- ===== src/Runtime/CGroupPath.antt =====
-- The cgroup paths of pkg/runtime/cgroup.go: from the configured path, a cgroupfs path or the systemd
-- form "slice:prefix:name", to the path below the cgroup root.
pub mod Slice
pub mod Absolute
use c_ray.Prelude.{
  List, Option, [], false, if◌then◌else◌, ltb, none, not, some, true, ℕ, ◌&&◌, ◌++◌, ◌||◌, ◌∷◌,
}
use c_ray.Text.Basic.{
  Text, codes, contains, has_suffix, is_empty, text_eq, trim_prefix, trim_suffix,
}
use c_ray.Text.Split.{join, split, split_3}
use c_ray.Text.Trim.{trim_space}

-- InferCGroupDriver of pkg/runtime/convert.go.
unfoldable pub infer_cgroup_driver : Text → Text
infer_cgroup_driver path =
    if is_empty path
    then []
    else if contains (codes ".slice") path
        || contains (codes ".scope") path
        || contains (codes ":cri-containerd:") path
    then codes "systemd"
    else codes "cgroupfs"

-- normalizeAbsoluteCGroupPath.
unfoldable pub normalize_absolute_cgroup_path : Text → Text
normalize_absolute_cgroup_path path =
    if is_empty (trim_space path) then [] else b'/' ∷ trim_prefix (codes "/") (trim_space path)

-- The loop of expandSystemdSlicePath: the parts seen, the parts to come, and the path so far. An
-- empty part gives the empty path.
unfoldable pub slice_loop : List Text → Text → List Text → Text
slice_loop seen path [] = path
slice_loop seen path (p ∷ ps) = elim (is_empty p) [
  | true ↦ []
  | false ↦
      slice_loop (seen ++ p ∷ [])
        (path ++ b'/' ∷ (join (codes "-") (seen ++ p ∷ []) ++ codes ".slice")) ps
]

-- expandSystemdSlicePath, behind the trims.
unfoldable pub expand_slice : Text → Text
expand_slice slice =
    if is_empty slice
    then []
    else if text_eq slice (codes "-.slice")
    then codes "/"
    else if not (has_suffix (codes ".slice") slice) || contains (codes "/") slice
    then []
    else if is_empty (trim_suffix (codes ".slice") slice)
    then []
    else slice_loop [] [] (split b'-' (trim_suffix (codes ".slice") slice))

unfoldable pub expand_systemd_slice_path : Text → Text
unfolding expand_slice
expand_systemd_slice_path slice = expand_slice (trim_space (trim_prefix (codes "/") slice))

-- The unit name: a scope, unless the name says what it is.
unfoldable pub unit_name : Text → Text → Text
unit_name prefix name =
    if not (has_suffix (codes ".slice") name) && not (has_suffix (codes ".scope") name)
    then (if is_empty prefix then name else prefix ++ b'-' ∷ name) ++ codes ".scope"
    else name

-- systemdCGroupPath, from the three trimmed parts.
abbrev pub systemd_parts : Text → Text → Text → Text
systemd_parts slice prefix name =
    if is_empty slice || is_empty name
    then []
    else if is_empty (expand_systemd_slice_path slice)
    then []
    else expand_systemd_slice_path slice ++ b'/' ∷ unit_name prefix name

-- systemdCGroupPath.
unfoldable pub systemd_cgroup_path : Text → Text
systemd_cgroup_path path = elim (split_3 b':' path) [
  | none ↦ []
  | some (slice, prefix, name) ↦
      systemd_parts (trim_space slice) (trim_space prefix) (trim_space name)
]

-- NormalizeCGroupPath, behind its trim.
unfoldable pub normalize_trimmed : Text → Text
normalize_trimmed path =
    if is_empty path
    then []
    else if text_eq (infer_cgroup_driver path) (codes "systemd")
        && contains (codes ":") path
        && not (is_empty (systemd_cgroup_path path))
    then systemd_cgroup_path path
    else normalize_absolute_cgroup_path path

-- NormalizeCGroupPath.
unfoldable pub normalize_cgroup_path : Text → Text
unfolding normalize_trimmed
normalize_cgroup_path path = normalize_trimmed (trim_space path)

-- ResolveCGroupPath: the live path is that of /proc/[pid]/cgroup, if there is a PID, a reader and a
-- path; none is a reader that is nil.
unfoldable pub resolve_cgroup_path : Text → ℕ → Option (ℕ → Option Text) → Text
resolve_cgroup_path configured pid none = normalize_cgroup_path configured
resolve_cgroup_path configured pid (some read_path) =
    if ltb 0 pid
    then elim (read_path pid) [
      | none ↦ normalize_cgroup_path configured
      | some live ↦
          if is_empty live
          then normalize_cgroup_path configured
          else normalize_absolute_cgroup_path live
    ]
    else normalize_cgroup_path configured
