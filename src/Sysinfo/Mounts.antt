-- ===== src/Sysinfo/Mounts.antt =====
-- The MountReader of pkg/sysinfo/mount.go.
pub mod Overlay
pub mod Line
use mathlib.Core.List.{foldl}
use c_ray.Files.{Files, scan_lines}
use c_ray.Prelude.{
  List, Option, [], drop, false, get_or, if◌then◌else◌, length, ltb, none, not, select, some, true,
  ◌&&◌, ◌++◌, ◌∷◌,
}
use c_ray.Prelude.Int.{pos, ℤ}
use c_ray.Result.{Result, err, ok, or_fail, panic, ◌>>=◌}
use c_ray.Sysinfo.Proc.{pid_path}
use c_ray.Sysinfo.Types.{Mount}
use c_ray.Text.Basic.{Text, codes, is_empty, text_eq}
use c_ray.Text.Fields.{fields}
use c_ray.Text.Number.{atoi, if_parsed, value_of}
use c_ray.Text.Split.{split, split_2}

pub record MountInfo : Type 0 where
  pub mount_id : ℤ
  pub parent_id : ℤ
  pub major : ℤ
  pub minor : ℤ
  pub root : Text
  pub mount_point : Text
  pub mount_options : List Text
  pub optional_fields : List Text
  pub fs_type : Text
  pub mount_source : Text
  pub super_options : List Text

pub data MountError : Type 0 where
  mountinfo_unreadable : MountError
  invalid_mountinfo_line : MountError
  invalid_mount_id : MountError
  invalid_parent_id : MountError
  separator_not_found : MountError

-- v, _ = strconv.Atoi(s).
abbrev pub atoi_value : Text → ℤ
atoi_value s = value_of (pos 0) (atoi s)

-- "major:minor", if there is exactly one colon; otherwise both stay 0.
abbrev pub device_numbers : List Text → ℤ × ℤ
device_numbers [] = (pos 0, pos 0)
device_numbers (a ∷ []) = (pos 0, pos 0)
device_numbers (a ∷ b ∷ []) = (atoi_value a, atoi_value b)
device_numbers (a ∷ b ∷ c ∷ ds) = (pos 0, pos 0)

-- The loop for the separator "-": the fields before it and the fields behind it.
unfoldable pub find_separator : List Text → Option (List Text × List Text)
find_separator [] = none
find_separator (f ∷ fs) = elim (text_eq f (codes "-")) [
  | true ↦ some ([], fs)
  | false ↦ elim (find_separator fs) [ none ↦ none | some (a, b) ↦ some (f ∷ a, b) ]
]

-- The fields behind the separator, if there are three at least.
abbrev pub with_source : List Text → MountInfo → MountInfo
with_source [] info = info
with_source (a ∷ []) info = info
with_source (a ∷ b ∷ []) info = info
with_source (a ∷ b ∷ c ∷ fs) info = record info {
  fs_type = a;
  mount_source = b;
  super_options = split b',' c;
}

-- The six fixed fields; `get_or` reads in bounds, since there are 10 fields at least.
abbrev pub fixed_info : List Text → ℤ → ℤ → MountInfo
fixed_info ws mount_id parent_id = record {
  mount_id = mount_id;
  parent_id = parent_id;
  major = (device_numbers (split b':' (get_or ws 2 []))).0;
  minor = (device_numbers (split b':' (get_or ws 2 []))).1;
  root = get_or ws 3 [];
  mount_point = get_or ws 4 [];
  mount_options = split b',' (get_or ws 5 []);
  optional_fields = [];
  fs_type = [];
  mount_source = [];
  super_options = [];
}

abbrev pub with_separator : List Text → MountInfo → Result MountError MountInfo
with_separator ws info = elim (find_separator (drop 6 ws)) [
  | none ↦ err separator_not_found
  | some (optional, behind) ↦ ok (with_source behind (record info { optional_fields = optional }))
]

abbrev pub mount_info_fields : List Text → Result MountError MountInfo
mount_info_fields ws = do
  mount_id ← or_fail invalid_mount_id (if_parsed (atoi (get_or ws 0 [])))
  parent_id ← or_fail invalid_parent_id (if_parsed (atoi (get_or ws 1 [])))
  with_separator ws (fixed_info ws mount_id parent_id)

-- parseMountInfoLine.
unfoldable pub parse_mount_info_line : Text → Result MountError MountInfo
parse_mount_info_line line =
    if ltb (length (fields line)) 10
    then err invalid_mountinfo_line
    else mount_info_fields (fields line)

abbrev pub to_mount : MountInfo → Mount
to_mount info = record {
  source = info.mount_source;
  destination = info.mount_point;
  fs_type = info.fs_type;
  options = info.mount_options ++ info.super_options;
}

-- The loop of ReadMounts: lines that do not parse are skipped.
unfoldable pub mount_lines : List Text → List Mount
unfolding parse_mount_info_line
mount_lines [] = []
mount_lines (line ∷ lines) = elim (parse_mount_info_line line) [
  | ok info ↦ to_mount info ∷ mount_lines lines
  | err e ↦ mount_lines lines
  | panic ↦ mount_lines lines
]

-- ReadMounts; none is the error that the file cannot be opened.
unfoldable pub read_mounts : Files → Text → ℤ → Option (List Mount)
unfolding mount_lines
read_mounts fs proc_root pid =
    let root = if is_empty proc_root then codes "/proc" else proc_root in
    elim (fs.read_file (pid_path root pid (codes "mountinfo" ∷ []))) [
      | none ↦ none
      | some content ↦ some (mount_lines (scan_lines content))
    ]

-- The three directories of an overlay mount.
pub record OverlayDirs : Type 0 where
  pub lowerdir : Text
  pub upperdir : Text
  pub workdir : Text

abbrev pub no_dirs : OverlayDirs
no_dirs = record { lowerdir = []; upperdir = []; workdir = [] }

-- The switch of ParseOverlayFS.
unfoldable pub overlay_entry : Text → Text → OverlayDirs → OverlayDirs
overlay_entry key value d =
    if text_eq key (codes "lowerdir")
    then record d { lowerdir = value }
    else if text_eq key (codes "upperdir")
    then record d { upperdir = value }
    else if text_eq key (codes "workdir")
    then record d { workdir = value }
    else d

unfoldable pub overlay_option : OverlayDirs → Text → OverlayDirs
overlay_option d opt = elim (split_2 b'=' opt) [ none ↦ d | some (k, v) ↦ overlay_entry k v d ]

-- ParseOverlayFS.
unfoldable pub parse_overlay_fs : Mount → OverlayDirs
parse_overlay_fs m =
    if not (text_eq m.fs_type (codes "overlay")) && not (text_eq m.fs_type (codes "overlayfs"))
    then no_dirs
    else foldl overlay_option no_dirs m.options

-- GetOverlayLayers; nil is the empty list.
unfoldable pub get_overlay_layers : Mount → List Text
unfolding parse_overlay_fs
get_overlay_layers m =
    let lower = (parse_overlay_fs m).lowerdir in if is_empty lower then [] else split b':' lower

-- FindRootMount.
unfoldable pub find_root_mount : List Mount → Option Mount
find_root_mount [] = none
find_root_mount (m ∷ ms) = if text_eq m.destination (codes "/") then some m else find_root_mount ms

-- FilterMountsByType.
unfoldable pub filter_mounts_by_type : Text → List Mount → List Mount
filter_mounts_by_type fs_type = select (λ m. text_eq m.fs_type fs_type)
