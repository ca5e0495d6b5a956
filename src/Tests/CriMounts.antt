-- ===== src/Tests/CriMounts.antt =====
-- The mounts of a container from all four sources.
use c_ray.Prelude.{[], false, length, refl, some, true, ◌∷◌, ◌≡◌}
use c_ray.Runtime.Cri.{CriMount, RuntimeMount, no_origin, no_state, private_mount}
use c_ray.Runtime.Cri.Destination.{normalize_run_alias, same_destination}
use c_ray.Runtime.Cri.Merge.{ContainerMounts, merge_mount_sources}
use c_ray.Runtime.Cri.Merge.Shown.{ShowsAll, merge_mount_sources-ShowsAll}
use c_ray.Runtime.Cri.Merge.Sorted.{IsSorted}
use c_ray.Text.Basic.{Text, codes, has_prefix, text_eq, trim_prefix}
use c_ray.Text.Path.{clean}

abbrev data_mount : CriMount
data_mount = record {
  container_path = codes "/var/run/data/";
  host_path = codes "/srv/data";
  readonly = true;
  selinux_relabel = false;
  recursive_read_only = false;
  propagation = private_mount;
  image = [];
}

abbrev row_at : Text → Text → RuntimeMount
row_at source destination = record {
  source = source;
  destination = destination;
  fs_type = codes "bind";
  options = codes "rw" ∷ [];
  host_path = [];
  live_source = [];
  origin = no_origin;
  state = no_state;
  note = [];
}

abbrev cri_mounts : ContainerMounts
cri_mounts = record { config_mounts = data_mount ∷ []; status_mounts = data_mount ∷ [] }

-- The status, the spec and the live mount at the configured destination give no row of their own.
one_row_test :
    length (
      merge_mount_sources
        (some cri_mounts)
        (row_at (codes "/srv/data") (codes "/run/data") ∷ [])
        (row_at (codes "/dev/sda") (codes "/run/data") ∷ []))
    ≡ 1
unfolding merge_mount_sources same_destination normalize_run_alias clean text_eq has_prefix
    trim_prefix
one_row_test = refl

merge_mount_sources-ShowsAll_example :
    IsSorted (
      merge_mount_sources
        (some cri_mounts)
        (row_at (codes "proc") (codes "/proc") ∷ [])
        (row_at (codes "/dev/sda") (codes "/run/data") ∷ []))
    × ShowsAll
        (merge_mount_sources
          (some cri_mounts)
          (row_at (codes "proc") (codes "/proc") ∷ [])
          (row_at (codes "/dev/sda") (codes "/run/data") ∷ []))
        (data_mount ∷ [])
        (data_mount ∷ [])
        (row_at (codes "proc") (codes "/proc") ∷ [])
        (row_at (codes "/dev/sda") (codes "/run/data") ∷ [])
merge_mount_sources-ShowsAll_example =
    merge_mount_sources-ShowsAll (some cri_mounts) (row_at (codes "proc") (codes "/proc") ∷ [])
      (row_at (codes "/dev/sda") (codes "/run/data") ∷ [])
