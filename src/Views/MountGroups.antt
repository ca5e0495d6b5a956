-- ===== src/Views/MountGroups.antt =====
-- The mounts of a container in groups, of pkg/ui/views/mounts_view.go. No mount of a list is nil.
pub mod Partition
use c_ray.Prelude.{
  Bool, List, Option, [], false, if◌then◌else◌, none, not, some, true, ◌&&◌, ◌++◌, ◌∷◌,
}
use c_ray.Runtime.Cri.{
  MountOrigin, RuntimeMount, mount_origin_kubelet, mount_origin_runtime_default, mount_origin_user,
}
use c_ray.Sorting.{sort_by}
use c_ray.Text.Basic.{Text, codes, has_prefix, is_empty, text_eq}
use c_ray.Text.Order.{text_ltb}
use c_ray.Text.Split.{join}
use c_ray.Text.Trim.{trim_space}

-- What splitMounts returns.
pub record MountGroups : Type 0 where
  pub root_mount : Option RuntimeMount
  pub user_mounts : List RuntimeMount
  pub cri_mounts : List RuntimeMount
  pub runtime_mounts : List RuntimeMount
  pub other : List RuntimeMount

abbrev pub no_groups : MountGroups
no_groups = record {
  root_mount = none;
  user_mounts = [];
  cri_mounts = [];
  runtime_mounts = [];
  other = [];
}

abbrev pub is_root_mount : RuntimeMount → Bool
is_root_mount m = text_eq m.destination (codes "/")

abbrev pub has_root_mount : Option RuntimeMount → Bool
has_root_mount none = false
has_root_mount (some m) = true

-- The switch on the origin.
abbrev pub add_by_origin : MountOrigin → RuntimeMount → MountGroups → MountGroups
add_by_origin mount_origin_user m g = record g { user_mounts = g.user_mounts ++ m ∷ [] }
add_by_origin mount_origin_kubelet m g = record g { cri_mounts = g.cri_mounts ++ m ∷ [] }
add_by_origin mount_origin_runtime_default m g = record g {
  runtime_mounts = g.runtime_mounts ++ m ∷ [];
}
add_by_origin _ m g = record g { other = g.other ++ m ∷ [] }

unfoldable pub add_mount : RuntimeMount → MountGroups → MountGroups
add_mount m g =
    if is_root_mount m && not (has_root_mount g.root_mount)
    then record g { root_mount = some m }
    else add_by_origin m.origin m g

unfoldable pub split_loop : List RuntimeMount → MountGroups → MountGroups
unfolding add_mount
split_loop [] g = g
split_loop (m ∷ ms) g = split_loop ms (add_mount m g)

abbrev pub or_live : RuntimeMount → Text
or_live m = if not (is_empty (trim_space m.live_source)) then m.live_source else m.source

-- preferredSource.
unfoldable pub preferred_source : RuntimeMount → Text
unfolding trim_space
preferred_source m = if not (is_empty (trim_space m.host_path)) then m.host_path else or_live m

-- mountSortKey.
unfoldable pub mount_sort_key : RuntimeMount → Text
unfolding preferred_source
mount_sort_key m =
    (if has_prefix (codes "/etc") m.destination then codes "0" else codes "1")
    ++ b':' ∷ m.destination
    ++ b':' ∷ preferred_source m

abbrev pub key_less : RuntimeMount → RuntimeMount → Bool
key_less a b = text_ltb (mount_sort_key a) (mount_sort_key b)

-- sortMounts.
unfoldable pub sort_mounts : List RuntimeMount → List RuntimeMount
unfolding sort_by
sort_mounts = sort_by key_less

-- splitMounts.
unfoldable pub split_mounts : List RuntimeMount → MountGroups
unfolding split_loop sort_mounts
split_mounts mounts =
    let g = split_loop mounts no_groups in
    record g {
      user_mounts = sort_mounts g.user_mounts;
      cri_mounts = sort_mounts g.cri_mounts;
      runtime_mounts = sort_mounts g.runtime_mounts;
      other = sort_mounts g.other;
    }

-- displaySource.
unfoldable pub display_source : RuntimeMount → Text → Text
unfolding preferred_source trim_space
display_source m runtime_path =
    if is_root_mount m && not (is_empty (trim_space runtime_path))
    then runtime_path
    else preferred_source m

-- fallbackMountField, fallbackValue with "-".
unfoldable pub fallback_mount_field : Text → Text
unfolding trim_space
fallback_mount_field value = if is_empty (trim_space value) then codes "-" else value

-- joinOpts.
abbrev pub join_opts : List Text → Text
join_opts [] = codes "-"
join_opts (o ∷ opts) = join (codes ",") (o ∷ opts)

abbrev pub option_args : List Text → List Text
option_args [] = []
option_args (o ∷ opts) = codes "-o" ∷ join (codes ",") (o ∷ opts) ∷ []

-- buildMountCmd.
unfoldable pub build_mount_cmd : RuntimeMount → Text → Text
unfolding display_source fallback_mount_field join
build_mount_cmd m runtime_path = join (codes " ") (
    codes "mount" ∷ (if is_empty m.fs_type then [] else codes "-t" ∷ m.fs_type ∷ [])
    ++ option_args m.options
    ++ fallback_mount_field (display_source m runtime_path)
      ∷ fallback_mount_field m.destination
      ∷ [])
