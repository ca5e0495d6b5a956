-- ===== src/Tests/Views.antt =====
-- The trees and the tables of the views.
use mathlib.Core.List.{Perm}
use c_ray.Map.{insert, lookup, text_key}
use c_ray.Prelude.{
  List, [], arith, false, if◌then◌else◌, map, none, not, refl, select, some, true, ℕ, ◌++◌, ◌∷◌,
  ◌≡◌,
}
use c_ray.Prelude.Int.{pos, ℤ}
use c_ray.Runtime.Convert.{ContainerStatus, running, stopped}
use c_ray.Runtime.Cri.{
  MountOrigin, RuntimeMount, mount_origin_live_extra, mount_origin_user, no_origin, no_state,
}
use c_ray.Text.Basic.{Text, codes, has_prefix, strip_prefix, text_eq, trim_prefix}
use c_ray.Text.Order.{text_ltb}
use c_ray.Text.Search.{after_first}
use c_ray.Text.Trim.{is_space}
use c_ray.Views.ContainerTree.{
  ContainerInfo, ContainerTree, PodGroup, TreeNodeData, container_data, is_true,
  node_type_standalone, pod_data, refresh, shown_groups,
}
use c_ray.Views.ContainerTree.Collapse.{
  HasDistinctPods, has_group, pod_expanded, pod_expanded-refresh, shown_or,
}
use c_ray.Views.ContainerTree.Groups.{group_of, of_pod}
use c_ray.Views.ContainerTree.Selection.{restore_tree_selection}
use c_ray.Views.ContainerTree.Selection.Refreshed.{restore_tree_selection-refresh}
use c_ray.Views.ContainerTree.Selection.Restored.{is_shown_as, reference_at, shows_container}
use c_ray.Views.ImageList.{
  ImageInfo, ImageSelection, entry_for_table_row, is_selected, render_flat, restore_selection,
  split_image_name,
}
use c_ray.Views.ImageList.Names.{IsTag, split_image_name-image_name}
use c_ray.Views.ImageList.Rows.{restore_selection-selected}
use c_ray.Views.MountGroups.{build_mount_cmd, mount_sort_key, split_mounts}
use c_ray.Views.MountGroups.Partition.{
  IsGroup, first_root, is_kubelet, is_other, is_runtime_default, is_user, list_of,
  split_mounts-groups,
}
use c_ray.Views.Nodes.{Node, cons, expand_all_nodes, expand_root, is_expanded, nil, node}
use c_ray.Views.Nodes.Toggle.{AllOfAre, expand_all_nodes-twice, node_children, outline}

abbrev small_tree : Node
small_tree = node (codes "root") false (
    cons (node (codes "pod") true (cons (node (codes "app") true nil) nil))
      (cons (node (codes "job") false nil) nil))

expand_all_nodes-twice_example :
    (expand_all_nodes (some small_tree) ≡ some (expand_root small_tree))
    × (is_expanded (expand_root small_tree) ≡ true)
    × AllOfAre true (node_children (expand_root small_tree))
    × (outline (expand_root small_tree) ≡ outline small_tree)
    × AllOfAre false (node_children (expand_root (expand_root small_tree)))
    × (expand_root (expand_root (expand_root small_tree)) ≡ expand_root (expand_root small_tree))
expand_all_nodes-twice_example = expand_all_nodes-twice small_tree

abbrev container : Text → Text → ContainerStatus → ContainerInfo
container id uid status = record {
  id = id;
  name = id;
  pod_name = uid;
  pod_namespace = codes "default";
  pod_uid = uid;
  status = status;
}

abbrev three_containers : List ContainerInfo
three_containers =
    container (codes "a") (codes "u1") running
    ∷ container (codes "b") [] stopped
    ∷ container (codes "c") (codes "u1") stopped
    ∷ []

groups_test :
    group_of (select (of_pod (codes "u1")) three_containers)
    ≡ some (record {
      uid = codes "u1";
      name = codes "u1";
      namespace = codes "default";
      running = 1;
      total = 2;
    })
unfolding text_eq
groups_test = refl

abbrev in_order : List (Text × PodGroup) → List PodGroup
in_order [] = []
in_order ((uid, pg) ∷ pods) = pg ∷ in_order pods

abbrev collapsed_view : ContainerTree
collapsed_view = record {
  nodes = record { reference = some (pod_data (codes "u1")); expanded = false; children = [] } ∷ [];
  collapsed = [];
  entries = [];
}

collapsed_view-HasDistinctPods : HasDistinctPods collapsed_view.nodes
collapsed_view-HasDistinctPods = (λ uid h. refl, tt)

-- The pod that the user collapsed stays collapsed.
refresh_test :
    pod_expanded (codes "u1") (refresh in_order (some three_containers) collapsed_view).nodes
    ≡ some false
unfolding refresh insert text_eq lookup
refresh_test = refl

pod_expanded-refresh_example :
    pod_expanded (codes "u1") (refresh in_order (some three_containers) collapsed_view).nodes ≡ (
      if has_group (codes "u1") (shown_groups in_order three_containers)
      then some (
          not (
            shown_or
              (is_true (lookup (codes "u1") collapsed_view.collapsed))
              (pod_expanded (codes "u1") collapsed_view.nodes)))
      else none)
pod_expanded-refresh_example =
    pod_expanded-refresh in_order three_containers collapsed_view (codes "u1")
      collapsed_view-HasDistinctPods

alpine-IsTag : IsTag (codes "3")
alpine-IsTag = ((λ e. omega arith, tt), (λ e. omega arith, tt))

-- A repository with a port, with a tag and with a last part that has none.
split_image_name-image_name_example :
    (split_image_name (codes "host:5000/app" ++ b':' ∷ codes "3")
      ≡ (codes "host:5000/app", codes "3"))
    × (split_image_name (codes "host:5000/app" ++ b'/' ∷ codes "db")
        ≡ (codes "host:5000/app" ++ b'/' ∷ codes "db", codes "<none>"))
split_image_name-image_name_example =
    split_image_name-image_name (codes "host:5000/app") (codes "3") (codes "db") alpine-IsTag
      ((λ e. omega arith), ((λ e. omega arith), tt)) ((λ e. omega arith), ((λ e. omega arith), tt))

abbrev no_size : ℤ → Text
no_size n = []

abbrev no_time : ℕ → Text
no_time t = []

abbrev image : Text → List Text → ImageInfo
image digest names = record { names = names; digest = digest; size = pos 5; created_at = 0 }

abbrev two_images : List ImageInfo
two_images =
    image (codes "sha256:aa")
      (codes "alpine:1" ∷ codes "alpine:latest" ∷ codes "alpine@sha256:aa" ∷ [])
    ∷ image (codes "sha256:bb") (codes "busybox:2" ∷ [])
    ∷ []

abbrev saved_busybox : ImageSelection
saved_busybox = record { digest = codes "sha256:bb"; name = [] }

-- The first image has two rows, its digest name is hidden.
restore_test :
    restore_selection saved_busybox (render_flat no_size no_time two_images) two_images ≡ some 3
unfolding restore_selection render_flat text_eq has_prefix after_first strip_prefix trim_prefix
restore_test = refl

restore_selection-selected_example :
    (row : ℕ) × (e : ImageInfo) × (restore_selection saved_busybox
        (render_flat no_size no_time two_images)
        two_images
      ≡ some row)
    × (entry_for_table_row (render_flat no_size no_time two_images) two_images row ≡ some e)
    × (is_selected saved_busybox e ≡ true)
restore_selection-selected_example =
    restore_selection-selected no_size no_time saved_busybox two_images (unfold text_eq in refl)

abbrev mount_at : MountOrigin → Text → RuntimeMount
mount_at origin destination = record {
  source = codes "src";
  destination = destination;
  fs_type = [];
  options = [];
  host_path = [];
  live_source = [];
  origin = origin;
  state = no_state;
  note = [];
}

abbrev four_mounts : List RuntimeMount
four_mounts =
    mount_at mount_origin_user (codes "/data")
    ∷ mount_at mount_origin_live_extra (codes "/")
    ∷ mount_at mount_origin_user (codes "/etc/hosts")
    ∷ mount_at no_origin (codes "/x")
    ∷ []

-- What lies below /etc comes first.
split_mounts_test :
    map (λ (m : RuntimeMount). m.destination) (split_mounts four_mounts).user_mounts
    ≡ codes "/etc/hosts" ∷ codes "/data" ∷ []
unfolding split_mounts text_eq text_ltb mount_sort_key has_prefix
split_mounts_test = refl

split_mounts-groups_example :
    ((split_mounts four_mounts).root_mount ≡ first_root none four_mounts)
    × IsGroup is_user four_mounts (split_mounts four_mounts).user_mounts
    × IsGroup is_kubelet four_mounts (split_mounts four_mounts).cri_mounts
    × IsGroup is_runtime_default four_mounts (split_mounts four_mounts).runtime_mounts
    × IsGroup is_other four_mounts (split_mounts four_mounts).other
    × Perm
        (list_of (split_mounts four_mounts).root_mount
          ++ ((split_mounts four_mounts).user_mounts
              ++ (split_mounts four_mounts).cri_mounts
              ++ (split_mounts four_mounts).runtime_mounts
              ++ (split_mounts four_mounts).other))
        four_mounts
split_mounts-groups_example = split_mounts-groups four_mounts

mount_cmd_test :
    build_mount_cmd (mount_at mount_origin_user (codes "/data")) [] ≡ codes "mount src /data"
unfolding build_mount_cmd text_eq is_space
mount_cmd_test = refl

abbrev in_any_order : List (Text × PodGroup) → List PodGroup
in_any_order = map (λ e. e.1)

-- The container c was selected while it had no pod.
abbrev selected_container : TreeNodeData
selected_container = container_data node_type_standalone (container (codes "c") [] running)

restore_tree_selection-refresh_example :
    (shows_container (codes "c") (refresh in_any_order (some three_containers) collapsed_view).nodes
      ≡ true)
    × (is_shown_as (codes "c") (
          reference_at (refresh in_any_order (some three_containers) collapsed_view).nodes (
            restore_tree_selection
              (some selected_container)
              (refresh in_any_order (some three_containers) collapsed_view).nodes))
        ≡ true)
restore_tree_selection-refresh_example =
    restore_tree_selection-refresh in_any_order three_containers collapsed_view selected_container
      (λ m p h. h) refl refl (unfold text_eq in refl)
