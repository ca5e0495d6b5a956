-- ===== src/Views/ContainerTree/Selection.antt =====
-- The current node of the tree of containers, of pkg/ui/views/container_list.go. A node is known by its
-- place below the root.
pub mod Refreshed
pub mod Restored
use c_ray.Prelude.{Bool, List, Option, [], false, if◌then◌else◌, none, some, suc, ℕ, ◌∷◌}
use c_ray.Text.Basic.{Text, is_empty, text_eq}
use c_ray.Views.ContainerTree.{
  TopNode, TreeNodeData, node_type_container, node_type_pod, node_type_standalone,
}
use c_ray.Views.ContainerTree.Collapse.{is_pod_of}

pub data Place : Type 0 where
  root_place : Place
  top_place : ℕ → Place
  child_place : ℕ → ℕ → Place

-- The place behind one more child of the root.
abbrev pub next_place : Place → Place
next_place root_place = root_place
next_place (top_place i) = top_place (suc i)
next_place (child_place i j) = child_place (suc i) j

abbrev pub option_map : {A B : Type 0} → (A → B) → Option A → Option B
option_map f none = none
option_map f (some x) = some (f x)

-- The place of the first element that a loop finds.
abbrev pub index_of : {A : Type 0} → (A → Bool) → List A → Option ℕ
index_of p [] = none
index_of p (x ∷ xs) = if p x then some 0 else option_map suc (index_of p xs)

abbrev pub is_standalone_of : Text → Option TreeNodeData → Bool
is_standalone_of id none = false
is_standalone_of id (some d) = elim (d.node_type) [
  | node_type_standalone ↦ text_eq d.container_id id
  | _ ↦ false
]

abbrev pub is_container_of : Text → TreeNodeData → Bool
is_container_of id d = elim (d.node_type) [
  | node_type_container ↦ text_eq d.container_id id
  | _ ↦ false
]

-- The child that a loop over the children of a node found, or else what follows.
abbrev pub child_or : Option Place → Option ℕ → Option Place
child_or later none = later
child_or later (some j) = some (child_place 0 j)

-- The loop of findNodeByContainerID.
unfoldable pub find_container : Text → List TopNode → Option Place
find_container id [] = none
find_container id (n ∷ ns) =
    let later = option_map next_place (find_container id ns) in
    if is_standalone_of id n.reference
    then some (top_place 0)
    else child_or later (index_of (is_container_of id) n.children)

-- findNodeByContainerID.
unfoldable pub find_node_by_container_id : List TopNode → Text → Option Place
unfolding find_container
find_node_by_container_id ns id = if is_empty id then none else find_container id ns

-- findNodeByPodUID.
unfoldable pub find_node_by_pod_uid : List TopNode → Text → Option Place
find_node_by_pod_uid ns uid =
    option_map top_place (index_of (λ (n : TopNode). is_pod_of uid n.reference) ns)

-- selectFirstNode.
abbrev pub select_first_node : List TopNode → Place
select_first_node [] = root_place
select_first_node (n ∷ ns) = top_place 0

abbrev pub place_or : Option Place → Place → Place
place_or none otherwise = otherwise
place_or (some place) otherwise = place

-- The pod of a container that is gone.
abbrev pub pod_or_first : Text → List TopNode → Place
pod_or_first uid ns =
    place_or (if is_empty uid then none else find_node_by_pod_uid ns uid) (select_first_node ns)

-- restoreSelection: the node that is current afterwards.
unfoldable pub restore_tree_selection : Option TreeNodeData → List TopNode → Place
unfolding find_node_by_container_id find_node_by_pod_uid
restore_tree_selection none ns = select_first_node ns
restore_tree_selection (some d) ns = elim (d.node_type) [
  | node_type_pod ↦ place_or (find_node_by_pod_uid ns d.pod_uid) (select_first_node ns)
  | _ ↦ place_or (find_node_by_container_id ns d.container_id) (pod_or_first d.pod_uid ns)
]
