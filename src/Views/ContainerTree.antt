-- ===== src/Views/ContainerTree.antt =====
-- The containers grouped by pods, of pkg/ui/views/container_list.go. A handle is what the runtime
-- returns for a container with its info; the node of a container below a pod keeps no state of its
-- own, since nothing reads whether it is expanded. `visit` is the order in which Go visits the pods.
pub mod Collapse
pub mod Groups
pub mod Selection
use c_ray.Map.{insert, lookup, remove, text_key}
use c_ray.Prelude.{
  Bool, List, Option, [], false, if◌then◌else◌, map, none, not, select, some, true, ℕ, ◌&&◌, ◌++◌,
  ◌+◌, ◌∷◌,
}
use c_ray.Runtime.Convert.{ContainerStatus, running}
use c_ray.Sorting.{sort_by}
use c_ray.Text.Basic.{Text, is_empty, text_eq}
use c_ray.Text.Order.{text_ltb}

pub record ContainerInfo : Type 0 where
  pub id : Text
  pub name : Text
  pub pod_name : Text
  pub pod_namespace : Text
  pub pod_uid : Text
  pub status : ContainerStatus

pub data NodeType : Type 0 where
  node_type_pod node_type_container node_type_standalone : NodeType

pub record TreeNodeData : Type 0 where
  pub node_type : NodeType
  pub container_id : Text
  pub pod_uid : Text

-- A child of the root: its reference, nil for a message, and its children's.
pub record TopNode : Type 0 where
  pub reference : Option TreeNodeData
  pub expanded : Bool
  pub children : List TreeNodeData

pub record PodGroup : Type 0 where
  pub uid : Text
  pub name : Text
  pub namespace : Text
  pub running : ℕ
  pub total : ℕ

-- The children of the root, collapsedPods and the entries.
pub record ContainerTree : Type 0 where
  pub nodes : List TopNode
  pub collapsed : List (Text × Bool)
  pub entries : List ContainerInfo

abbrev pub is_running : ContainerStatus → Bool
is_running running = true
is_running _ = false

abbrev pub new_group : ContainerInfo → PodGroup
new_group e = record {
  uid = e.pod_uid;
  name = e.pod_name;
  namespace = e.pod_namespace;
  running = 0;
  total = 0;
}

abbrev pub group_or : PodGroup → Option PodGroup → PodGroup
group_or fresh none = fresh
group_or fresh (some pg) = pg

abbrev pub count_in : ContainerInfo → PodGroup → PodGroup
count_in e pg = record pg {
  total = pg.total + 1;
  running = pg.running + (if is_running e.status then 1 else 0);
}

-- The loop of render over the entries: the pods.
unfoldable pub pod_groups : List ContainerInfo → List (Text × PodGroup) → List (Text × PodGroup)
pod_groups [] pods = pods
pod_groups (e ∷ es) pods = pod_groups es (
    if is_empty e.pod_uid
    then pods
    else insert e.pod_uid (count_in e (group_or (new_group e) (lookup e.pod_uid pods))) pods)

abbrev pub info_less : ContainerInfo → ContainerInfo → Bool
info_less a b = text_ltb a.name b.name

abbrev pub group_less : PodGroup → PodGroup → Bool
group_less a b = text_ltb a.name b.name

-- podContainers.
unfoldable pub pod_containers : List ContainerInfo → Text → List ContainerInfo
unfolding sort_by
pod_containers entries uid = sort_by info_less (select (λ e. text_eq e.pod_uid uid) entries)

-- createContainerNode.
abbrev pub container_data : NodeType → ContainerInfo → TreeNodeData
container_data t e = record { node_type = t; container_id = e.id; pod_uid = e.pod_uid }

abbrev pub pod_data : Text → TreeNodeData
pod_data uid = record { node_type = node_type_pod; container_id = []; pod_uid = uid }

-- v.collapsedPods[uid].
abbrev pub is_true : Option Bool → Bool
is_true none = false
is_true (some b) = b

abbrev pub pod_node : ContainerTree → PodGroup → TopNode
pod_node v pg = record {
  reference = some (pod_data pg.uid);
  expanded = not (is_true (lookup pg.uid v.collapsed));
  children = map (container_data node_type_container) (pod_containers v.entries pg.uid);
}

abbrev pub standalone_node : ContainerInfo → TopNode
standalone_node e = record {
  reference = some (container_data node_type_standalone e);
  expanded = true;
  children = [];
}

-- The groups that render shows, in order. It sorts the UIDs by the names of their groups.
unfoldable pub shown_groups :
    (List (Text × PodGroup) → List PodGroup) → List ContainerInfo → List PodGroup
unfolding pod_groups sort_by
shown_groups visit entries = sort_by group_less (visit (pod_groups entries []))

-- render.
unfoldable pub render : (List (Text × PodGroup) → List PodGroup) → ContainerTree → ContainerTree
unfolding shown_groups pod_containers
render visit v = record v {
  nodes =
      map (pod_node v) (shown_groups visit v.entries)
      ++ map standalone_node (sort_by info_less (select (λ e. is_empty e.pod_uid) v.entries));
}

-- The update of collapsedPods at a node that is a pod.
abbrev pub set_collapsed : Bool → Text → List (Text × Bool) → List (Text × Bool)
set_collapsed true uid m = insert uid true m
set_collapsed false uid m = remove uid m

abbrev pub set_if_pod : Bool → Option TreeNodeData → List (Text × Bool) → List (Text × Bool)
set_if_pod b none m = m
set_if_pod b (some d) m = elim (d.node_type) [ node_type_pod ↦ set_collapsed b d.pod_uid m | _ ↦ m ]

-- snapshotCollapsedPods.
unfoldable pub snapshot_loop : List TopNode → List (Text × Bool) → List (Text × Bool)
snapshot_loop [] m = m
snapshot_loop (n ∷ ns) m = snapshot_loop ns (set_if_pod (not n.expanded) n.reference m)

unfoldable pub snapshot_collapsed_pods : ContainerTree → ContainerTree
unfolding snapshot_loop
snapshot_collapsed_pods v = record v { collapsed = snapshot_loop v.nodes v.collapsed }

-- collapseAllPods.
abbrev pub is_pod : Option TreeNodeData → Bool
is_pod none = false
is_pod (some d) = elim (d.node_type) [ node_type_pod ↦ true | _ ↦ false ]

unfoldable pub collapse_loop : List TopNode → List (Text × Bool) → List TopNode × List (Text × Bool)
collapse_loop [] m = ([], m)
collapse_loop (n ∷ ns) m =
    let (ns', m') = collapse_loop ns (set_if_pod true n.reference m) in
    ((if is_pod n.reference then record n { expanded = false } else n) ∷ ns', m')

unfoldable pub collapse_all_pods : ContainerTree → ContainerTree
unfolding collapse_loop
collapse_all_pods v =
    let (ns, m) = collapse_loop v.nodes v.collapsed in record v { nodes = ns; collapsed = m }

-- toggleAllNodes: it collapses if every child of the root is expanded.
abbrev pub all_expanded : List TopNode → Bool
all_expanded [] = true
all_expanded (n ∷ ns) = n.expanded && all_expanded ns

unfoldable pub toggle_loop :
    Bool → List TopNode → List (Text × Bool) → List TopNode × List (Text × Bool)
toggle_loop expanded [] m = ([], m)
toggle_loop expanded (n ∷ ns) m =
    let (ns', m') = toggle_loop expanded ns (set_if_pod expanded n.reference m) in
    (record n { expanded = not expanded } ∷ ns', m')

unfoldable pub toggle_all_nodes : ContainerTree → ContainerTree
unfolding toggle_loop
toggle_all_nodes v =
    let (ns, m) = toggle_loop (all_expanded v.nodes) v.nodes v.collapsed in
    record v { nodes = ns; collapsed = m }

-- The drawing of Refresh, with the entries that it has read; an error empties the list.
abbrev pub failed_node : TopNode
failed_node = record { reference = none; expanded = true; children = [] }

unfoldable pub refresh :
    (List (Text × PodGroup) → List PodGroup)
    → Option (List ContainerInfo)
    → ContainerTree
    → ContainerTree
unfolding snapshot_collapsed_pods render
refresh visit none v = record v { nodes = failed_node ∷ []; entries = [] }
refresh visit (some entries) v =
    render visit (snapshot_collapsed_pods (record v { entries = entries }))
