-- ===== src/Views/ContainerTree/Collapse.antt =====
-- What a refresh of the container tree does to the pods that are collapsed.
use c_ray.Map.{lookup, lookup-insert, lookup-remove, text_key}
use c_ray.Prelude.{
  Bool, Bool-cases, List, Option, [], ap, arith, false, if◌then◌else◌, inl, inr, map, none, not,
  refl, select, some, true, ◌++◌, ◌||◌, ◌∙◌, ◌∷◌, ◌≡◌,
}
use c_ray.Sorting.{sort_by}
use c_ray.Text.Basic.{Text, is_empty, text_eq, text_eq_iff}
use c_ray.Views.ContainerTree.{
  ContainerInfo, ContainerTree, NodeType, PodGroup, TopNode, TreeNodeData, info_less, is_true,
  node_type_container, node_type_pod, node_type_standalone, pod_node, refresh, render,
  set_collapsed, set_if_pod, shown_groups, snapshot_collapsed_pods, snapshot_loop, standalone_node,
}

abbrev pub is_pod_of : Text → Option TreeNodeData → Bool
is_pod_of uid none = false
is_pod_of uid (some d) = elim (d.node_type) [ node_type_pod ↦ text_eq d.pod_uid uid | _ ↦ false ]

-- Whether the pod is expanded, if there is a node of it.
abbrev pub pod_expanded : Text → List TopNode → Option Bool
pod_expanded uid [] = none
pod_expanded uid (n ∷ ns) =
    if is_pod_of uid n.reference then some n.expanded else pod_expanded uid ns

-- No pod has two nodes.
abbrev pub HasDistinctPods : List TopNode → Type 0
HasDistinctPods [] = Unit
HasDistinctPods (n ∷ ns) =
    ((uid : Text) → is_pod_of uid n.reference ≡ true → pod_expanded uid ns ≡ none)
    × HasDistinctPods ns

abbrev pub shown_or : Bool → Option Bool → Bool
shown_or was none = was
shown_or was (some e) = not e

lookup-set_collapsed :
    (b : Bool) (uid key : Text) (m : List (Text × Bool))
    → is_true (lookup key (set_collapsed b uid m))
      ≡ (if text_eq uid key then b else is_true (lookup key m))
lookup-set_collapsed true uid key m = ground (arith, lookup-insert uid key true m)
lookup-set_collapsed false uid key m = ground (arith, lookup-remove uid key m)

lookup-set_if_pod :
    (b : Bool) (o : Option TreeNodeData) (key : Text) (m : List (Text × Bool))
    → is_true (lookup key (set_if_pod b o m))
      ≡ (if is_pod_of key o then b else is_true (lookup key m))
lookup-set_if_pod b none key m = refl
lookup-set_if_pod b (some d) key m = go d.node_type
  where
    go :
        (t : NodeType)
        → is_true (lookup key (elim t [ node_type_pod ↦ set_collapsed b d.pod_uid m | _ ↦ m ])) ≡ (
            if elim t [ node_type_pod ↦ text_eq d.pod_uid key | _ ↦ false ]
            then b
            else is_true (lookup key m))
    go node_type_pod = lookup-set_collapsed b d.pod_uid key m
    go node_type_container = refl
    go node_type_standalone = refl

-- A snapshot records every pod that has a node, and leaves the others as they were.
lookup-snapshot_loop :
    (ns : List TopNode) (uid : Text) (m : List (Text × Bool))
    → HasDistinctPods ns
    → is_true (lookup uid (snapshot_loop ns m))
      ≡ shown_or (is_true (lookup uid m)) (pod_expanded uid ns)
unfolding snapshot_loop
lookup-snapshot_loop [] uid m h = refl
lookup-snapshot_loop (n ∷ ns) uid m (h, hs) =
    lookup-snapshot_loop ns uid (set_if_pod (not n.expanded) n.reference m) hs
    ∙ elim (Bool-cases (is_pod_of uid n.reference)) [
      | inl e ↦ rw (lookup-set_if_pod (not n.expanded) n.reference uid m, e, h uid e) refl
      | inr e ↦ rw (lookup-set_if_pod (not n.expanded) n.reference uid m, e) refl
    ]

-- A group of the pod.
abbrev pub has_group : Text → List PodGroup → Bool
has_group uid [] = false
has_group uid (pg ∷ pgs) = text_eq pg.uid uid || has_group uid pgs

pod_expanded-standalone :
    (uid : Text) (es : List ContainerInfo) → pod_expanded uid (map standalone_node es) ≡ none
pod_expanded-standalone uid [] = refl
pod_expanded-standalone uid (e ∷ es) = pod_expanded-standalone uid es

pod_expanded-pods :
    (v : ContainerTree) (uid : Text) (pgs : List PodGroup) (rest : List TopNode)
    → pod_expanded uid rest ≡ none
    → pod_expanded uid (map (pod_node v) pgs ++ rest)
      ≡ (if has_group uid pgs then some (not (is_true (lookup uid v.collapsed))) else none)
pod_expanded-pods v uid [] rest h = h
pod_expanded-pods v uid (pg ∷ pgs) rest h = elim (Bool-cases (text_eq pg.uid uid)) [
  | inl e ↦
      rw e (ap (λ x. some (not (is_true (lookup x v.collapsed)))) ((text_eq_iff pg.uid uid).0 e))
  | inr e ↦ rw e (pod_expanded-pods v uid pgs rest h)
]

-- A refresh shows a pod exactly where it is among the groups of the new list, and as the user left it: a
-- pod that had a node is expanded or collapsed as it was, and one that had none as collapsedPods says,
-- expanded if it says nothing. No pod has two nodes before.
pub pod_expanded-refresh :
    (visit : List (Text × PodGroup) → List PodGroup) (entries : List ContainerInfo)
    (v : ContainerTree) (uid : Text)
    → HasDistinctPods v.nodes
    → pod_expanded uid (refresh visit (some entries) v).nodes ≡ (
        if has_group uid (shown_groups visit entries)
        then some (not (shown_or (is_true (lookup uid v.collapsed)) (pod_expanded uid v.nodes)))
        else none)
unfolding refresh render snapshot_collapsed_pods
pod_expanded-refresh visit entries v uid h =
    pod_expanded-pods (snapshot_collapsed_pods (record v { entries = entries })) uid
      (shown_groups visit entries)
      (map standalone_node (sort_by info_less (select (λ e. is_empty e.pod_uid) entries)))
      (pod_expanded-standalone uid (sort_by info_less (select (λ e. is_empty e.pod_uid) entries)))
    ∙ rw (lookup-snapshot_loop v.nodes uid v.collapsed h) refl
