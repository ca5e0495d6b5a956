-- ===== src/Views/ContainerTree/Selection/Refreshed.antt =====
-- A refresh shows every container, and keeps the current one.
use mathlib.Core.Bool.{false≢true}
use c_ray.Map.{lookup, text_key}
use c_ray.Prelude.{
  Bool, Bool-cases, List, [], ap, arith, false, inl, inr, map, refl, select, some, subst, sym, true,
  ◌&&◌, ◌++◌, ◌||◌, ◌∙◌, ◌∷◌, ◌≡◌,
}
use c_ray.Sorting.{insert_by, sort_by}
use c_ray.Text.Basic.{Text, is_empty, text_eq, text_eq_iff}
use c_ray.Views.ContainerTree.{
  ContainerInfo, ContainerTree, PodGroup, TopNode, TreeNodeData, container_data, group_less,
  info_less, is_pod, node_type_container, pod_containers, pod_groups, pod_node, refresh, render,
  shown_groups, snapshot_collapsed_pods, standalone_node,
}
use c_ray.Views.ContainerTree.Groups.{group_of, lookup-groups, of_pod}
use c_ray.Views.ContainerTree.Selection.{is_container_of, is_standalone_of, restore_tree_selection}
use c_ray.Views.ContainerTree.Selection.Restored.{
  has_some, is_shown_as, reference_at, restore_tree_selection-shown, shows_container,
}

or_right : (a b : Bool) → b ≡ true → a || b ≡ true
or_right true b e = refl
or_right false b e = e

some-injective : {A : Type 0} {x y : A} → some x ≡ some y → x ≡ y
some-injective h = cc

module _ {A : Type 0} (p : A → Bool) where
  has_some-append : (xs ys : List A) → has_some p (xs ++ ys) ≡ has_some p xs || has_some p ys
  has_some-append [] ys = refl
  has_some-append (x ∷ xs) ys = ground (arith, has_some-append xs ys)

  has_some-insert_by :
      (less : A → A → Bool) (x : A) (ys : List A)
      → has_some p (insert_by less x ys) ≡ p x || has_some p ys
  unfolding insert_by
  has_some-insert_by less x [] = refl
  has_some-insert_by less x (y ∷ ys) = ground (arith, has_some-insert_by less x ys)

  has_some-sort_by :
      (less : A → A → Bool) (xs : List A) → has_some p (sort_by less xs) ≡ has_some p xs
  unfolding sort_by
  has_some-sort_by less [] = refl
  has_some-sort_by less (x ∷ xs) =
      has_some-insert_by less x (sort_by less xs) ∙ ap (λ b. p x || b) (has_some-sort_by less xs)

  has_some-select :
      (q : A → Bool) (xs : List A) → has_some p (select q xs) ≡ has_some (λ x. q x && p x) xs
  has_some-select q [] = refl
  has_some-select q (x ∷ xs) = elim (Bool-cases (q x)) [
    | inl e ↦ rw (e, select) (ap (λ b. p x || b) (has_some-select q xs))
    | inr e ↦ rw (e, select) (has_some-select q xs)
  ]

  -- An element that is found, with what else it makes true.
  found_of :
      (xs : List A)
      → has_some p xs ≡ true
      → (x : A) × (p x ≡ true) × ((q : A → Bool) → q x ≡ true → has_some q xs ≡ true)
  found_of [] h = absurd (false≢true h)
  found_of (x ∷ xs) h = elim (Bool-cases (p x)) [
    | inl e ↦ (x, e, λ q hit. rw hit refl)
    | inr e ↦
        let (y, hit, holds) = found_of xs (rw e at h) in
        (y, hit, λ q hits. or_right (q x) (has_some q xs) (holds q hits))
  ]

has_some-map :
    {A B : Type 0} (p : B → Bool) (f : A → B) (xs : List A)
    → has_some p (map f xs) ≡ has_some (λ x. p (f x)) xs
has_some-map p f [] = refl
has_some-map p f (x ∷ xs) = ap (λ b. p (f x) || b) (has_some-map p f xs)

lookup-has_some :
    (p : PodGroup → Bool) (uid : Text) (pg : PodGroup) (m : List (Text × PodGroup))
    → lookup uid m ≡ some pg
    → p pg ≡ true
    → has_some p (map (λ e. e.1) m) ≡ true
unfolding lookup
lookup-has_some p uid pg [] h hit = cc
lookup-has_some p uid pg ((key, g) ∷ m) h hit = elim (Bool-cases (text_eq key uid)) [
  | inl t ↦
      let same : g ≡ pg = some-injective (rw t at h) in
      rw (subst (λ x. p x ≡ true) (sym same) hit) refl
  | inr t ↦ or_right (p g) _ (lookup-has_some p uid pg m (rw t at h) hit)
]

group_of-some :
    (uid : Text) (es : List ContainerInfo)
    → has_some (of_pod uid) es ≡ true
    → (pg : PodGroup) × (group_of (select (of_pod uid) es) ≡ some pg) × (pg.uid ≡ uid)
group_of-some uid [] h = absurd (false≢true h)
group_of-some uid (e ∷ es) h = elim (Bool-cases (of_pod uid e)) [
  | inl t ↦ rw (t, select) (_, refl, (text_eq_iff e.pod_uid uid).0 t)
  | inr t ↦ rw (t, select) (group_of-some uid es (rw t at h))
]

-- Go visits every pod of the map.
abbrev pub VisitsAll : (List (Text × PodGroup) → List PodGroup) → Type 0
VisitsAll visit =
    (m : List (Text × PodGroup)) (p : PodGroup → Bool)
    → has_some p (map (λ e. e.1) m) ≡ true
    → has_some p (visit m) ≡ true

abbrev shows_node : Text → TopNode → Bool
shows_node id n = is_standalone_of id n.reference || has_some (is_container_of id) n.children

-- A container below the node of its pod.
shows_node-pod_node :
    (id : Text) (v : ContainerTree) (pg : PodGroup)
    → has_some (λ e. of_pod pg.uid e && text_eq e.id id) v.entries ≡ true
    → shows_node id (pod_node v pg) ≡ true
unfolding pod_containers
shows_node-pod_node id v pg h =
    has_some-map (is_container_of id) (container_data node_type_container)
      (pod_containers v.entries pg.uid)
    ∙ has_some-sort_by (λ e. text_eq e.id id) info_less (select (of_pod pg.uid) v.entries)
    ∙ has_some-select (λ e. text_eq e.id id) (of_pod pg.uid) v.entries
    ∙ h

-- The nodes of the pods show a container with a pod.
shows_container-pods :
    (visit : List (Text × PodGroup) → List PodGroup) (id : Text) (v : ContainerTree)
    (c : ContainerInfo)
    → VisitsAll visit
    → text_eq c.id id ≡ true
    → is_empty c.pod_uid ≡ false
    → ((q : ContainerInfo → Bool) → q c ≡ true → has_some q v.entries ≡ true)
    → shows_container id (map (pod_node v) (shown_groups visit v.entries)) ≡ true
unfolding shown_groups
shows_container-pods visit id v c all same pod holds =
    let own : of_pod c.pod_uid c ≡ true = (text_eq_iff c.pod_uid c.pod_uid).1 refl in
    let (pg, group, uid) = group_of-some c.pod_uid v.entries (holds (of_pod c.pod_uid) own) in
    let own_pg : of_pod pg.uid c ≡ true = subst (λ u. of_pod u c ≡ true) (sym uid) own in
    let shown =
      shows_node-pod_node id v pg
        (holds (λ e. of_pod pg.uid e && text_eq e.id id) (rw (own_pg, same) refl)) in
    has_some-map (shows_node id) (pod_node v) (shown_groups visit v.entries)
    ∙ has_some-sort_by (λ g. shows_node id (pod_node v g)) group_less
        (visit (pod_groups v.entries []))
    ∙ all (pod_groups v.entries []) (λ g. shows_node id (pod_node v g))
        (lookup-has_some (λ g. shows_node id (pod_node v g)) c.pod_uid pg (pod_groups v.entries [])
          (lookup-groups c.pod_uid v.entries pod ∙ group) shown)

-- The nodes behind the pods show a container without one.
shows_container-standalone :
    (id : Text) (entries : List ContainerInfo) (c : ContainerInfo)
    → text_eq c.id id ≡ true
    → is_empty c.pod_uid ≡ true
    → ((q : ContainerInfo → Bool) → q c ≡ true → has_some q entries ≡ true)
    → shows_container id
        (map standalone_node (sort_by info_less (select (λ e. is_empty e.pod_uid) entries)))
      ≡ true
shows_container-standalone id entries c same alone holds =
    has_some-map (shows_node id) standalone_node
      (sort_by info_less (select (λ e. is_empty e.pod_uid) entries))
    ∙ has_some-sort_by (λ e. text_eq e.id id || false) info_less
        (select (λ e. is_empty e.pod_uid) entries)
    ∙ has_some-select (λ e. text_eq e.id id || false) (λ e. is_empty e.pod_uid) entries
    ∙ holds (λ e. is_empty e.pod_uid && (text_eq e.id id || false)) (rw (alone, same) refl)

shows_container-refresh :
    (visit : List (Text × PodGroup) → List PodGroup) (entries : List ContainerInfo)
    (v : ContainerTree) (id : Text)
    → VisitsAll visit
    → has_some (λ (e : ContainerInfo). text_eq e.id id) entries ≡ true
    → shows_container id (refresh visit (some entries) v).nodes ≡ true
unfolding refresh render snapshot_collapsed_pods
shows_container-refresh visit entries v id all listed =
    let (c, same, holds) = found_of (λ (e : ContainerInfo). text_eq e.id id) entries listed in
    let v' = snapshot_collapsed_pods (record v { entries = entries }) in
    has_some-append (shows_node id) (map (pod_node v') (shown_groups visit entries))
      (map standalone_node (sort_by info_less (select (λ e. is_empty e.pod_uid) entries)))
    ∙ elim (Bool-cases (is_empty c.pod_uid)) [
      | inl alone ↦ or_right _ _ (shows_container-standalone id entries c same alone holds)
      | inr pod ↦ rw (shows_container-pods visit id v' c all same pod holds) refl
    ]

-- A refresh shows a container that is among those it has read, and restoreSelection keeps the container
-- that was current, if it is still there: the node that is current afterwards stands for the container
-- of the same ID, by itself or below its pod, wherever it is now. Go visits every pod of the map.
pub restore_tree_selection-refresh :
    (visit : List (Text × PodGroup) → List PodGroup) (entries : List ContainerInfo)
    (v : ContainerTree) (d : TreeNodeData)
    → VisitsAll visit
    → is_pod (some d) ≡ false
    → is_empty d.container_id ≡ false
    → has_some (λ (e : ContainerInfo). text_eq e.id d.container_id) entries ≡ true
    → (shows_container d.container_id (refresh visit (some entries) v).nodes ≡ true)
      × (is_shown_as d.container_id (
            reference_at
              (refresh visit (some entries) v).nodes
              (restore_tree_selection (some d) (refresh visit (some entries) v).nodes))
          ≡ true)
restore_tree_selection-refresh visit entries v d all other id listed =
    let shown = shows_container-refresh visit entries v d.container_id all listed in
    (shown, restore_tree_selection-shown d (refresh visit (some entries) v).nodes other id shown)
