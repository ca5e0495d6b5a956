-- ===== src/Views/ContainerTree/Selection/Restored.antt =====
-- What the current node stands for after a refresh.
use mathlib.Core.Bool.{false≢true}
use c_ray.Prelude.{
  Bool, Bool-cases, List, Option, [], ap, false, get_elem?, inl, inr, none, refl, some, suc, sym,
  true, ℕ, ◌||◌, ◌∙◌, ◌∷◌, ◌≡◌,
}
use c_ray.Text.Basic.{Text, is_empty}
use c_ray.Views.ContainerTree.{
  NodeType, TopNode, TreeNodeData, is_pod, node_type_container, node_type_pod, node_type_standalone,
}
use c_ray.Views.ContainerTree.Selection.{
  Place, child_place, find_container, find_node_by_container_id, find_node_by_pod_uid, index_of,
  is_container_of, is_standalone_of, next_place, place_or, pod_or_first, restore_tree_selection,
  root_place, select_first_node, top_place,
}

abbrev pub reference_in : Option TopNode → Option TreeNodeData
reference_in none = none
reference_in (some n) = n.reference

abbrev pub child_in : ℕ → Option TopNode → Option TreeNodeData
child_in j none = none
child_in j (some n) = get_elem? n.children j

-- The reference of the node at a place.
abbrev pub reference_at : List TopNode → Place → Option TreeNodeData
reference_at ns root_place = none
reference_at ns (top_place i) = reference_in (get_elem? ns i)
reference_at ns (child_place i j) = child_in j (get_elem? ns i)

reference_at-next_place :
    (n : TopNode) (ns : List TopNode) (place : Place)
    → reference_at (n ∷ ns) (next_place place) ≡ reference_at ns place
reference_at-next_place n ns root_place = refl
reference_at-next_place n ns (top_place i) = refl
reference_at-next_place n ns (child_place i j) = refl

-- The container stands by itself or below a pod.
abbrev pub is_shown_as : Text → Option TreeNodeData → Bool
is_shown_as id none = false
is_shown_as id (some d) = is_standalone_of id (some d) || is_container_of id d

abbrev pub has_some : {A : Type 0} → (A → Bool) → List A → Bool
has_some p [] = false
has_some p (x ∷ xs) = p x || has_some p xs

abbrev pub shows_container : Text → List TopNode → Bool
shows_container id =
    has_some
      (λ (n : TopNode). is_standalone_of id n.reference || has_some (is_container_of id) n.children)

index_of-any :
    {A : Type 0} (p : A → Bool) (xs : List A)
    → has_some p xs ≡ true
    → (i : ℕ) × (x : A) × (index_of p xs ≡ some i) × (get_elem? xs i ≡ some x) × (p x ≡ true)
index_of-any p [] h = absurd (false≢true h)
index_of-any p (x ∷ xs) h = elim (Bool-cases (p x)) [
  | inl e ↦ (0, x, rw e refl, refl, e)
  | inr e ↦
      let (i, y, found, at, hit) = index_of-any p xs (rw e at h) in
      (suc i, y, rw (e, found) refl, at, hit)
]

index_of-none :
    {A : Type 0} (p : A → Bool) (xs : List A) → has_some p xs ≡ false → index_of p xs ≡ none
index_of-none p [] h = refl
index_of-none p (x ∷ xs) h = elim (Bool-cases (p x)) [
  | inl e ↦ absurd (false≢true (sym h ∙ rw e refl))
  | inr e ↦ rw (e, index_of-none p xs (rw e at h)) refl
]

or_true : (b : Bool) → b || true ≡ true
or_true true = refl
or_true false = refl

shown_standalone :
    (id : Text) (o : Option TreeNodeData) → is_standalone_of id o ≡ true → is_shown_as id o ≡ true
shown_standalone id none h = h
shown_standalone id (some d) h = rw h refl

shown_container :
    (id : Text) (d : TreeNodeData) → is_container_of id d ≡ true → is_shown_as id (some d) ≡ true
shown_container id d h = rw h (or_true (is_standalone_of id (some d)))

-- The search finds a container that is shown.
find_container-shown :
    (id : Text) (ns : List TopNode)
    → shows_container id ns ≡ true
    → (place : Place) × (find_container id ns ≡ some place)
      × (is_shown_as id (reference_at ns place) ≡ true)
unfolding find_container
find_container-shown id [] h = absurd (false≢true h)
find_container-shown id (n ∷ ns) h = elim (Bool-cases (is_standalone_of id n.reference)) [
  | inl e ↦ (top_place 0, rw e refl, shown_standalone id n.reference e)
  | inr e ↦ elim (Bool-cases (has_some (is_container_of id) n.children)) [
    | inl c ↦
        let (j, d, found, at, hit) = index_of-any (is_container_of id) n.children c in
        (child_place 0 j, rw (e, found) refl, rw at (shown_container id d hit))
    | inr c ↦
        let (place, found, shown) = find_container-shown id ns (rw (e, c) at h) in
        (
          next_place place,
          rw (e, index_of-none (is_container_of id) n.children c, found) refl,
          ap (is_shown_as id) (reference_at-next_place n ns place) ∙ shown,
        )
  ]
]

-- A container that was current and is shown is current again.
pub restore_tree_selection-shown :
    (d : TreeNodeData) (ns : List TopNode)
    → is_pod (some d) ≡ false
    → is_empty d.container_id ≡ false
    → shows_container d.container_id ns ≡ true
    → is_shown_as d.container_id (reference_at ns (restore_tree_selection (some d) ns)) ≡ true
unfolding restore_tree_selection find_node_by_container_id
restore_tree_selection-shown d ns other id shown =
    let (place, found, hit) = find_container-shown d.container_id ns shown in
    go d.node_type other (rw (id, found) refl) hit
  where
    go :
        (t : NodeType) {place : Place}
        → elim t [ node_type_pod ↦ true | _ ↦ false ] ≡ false
        → find_node_by_container_id ns d.container_id ≡ some place
        → is_shown_as d.container_id (reference_at ns place) ≡ true
        → is_shown_as d.container_id (
            reference_at ns (elim t [
              | node_type_pod ↦ place_or (find_node_by_pod_uid ns d.pod_uid) (select_first_node ns)
              | _ ↦
                  place_or (find_node_by_container_id ns d.container_id) (pod_or_first d.pod_uid ns)
            ]))
          ≡ true
    go node_type_pod h found hit = absurd (false≢true (sym h))
    go node_type_container h found hit = rw found hit
    go node_type_standalone h found hit = rw found hit
