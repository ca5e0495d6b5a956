-- ===== src/Views/ContainerTree/Groups.antt =====
-- The groups that render counts.
use c_ray.Map.{insert, lookup, lookup-insert, text_key}
use c_ray.Prelude.{
  Bool, Bool-cases, List, Option, [], ap, arith, false, if◌then◌else◌, inl, inr, length, none, refl,
  select, some, subst, sym, ℕ, ◌+◌, ◌∙◌, ◌∷◌, ◌≡◌,
}
use c_ray.Text.Basic.{Text, is_empty, text_eq, text_eq_iff}
use c_ray.Views.ContainerTree.{
  ContainerInfo, PodGroup, count_in, group_or, is_running, new_group, pod_groups,
}

abbrev pub count_running : List ContainerInfo → ℕ
count_running [] = 0
count_running (e ∷ es) = (if is_running e.status then 1 else 0) + count_running es

-- The group of the containers of a pod: the name is the first one's.
abbrev pub group_of : List ContainerInfo → Option PodGroup
group_of [] = none
group_of (e ∷ es) = some (record {
  uid = e.pod_uid;
  name = e.pod_name;
  namespace = e.pod_namespace;
  running = count_running (e ∷ es);
  total = length (e ∷ es);
})

-- A group to which containers are added.
abbrev added_to : PodGroup → List ContainerInfo → PodGroup
added_to pg es = record pg { running = pg.running + count_running es; total = pg.total + length es }

abbrev joined : Option PodGroup → List ContainerInfo → Option PodGroup
joined none es = group_of es
joined (some pg) es = some (added_to pg es)

joined-count_in :
    (o : Option PodGroup) (e : ContainerInfo) (es : List ContainerInfo)
    → joined (some (count_in e (group_or (new_group e) o))) es ≡ joined o (e ∷ es)
joined-count_in none e es = ground arith
joined-count_in (some pg) e es = ground arith

abbrev pub of_pod : Text → ContainerInfo → Bool
of_pod uid e = text_eq e.pod_uid uid

joined-nil : (o : Option PodGroup) → joined o [] ≡ o
joined-nil none = refl
joined-nil (some pg) = ground arith

-- One container.
abbrev counted : ContainerInfo → List (Text × PodGroup) → List (Text × PodGroup)
counted e pods =
    if is_empty e.pod_uid
    then pods
    else insert e.pod_uid (count_in e (group_or (new_group e) (lookup e.pod_uid pods))) pods

lookup-counted :
    (uid : Text) (e : ContainerInfo) (pods : List (Text × PodGroup))
    → is_empty uid ≡ false
    → lookup uid (counted e pods) ≡ (
        if text_eq e.pod_uid uid
        then some (count_in e (group_or (new_group e) (lookup uid pods)))
        else lookup uid pods)
lookup-counted uid e pods h = elim (Bool-cases (text_eq e.pod_uid uid)) [
  | inl t ↦
      let same = (text_eq_iff e.pod_uid uid).0 t in
      rw (subst (λ x. is_empty x ≡ false) (sym same) h) (
        lookup-insert e.pod_uid uid (count_in e (group_or (new_group e) (lookup e.pod_uid pods)))
          pods
        ∙ rw t (ap (λ x. some (count_in e (group_or (new_group e) (lookup x pods)))) same))
  | inr t ↦ rw t (elim (Bool-cases (is_empty e.pod_uid)) [
    | inl m ↦ rw m refl
    | inr m ↦ rw m (
        lookup-insert e.pod_uid uid (count_in e (group_or (new_group e) (lookup e.pod_uid pods)))
          pods
        ∙ rw t refl)
  ])
]

lookup-pod_groups :
    (uid : Text) (es : List ContainerInfo) (pods : List (Text × PodGroup))
    → is_empty uid ≡ false
    → lookup uid (pod_groups es pods) ≡ joined (lookup uid pods) (select (of_pod uid) es)
unfolding pod_groups
lookup-pod_groups uid [] pods h = sym (joined-nil (lookup uid pods))
lookup-pod_groups uid (e ∷ es) pods h =
    lookup-pod_groups uid es (counted e pods) h
    ∙ rw (lookup-counted uid e pods h) (elim (Bool-cases (text_eq e.pod_uid uid)) [
      | inl t ↦ rw (t, select) (joined-count_in (lookup uid pods) e (select (of_pod uid) es))
      | inr t ↦ rw (t, select) refl
    ])

-- The groups of the containers: for every UID that is not empty the group of the containers that have
-- it, with their number and the number of those that are running, and none where no container has it.
pub lookup-groups :
    (uid : Text) (es : List ContainerInfo)
    → is_empty uid ≡ false
    → lookup uid (pod_groups es []) ≡ group_of (select (of_pod uid) es)
lookup-groups uid es h = unfold lookup in lookup-pod_groups uid es [] h
