-- ===== src/Views/MountGroups/Partition.antt =====
-- Every mount stands in one group.
use mathlib.Core.List.{Perm, perm_middle}
use c_ray.Prelude.{
  Bool, Bool-cases, List, Option, [], append-nil, append_assoc, arith, false, if◌then◌else◌, inl,
  inr, none, not, refl, some, true, ◌&&◌, ◌++◌, ◌||◌, ◌∙◌, ◌∷◌, ◌≡◌,
}
use c_ray.Runtime.Cri.{
  MountOrigin, RuntimeMount, mount_origin_kubelet, mount_origin_live_extra,
  mount_origin_runtime_default, mount_origin_user, no_origin,
}
use c_ray.Sorting.{IsAsymmetric, IsSortedBy, sort_by-IsSortedBy, sort_by-Perm}
use c_ray.Text.Order.{text_ltb-asymmetric}
use c_ray.Views.MountGroups.{
  MountGroups, add_by_origin, add_mount, has_root_mount, is_root_mount, key_less, mount_sort_key,
  no_groups, sort_mounts, split_loop, split_mounts,
}
use mathlib.Core.List.Perm

-- The list behind the mount of the root file system: the first mount at "/" is taken out.
abbrev pub rest_after : Bool → List RuntimeMount → List RuntimeMount
rest_after found [] = []
rest_after found (m ∷ ms) =
    if is_root_mount m && not found then rest_after true ms else m ∷ rest_after found ms

abbrev pub first_root : Option RuntimeMount → List RuntimeMount → Option RuntimeMount
first_root o [] = o
first_root o (m ∷ ms) =
    if is_root_mount m && not (has_root_mount o) then first_root (some m) ms else first_root o ms

abbrev pub is_user : MountOrigin → Bool
is_user mount_origin_user = true
is_user _ = false

abbrev pub is_kubelet : MountOrigin → Bool
is_kubelet mount_origin_kubelet = true
is_kubelet _ = false

abbrev pub is_runtime_default : MountOrigin → Bool
is_runtime_default mount_origin_runtime_default = true
is_runtime_default _ = false

abbrev pub is_other : MountOrigin → Bool
is_other o = not (is_user o || is_kubelet o || is_runtime_default o)

abbrev pub with_origin : (MountOrigin → Bool) → List RuntimeMount → List RuntimeMount
with_origin p [] = []
with_origin p (m ∷ ms) = if p m.origin then m ∷ with_origin p ms else with_origin p ms

-- Groups to which a list is added.
abbrev joined_with : Option RuntimeMount → List RuntimeMount → MountGroups → MountGroups
joined_with root ms g = record {
  root_mount = root;
  user_mounts = g.user_mounts ++ with_origin is_user ms;
  cri_mounts = g.cri_mounts ++ with_origin is_kubelet ms;
  runtime_mounts = g.runtime_mounts ++ with_origin is_runtime_default ms;
  other = g.other ++ with_origin is_other ms;
}

abbrev joined_rest : List RuntimeMount → MountGroups → MountGroups
joined_rest ms g =
    joined_with (first_root g.root_mount ms) (rest_after (has_root_mount g.root_mount) ms) g

joined_rest-add :
    (m : RuntimeMount) (ms : List RuntimeMount) (g : MountGroups) (o : MountOrigin)
    → m.origin ≡ o
    → joined_rest ms (add_by_origin o m g)
      ≡ joined_with (first_root g.root_mount ms) (m ∷ rest_after (has_root_mount g.root_mount) ms) g
joined_rest-add m ms g mount_origin_user e = rw e (simp append_assoc refl)
joined_rest-add m ms g mount_origin_kubelet e = rw e (simp append_assoc refl)
joined_rest-add m ms g mount_origin_runtime_default e = rw e (simp append_assoc refl)
joined_rest-add m ms g mount_origin_live_extra e = rw e (simp append_assoc refl)
joined_rest-add m ms g no_origin e = rw e (simp append_assoc refl)

split_loop-joined : (ms : List RuntimeMount) (g : MountGroups) → split_loop ms g ≡ joined_rest ms g
unfolding split_loop add_mount
split_loop-joined [] g = simp append-nil refl
split_loop-joined (m ∷ ms) g =
    elim (Bool-cases (is_root_mount m && not (has_root_mount g.root_mount))) [
      | inl e ↦ rw e (split_loop-joined ms (record g { root_mount = some m }))
      | inr e ↦
          rw e (
            split_loop-joined ms (add_by_origin m.origin m g)
            ∙ joined_rest-add m ms g m.origin refl)
    ]

abbrev groups_of : List RuntimeMount → List RuntimeMount
groups_of ms =
    with_origin is_user ms
    ++ with_origin is_kubelet ms
    ++ with_origin is_runtime_default ms
    ++ with_origin is_other ms

groups_of-step :
    (m : RuntimeMount) (ms : List RuntimeMount) (o : MountOrigin)
    → m.origin ≡ o
    → Perm (groups_of ms) ms
    → Perm (groups_of (m ∷ ms)) (m ∷ ms)
groups_of-step m ms o e h = Perm.trans (go o e) (Perm.cons m h)
  where
    us : List RuntimeMount
    us = with_origin is_user ms

    ks : List RuntimeMount
    ks = with_origin is_kubelet ms

    rs : List RuntimeMount
    rs = with_origin is_runtime_default ms

    os : List RuntimeMount
    os = with_origin is_other ms

    go : (o : MountOrigin) → m.origin ≡ o → Perm (groups_of (m ∷ ms)) (m ∷ groups_of ms)
    go mount_origin_user e = simp e (Perm.refl _)
    go mount_origin_kubelet e =
        simp e (Perm.append_right os (Perm.append_right rs (perm_middle us ks)))
    go mount_origin_runtime_default e = simp e (Perm.append_right os (perm_middle (us ++ ks) rs))
    go mount_origin_live_extra e = simp e (perm_middle (us ++ ks ++ rs) os)
    go no_origin e = simp e (perm_middle (us ++ ks ++ rs) os)

-- The four groups hold every mount once.
groups_of-Perm : (ms : List RuntimeMount) → Perm (groups_of ms) ms
groups_of-Perm [] = Perm.refl _
groups_of-Perm (m ∷ ms) = groups_of-step m ms m.origin refl (groups_of-Perm ms)

abbrev pub list_of : Option RuntimeMount → List RuntimeMount
list_of none = []
list_of (some m) = m ∷ []

-- The root mount and the rest are the mounts.
rest_after_found : (ms : List RuntimeMount) → rest_after true ms ≡ ms
rest_after_found [] = refl
rest_after_found (m ∷ ms) = ground (arith, rest_after_found ms)

first_root_found : (m : RuntimeMount) (ms : List RuntimeMount) → first_root (some m) ms ≡ some m
first_root_found m [] = refl
first_root_found m (n ∷ ms) = ground (arith, first_root_found m ms)

root-Perm : (ms : List RuntimeMount) → Perm (list_of (first_root none ms) ++ rest_after false ms) ms
root-Perm [] = Perm.refl _
root-Perm (m ∷ ms) = elim (Bool-cases (is_root_mount m)) [
  | inl e ↦ rw (e, first_root_found m ms, rest_after_found ms) (Perm.refl _)
  | inr e ↦ rw e (
      Perm.trans (perm_middle (list_of (first_root none ms)) (rest_after false ms))
        (Perm.cons m (root-Perm ms)))
]

key_less-asymmetric : IsAsymmetric key_less
key_less-asymmetric a b h = text_ltb-asymmetric (mount_sort_key a) (mount_sort_key b) h

-- A group: the mounts behind the root mount that have an origin, sorted.
abbrev pub IsGroup : (MountOrigin → Bool) → List RuntimeMount → List RuntimeMount → Type 0
IsGroup p mounts group =
    IsSortedBy key_less group × Perm group (with_origin p (rest_after false mounts))

sort_mounts-IsGroup :
    (p : MountOrigin → Bool) (mounts : List RuntimeMount)
    → IsGroup p mounts (sort_mounts (with_origin p (rest_after false mounts)))
unfolding sort_mounts
sort_mounts-IsGroup p mounts =
    let group = with_origin p (rest_after false mounts) in
    (sort_by-IsSortedBy key_less key_less-asymmetric group, sort_by-Perm key_less group)

-- splitMounts takes out the first mount at "/" as the mount of the root file system, whatever its
-- origin, and puts every other mount once into the group of its origin, those without a group of their
-- own with the rest; every group is sorted by the key of its mounts.
pub split_mounts-groups :
    (mounts : List RuntimeMount)
    → ((split_mounts mounts).root_mount ≡ first_root none mounts)
      × IsGroup is_user mounts (split_mounts mounts).user_mounts
      × IsGroup is_kubelet mounts (split_mounts mounts).cri_mounts
      × IsGroup is_runtime_default mounts (split_mounts mounts).runtime_mounts
      × IsGroup is_other mounts (split_mounts mounts).other
      × Perm
          (list_of (split_mounts mounts).root_mount
            ++ ((split_mounts mounts).user_mounts
                ++ (split_mounts mounts).cri_mounts
                ++ (split_mounts mounts).runtime_mounts
                ++ (split_mounts mounts).other))
          mounts
unfolding split_mounts
split_mounts-groups mounts =
    let rest = rest_after false mounts in
    rw (split_loop-joined mounts no_groups) (
      refl,
      sort_mounts-IsGroup is_user mounts,
      sort_mounts-IsGroup is_kubelet mounts,
      sort_mounts-IsGroup is_runtime_default mounts,
      sort_mounts-IsGroup is_other mounts,
      Perm.trans
          (Perm.append_left (list_of (first_root none mounts)) (
            Perm.trans
              (Perm.append
                (Perm.append
                  (Perm.append (sort_mounts-IsGroup is_user mounts).1
                    (sort_mounts-IsGroup is_kubelet mounts).1)
                  (sort_mounts-IsGroup is_runtime_default mounts).1)
                (sort_mounts-IsGroup is_other mounts).1)
              (groups_of-Perm rest)))
          (root-Perm mounts),
    )
