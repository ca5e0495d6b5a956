-- ===== src/Runtime/Cri/Merge.antt =====
-- MergeMountSources of pkg/runtime/cri/mounts.go. The lists of status, spec and live mounts carry the
-- flags statusUsed, specUsed and liveUsed: `true` for a mount that is used.
pub mod Covers
pub mod Phases
pub mod Shown
pub mod Sorted
use c_ray.Prelude.{
  Bool, List, Option, [], false, if◌then◌else◌, ltb, map, none, not, some, true, ℕ, ◌&&◌, ◌++◌,
  ◌==◌, ◌∷◌,
}
use c_ray.Runtime.Cri.{
  CriMount, MountOrigin, RuntimeMount, mount_origin_kubelet, mount_origin_live_extra,
  mount_origin_runtime_default, mount_origin_user, no_origin,
}
use c_ray.Runtime.Cri.Destination.{same_destination}
use c_ray.Runtime.Cri.Rows.{
  build_cri_mount, build_cri_status_only_mount, build_live_extra_mount, build_runtime_default_mount,
}
use c_ray.Text.Basic.{Text, text_eq}
use c_ray.Text.Order.{text_ltb}

-- findCRIMount and FindV1Mount, with the flag that the caller sets: the first unused mount at the
-- destination.
module _ {M : Type 0} (dest_of : M → Text) where
  unfoldable pub claim : Text → List (Bool × M) → Option M × List (Bool × M)
  unfolding same_destination
  claim dest [] = (none, [])
  claim dest ((used, m) ∷ ms) =
      let (found, ms') = claim dest ms in
      if not used && same_destination (dest_of m) dest
      then (some m, (true, m) ∷ ms)
      else (found, (used, m) ∷ ms')

abbrev pub all_unused : {M : Type 0} → List M → List (Bool × M)
all_unused = map (λ m. (false, m))

abbrev pub claim_cri : Text → List (Bool × CriMount) → Option CriMount × List (Bool × CriMount)
claim_cri = claim (λ (m : CriMount). m.container_path)

abbrev pub claim_v1 :
    Text → List (Bool × RuntimeMount) → Option RuntimeMount × List (Bool × RuntimeMount)
claim_v1 = claim (λ (m : RuntimeMount). m.destination)

-- The flags and the rows so far.
pub record MergeState : Type 0 where
  pub status_mounts : List (Bool × CriMount)
  pub spec_mounts : List (Bool × RuntimeMount)
  pub live_mounts : List (Bool × RuntimeMount)
  pub rows : List RuntimeMount

-- One round of phase 1.
unfoldable pub merge_config : CriMount → MergeState → MergeState
unfolding claim build_cri_mount
merge_config cm s =
    let (status_match, status_mounts') = claim_cri cm.container_path s.status_mounts in
    let (spec_match, spec_mounts') = claim_v1 cm.container_path s.spec_mounts in
    let (live_match, live_mounts') = claim_v1 cm.container_path s.live_mounts in
    record {
      status_mounts = status_mounts';
      spec_mounts = spec_mounts';
      live_mounts = live_mounts';
      rows = s.rows ++ build_cri_mount cm status_match spec_match live_match ∷ [];
    }

-- Phase 1.
unfoldable pub config_phase : List CriMount → MergeState → MergeState
unfolding merge_config
config_phase [] s = s
config_phase (cm ∷ cms) s = config_phase cms (merge_config cm s)

-- A round of phase 2 or 3: a row for the mount and the live mount at its destination.
abbrev pub add_row : Text → (Option RuntimeMount → RuntimeMount) → MergeState → MergeState
add_row dest row s =
    let (live_match, live_mounts') = claim_v1 dest s.live_mounts in
    record s { live_mounts = live_mounts'; rows = s.rows ++ row live_match ∷ [] }

-- The loop of phases 2 and 3: a row for every mount that is not used.
module _ {M : Type 0} (dest_of : M → Text) (row : M → Option RuntimeMount → RuntimeMount) where
  unfoldable pub unused_phase : List (Bool × M) → MergeState → MergeState
  unfolding claim
  unused_phase [] s = s
  unused_phase ((true, m) ∷ ms) s = unused_phase ms s
  unused_phase ((false, m) ∷ ms) s = unused_phase ms (add_row (dest_of m) (row m) s)

-- Phase 2, over the status mounts.
abbrev pub status_phase : List (Bool × CriMount) → MergeState → MergeState
status_phase = unused_phase (λ (m : CriMount). m.container_path) build_cri_status_only_mount

-- Phase 3, over the spec mounts.
abbrev pub spec_phase : List (Bool × RuntimeMount) → MergeState → MergeState
spec_phase = unused_phase (λ (m : RuntimeMount). m.destination) build_runtime_default_mount

-- Phase 4, over the live mounts.
unfoldable pub live_phase : List (Bool × RuntimeMount) → List RuntimeMount
unfolding build_live_extra_mount
live_phase [] = []
live_phase ((true, lm) ∷ lms) = live_phase lms
live_phase ((false, lm) ∷ lms) = build_live_extra_mount lm ∷ live_phase lms

abbrev pub start_state : List CriMount → List RuntimeMount → List RuntimeMount → MergeState
start_state status spec live = record {
  status_mounts = all_unused status;
  spec_mounts = all_unused spec;
  live_mounts = all_unused live;
  rows = [];
}

-- The rows of the four phases, not sorted yet.
unfoldable pub merged_rows :
    List CriMount → List CriMount → List RuntimeMount → List RuntimeMount → List RuntimeMount
unfolding config_phase unused_phase build_cri_status_only_mount build_runtime_default_mount
    live_phase
merged_rows config status spec live =
    let s1 = config_phase config (start_state status spec live) in
    let s2 = status_phase s1.status_mounts s1 in
    let s3 = spec_phase s2.spec_mounts s2 in s3.rows ++ live_phase s3.live_mounts

-- mountOriginRank.
abbrev pub mount_origin_rank : MountOrigin → ℕ
mount_origin_rank mount_origin_user = 0
mount_origin_rank mount_origin_kubelet = 1
mount_origin_rank mount_origin_runtime_default = 2
mount_origin_rank mount_origin_live_extra = 3
mount_origin_rank no_origin = 4

-- The function that sort.SliceStable is given.
unfoldable pub mount_less : RuntimeMount → RuntimeMount → Bool
unfolding text_ltb
mount_less a b =
    if not (mount_origin_rank a.origin == mount_origin_rank b.origin)
    then ltb (mount_origin_rank a.origin) (mount_origin_rank b.origin)
    else if not (text_eq a.destination b.destination)
    then text_ltb a.destination b.destination
    else if not (text_eq a.source b.source)
    then text_ltb a.source b.source
    else text_ltb a.fs_type b.fs_type

-- sort.SliceStable: a row goes behind those that are less.
unfoldable pub insert_row : RuntimeMount → List RuntimeMount → List RuntimeMount
unfolding mount_less
insert_row m [] = m ∷ []
insert_row m (n ∷ ns) = elim (mount_less n m) [ true ↦ n ∷ insert_row m ns | false ↦ m ∷ n ∷ ns ]

unfoldable pub sort_rows : List RuntimeMount → List RuntimeMount
unfolding insert_row
sort_rows [] = []
sort_rows (m ∷ ms) = insert_row m (sort_rows ms)

-- The mounts that the CRI declares, and their status; nil is none.
pub record ContainerMounts : Type 0 where
  pub config_mounts : List CriMount
  pub status_mounts : List CriMount

-- MergeMountSources, with what the mount set holds.
unfoldable pub merge_mount_sources :
    Option ContainerMounts → List RuntimeMount → List RuntimeMount → List RuntimeMount
unfolding merged_rows sort_rows
merge_mount_sources none spec live = sort_rows (merged_rows [] [] spec live)
merge_mount_sources (some cri) spec live =
    sort_rows (merged_rows cri.config_mounts cri.status_mounts spec live)
