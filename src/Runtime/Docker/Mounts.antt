-- ===== src/Runtime/Docker/Mounts.antt =====
-- pkg/runtime/docker/mounts.go: the mounts of a docker container. The state of the merge is that of
-- Cri.Merge without status mounts.
pub mod Shown
-- A MountPoint of the docker API; its fields are another package's.
use c_ray.Prelude.{Bool, List, Option, [], if◌then◌else◌, map, none, some, ◌++◌, ◌∷◌}
use c_ray.Runtime.Cri.{RuntimeMount, declared_live, declared_only, mount_origin_user}
use c_ray.Runtime.Cri.Merge.{
  MergeState, claim, claim_v1, live_phase, spec_phase, start_state, unused_phase,
}
use c_ray.Runtime.Cri.Rows.{build_runtime_default_mount}
use c_ray.Text.Basic.{Text, codes, is_empty}

pub record MountPoint : Type 0 where
  pub source : Text
  pub destination : Text
  pub point_type : Text
  pub mode : Text
  pub rw : Bool
  pub propagation : Text

abbrev pub option_or_none : Text → List Text
option_or_none [] = []
option_or_none (c ∷ s) = (c ∷ s) ∷ []

unfoldable pub convert_docker_mount : MountPoint → RuntimeMount
convert_docker_mount m = record {
  source = m.source;
  destination = m.destination;
  fs_type = m.point_type;
  options =
      (if m.rw then [] else codes "ro" ∷ [])
      ++ (option_or_none m.mode ++ option_or_none m.propagation);
  host_path = m.source;
  live_source = [];
  origin = mount_origin_user;
  state = declared_only;
  note = [];
}

-- convertDockerMounts.
unfoldable pub convert_docker_mounts : List MountPoint → List RuntimeMount
unfolding convert_docker_mount
convert_docker_mounts = map convert_docker_mount

abbrev pub options_from : List Text → List Text → List Text
options_from [] live = live
options_from (o ∷ os) live = o ∷ os

-- The row of a declared mount, with the live mount at its destination.
unfoldable pub declared_row : RuntimeMount → Option RuntimeMount → RuntimeMount
declared_row dm none = dm
declared_row dm (some lm) = record dm {
  live_source = lm.source;
  state = declared_live;
  fs_type = if is_empty dm.fs_type then lm.fs_type else dm.fs_type;
  options = options_from dm.options lm.options;
}

-- One round of the loop over the declared mounts.
unfoldable pub merge_declared : RuntimeMount → MergeState → MergeState
unfolding claim declared_row
merge_declared dm s =
    let (spec_match, spec_mounts') = claim_v1 dm.destination s.spec_mounts in
    let (live_match, live_mounts') = claim_v1 dm.destination s.live_mounts in
    record s {
      spec_mounts = spec_mounts';
      live_mounts = live_mounts';
      rows = s.rows ++ declared_row dm live_match ∷ [];
    }

unfoldable pub declared_loop : List RuntimeMount → MergeState → MergeState
unfolding merge_declared
declared_loop [] s = s
declared_loop (dm ∷ dms) s = declared_loop dms (merge_declared dm s)

-- mergeDockerMounts.
unfoldable pub merge_docker_mounts :
    List RuntimeMount → List RuntimeMount → List RuntimeMount → List RuntimeMount
unfolding declared_loop unused_phase build_runtime_default_mount live_phase
merge_docker_mounts declared spec live =
    let s1 = declared_loop declared (start_state [] spec live) in
    let s2 = spec_phase s1.spec_mounts s1 in s2.rows ++ live_phase s2.live_mounts
