-- ===== src/Runtime/Cri/Rows.antt =====
-- The rows that mounts.go builds, and MountOptions of raw_client.go.
use c_ray.Map.{has_key, text_key}
use c_ray.Prelude.{
  Bool, List, Option, [], false, if◌then◌else◌, none, not, some, true, ◌&&◌, ◌++◌, ◌||◌, ◌∷◌,
}
use c_ray.Runtime.Cri.{
  CriMount, MountOrigin, MountState, Propagation, RuntimeMount, bidirectional, declared_live,
  declared_only, host_to_container, live_only, mount_origin_kubelet, mount_origin_live_extra,
  mount_origin_runtime_default, mount_origin_user, other_propagation, private_mount,
}
use c_ray.Runtime.Cri.Destination.{clean_dest}
use c_ray.Text.Basic.{Text, codes, has_prefix, is_empty, text_eq}
use c_ray.Text.Split.{join}

abbrev pub kubelet_injected_mount_prefixes : List Text
kubelet_injected_mount_prefixes = codes "/var/run/secrets/kubernetes.io/serviceaccount" ∷ []

abbrev pub kubelet_injected_mount_targets : List Text
kubelet_injected_mount_targets = codes "/etc/hosts" ∷ codes "/dev/termination-log" ∷ []

abbrev pub runtime_default_mount_targets : List Text
runtime_default_mount_targets =
    codes "/proc"
    ∷ codes "/dev"
    ∷ codes "/dev/pts"
    ∷ codes "/dev/shm"
    ∷ codes "/dev/mqueue"
    ∷ codes "/sys"
    ∷ codes "/run"
    ∷ codes "/etc/resolv.conf"
    ∷ codes "/sys/fs/cgroup"
    ∷ []

abbrev pub under_prefix : Text → List Text → Bool
under_prefix path [] = false
under_prefix path (prefix ∷ prefixes) =
    text_eq path prefix || has_prefix (prefix ++ codes "/") path || under_prefix path prefixes

-- criMountOrigin.
unfoldable pub cri_mount_origin : Text → MountOrigin
unfolding clean_dest has_key
cri_mount_origin dest =
    if has_key (clean_dest dest) kubelet_injected_mount_targets
      || under_prefix (clean_dest dest) kubelet_injected_mount_prefixes
    then mount_origin_kubelet
    else mount_origin_user

-- declaredState.
abbrev pub declared_state : Bool → MountState
declared_state live = if live then declared_live else declared_only

-- liveSource.
abbrev pub live_source_of : Option RuntimeMount → Text
live_source_of none = []
live_source_of (some m) = m.source

abbrev pub is_some {ℓ} : {A : Type ℓ} → Option A → Bool
is_some none = false
is_some (some a) = true

-- The end of bestType, where neither the spec nor the live mount has a type.
abbrev pub cri_type : Option CriMount → Text
cri_type none = codes "unknown"
cri_type (some cri) = if is_empty cri.image then codes "bind" else codes "image"

abbrev pub type_or : Option RuntimeMount → Text → Text
type_or none other = other
type_or (some m) other = if is_empty m.fs_type then other else m.fs_type

-- bestType.
unfoldable pub best_type : Option RuntimeMount → Option RuntimeMount → Option CriMount → Text
best_type spec live cri = type_or spec (type_or live (cri_type cri))

abbrev pub given_or : List Text → List Text → List Text
given_or [] other = other
given_or (o ∷ opts) other = o ∷ opts

abbrev pub options_or : Option RuntimeMount → List Text → List Text
options_or none other = other
options_or (some m) other = given_or m.options other

-- bestOptions.
unfoldable pub best_options : Option RuntimeMount → Option RuntimeMount → List Text → List Text
best_options spec live cri_opts = options_or spec (options_or live cri_opts)

abbrev pub propagation_option : Propagation → List Text
propagation_option private_mount = codes "rprivate" ∷ []
propagation_option host_to_container = codes "rslave" ∷ []
propagation_option bidirectional = codes "rshared" ∷ []
propagation_option other_propagation = []

-- MountOptions.
unfoldable pub mount_options_of : CriMount → List Text
mount_options_of m =
    (if m.readonly then codes "ro" else codes "rw")
      ∷ (if m.recursive_read_only then codes "rro" ∷ [] else [])
    ++ (if m.selinux_relabel then codes "z" ∷ [] else [])
    ++ propagation_option m.propagation
    ++ (if is_empty m.image then [] else (codes "image=" ++ m.image) ∷ [])

abbrev pub live_note : Text → Option RuntimeMount → List Text
live_note host_path none = []
live_note host_path (some live) =
    if not (is_empty live.source) && not (text_eq live.source host_path)
    then (codes "live source " ++ live.source) ∷ []
    else []

-- criMountNote.
unfoldable pub cri_mount_note : CriMount → Option CriMount → Option RuntimeMount → Text
unfolding join
cri_mount_note cfg status live = join (codes "; ") (
    codes "CRI external mount" ∷ (if is_empty cfg.image then [] else codes "image-backed" ∷ [])
    ++ (if is_some status then codes "confirmed by CRI status" ∷ [] else [])
    ++ live_note cfg.host_path live)

-- FirstNonEmpty, of two values.
abbrev pub first_non_empty : Text → Text → Text
first_non_empty a b = if is_empty a then b else a

abbrev pub status_host_path : Option CriMount → Text
status_host_path none = []
status_host_path (some m) = m.host_path

-- buildCRIMount.
unfoldable pub build_cri_mount :
    CriMount → Option CriMount → Option RuntimeMount → Option RuntimeMount → RuntimeMount
unfolding best_type best_options mount_options_of cri_mount_origin cri_mount_note
build_cri_mount cfg status spec live =
    let host = first_non_empty cfg.host_path (status_host_path status) in
    record {
      source = first_non_empty host (first_non_empty cfg.image (live_source_of live));
      destination = cfg.container_path;
      fs_type = best_type spec live (some cfg);
      options = best_options spec live (mount_options_of cfg);
      host_path = host;
      live_source = live_source_of live;
      origin = cri_mount_origin cfg.container_path;
      state = declared_state (is_some status || is_some live);
      note = cri_mount_note cfg status live;
    }

-- buildCRIStatusOnlyMount.
unfoldable pub build_cri_status_only_mount : CriMount → Option RuntimeMount → RuntimeMount
unfolding best_type best_options mount_options_of cri_mount_origin
build_cri_status_only_mount status live = record {
  source = first_non_empty status.host_path (live_source_of live);
  destination = status.container_path;
  fs_type = best_type none live (some status);
  options = best_options none live (mount_options_of status);
  host_path = status.host_path;
  live_source = live_source_of live;
  origin = cri_mount_origin status.container_path;
  state = live_only;
  note = codes "status-only CRI mount";
}

-- RuntimeDefaultNote.
unfoldable pub runtime_default_note : RuntimeMount → Text
unfolding has_key
runtime_default_note m =
    if has_key m.destination runtime_default_mount_targets
    then codes "runtime default support mount"
    else codes "spec mount not claimed by CRI"

-- BuildRuntimeDefaultMount.
unfoldable pub build_runtime_default_mount : RuntimeMount → Option RuntimeMount → RuntimeMount
unfolding runtime_default_note best_type best_options
build_runtime_default_mount spec live = record spec {
  host_path = spec.source;
  origin = mount_origin_runtime_default;
  live_source = live_source_of live;
  state = declared_state (is_some live);
  note = runtime_default_note spec;
  fs_type = if is_some live then best_type (some spec) live none else spec.fs_type;
  options = if is_some live then best_options (some spec) live [] else spec.options;
}

-- BuildLiveExtraMount.
unfoldable pub build_live_extra_mount : RuntimeMount → RuntimeMount
build_live_extra_mount live = record live {
  host_path = [];
  live_source = live.source;
  origin = mount_origin_live_extra;
  state = live_only;
  note = codes "live mountinfo entry not declared by runtime or spec";
}
