-- ===== src/Runtime/Cri.antt =====
-- pkg/runtime/cri: the mounts of a container as the CRI, the OCI spec and the live mountinfo have them,
-- with pkg/runtime/mounts.go for the rows that are shown. No element of a list of mounts is nil.
pub mod Destination
pub mod Rows
pub mod Merge
use c_ray.Prelude.{Bool, List}
use c_ray.Text.Basic.{Text}

-- runtimeapi.MountPropagation, whose numbers can also be others than the three with a name.
pub data Propagation : Type 0 where
  private_mount host_to_container bidirectional other_propagation : Propagation

-- cri.Mount.
pub record CriMount : Type 0 where
  pub container_path : Text
  pub host_path : Text
  pub readonly : Bool
  pub selinux_relabel : Bool
  pub recursive_read_only : Bool
  pub propagation : Propagation
  pub image : Text

pub data MountOrigin : Type 0 where
  mount_origin_user : MountOrigin
  mount_origin_kubelet : MountOrigin
  mount_origin_runtime_default : MountOrigin
  mount_origin_live_extra : MountOrigin
  no_origin : MountOrigin

pub data MountState : Type 0 where
  declared_live declared_only live_only no_state : MountState

-- runtime.Mount.
pub record RuntimeMount : Type 0 where
  pub source : Text
  pub destination : Text
  pub fs_type : Text
  pub options : List Text
  pub host_path : Text
  pub live_source : Text
  pub origin : MountOrigin
  pub state : MountState
  pub note : Text
