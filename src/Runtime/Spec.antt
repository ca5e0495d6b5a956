-- ===== src/Runtime/Spec.antt =====
-- What pkg/runtime reads of an OCI runtime spec. Its types are of another package; a pointer is an
-- Option, and the map of unified values is an association list.
use c_ray.Prelude.{Bool, List, Option, ℕ}
use c_ray.Prelude.Int.{ℤ}
use c_ray.Text.Basic.{Text}

pub record LinuxNamespace : Type 0 where
  pub ns_type : Text
  pub path : Text

pub record LinuxCpu : Type 0 where
  pub shares : Option ℕ
  pub quota : Option ℤ
  pub period : Option ℕ
  pub burst : Option ℕ
  pub cpus : Text
  pub mems : Text
  pub realtime_runtime : Option ℤ
  pub realtime_period : Option ℕ

pub record LinuxMemory : Type 0 where
  pub limit : Option ℤ
  pub reservation : Option ℤ
  pub swap : Option ℤ
  pub swappiness : Option ℕ
  pub disable_oom_killer : Option Bool

-- The limit of pids and the weight of block IO are pointers in records that are pointers.
pub record LinuxResources : Type 0 where
  pub cpu : Option LinuxCpu
  pub memory : Option LinuxMemory
  pub pids : Option (Option ℤ)
  pub block_io : Option (Option ℕ)
  pub unified : List (Text × Text)

pub record Linux : Type 0 where
  pub namespaces : List LinuxNamespace
  pub resources : Option LinuxResources

pub record Spec : Type 0 where
  pub linux : Option Linux
