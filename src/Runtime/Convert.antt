-- ===== src/Runtime/Convert.antt =====
-- pkg/runtime/convert.go: the environment of a container, the platform of an image, and the root path,
-- the status and the namespaces of an OCI spec. The spec is of another package; what is read of it
-- is its namespaces, and a nil pointer is none.
pub mod Env
pub mod Namespaces
use c_ray.Map.{insert, text_key}
use c_ray.Prelude.{Bool, List, Option, [], false, if◌then◌else◌, none, some, true, ◌++◌, ◌||◌, ◌∷◌}
use c_ray.Runtime.Spec.{Linux, LinuxNamespace, Spec}
use c_ray.Sysinfo.CGroupFile.Choice.{entries}
use c_ray.Text.Basic.{Text, codes, has_prefix, is_empty, text_eq}
use c_ray.Text.Path.{is_abs, join_path}
use c_ray.Text.Split.{cut}

pub record EnvVar : Type 0 where
  pub key : Text
  pub value : Text
  pub is_kubernetes : Bool

-- IsKubernetesEnvKey.
unfoldable pub is_kubernetes_env_key : Text → Bool
is_kubernetes_env_key key =
    has_prefix (codes "KUBERNETES_") key
    || has_prefix (codes "POD_") key
    || has_prefix (codes "SERVICE_") key

-- ParseEnvVars.
unfoldable pub parse_env_vars : List Text → List EnvVar
parse_env_vars [] = []
parse_env_vars (entry ∷ entries) = elim (cut b'=' entry) [
  | none ↦ parse_env_vars entries
  | some (key, value) ↦ elim (is_empty key) [
    | true ↦ parse_env_vars entries
    | false ↦
        record { key = key; value = value; is_kubernetes = is_kubernetes_env_key key }
        ∷ parse_env_vars entries
  ]
]

-- FormatPlatform.
unfoldable pub format_platform : Text → Text → Text → Text
format_platform os_name arch variant =
    if is_empty os_name || is_empty arch
    then []
    else if is_empty variant
    then os_name ++ b'/' ∷ arch
    else os_name ++ b'/' ∷ (arch ++ b'/' ∷ variant)

-- ResolveSpecRootPath.
unfoldable pub resolve_spec_root_path : Text → Text → Text
resolve_spec_root_path root_path bundle_dir =
    if is_abs root_path then root_path else join_path (bundle_dir ∷ root_path ∷ [])

pub data ContainerStatus : Type 0 where
  created running pausing paused restarting stopped dead unknown : ContainerStatus

-- ConvertOCIContainerStatus.
unfoldable pub convert_oci_container_status : Text → ContainerStatus
convert_oci_container_status status =
    if text_eq status (codes "created")
    then created
    else if text_eq status (codes "running")
    then running
    else if text_eq status (codes "pausing")
    then pausing
    else if text_eq status (codes "paused")
    then paused
    else if text_eq status (codes "stopped")
    then stopped
    else unknown

-- The loop of NsPathFromSpec.
unfoldable pub ns_path : Text → List LinuxNamespace → Text
ns_path t [] = []
ns_path t (n ∷ ns) = if text_eq n.ns_type t then n.path else ns_path t ns

abbrev pub ns_path_of_linux : Text → Option Linux → Text
ns_path_of_linux t none = []
ns_path_of_linux t (some l) = ns_path t l.namespaces

-- NsPathFromSpec.
unfoldable pub ns_path_from_spec : Option Spec → Text → Text
ns_path_from_spec none t = []
ns_path_from_spec (some spec) t = ns_path_of_linux t spec.linux

-- The loop of BuildNamespaceMap.
unfoldable pub namespace_loop : List LinuxNamespace → List (Text × Text) → List (Text × Text)
namespace_loop [] m = m
namespace_loop (n ∷ ns) m = namespace_loop ns (insert n.ns_type n.path m)

abbrev pub namespace_map_of_linux : Option Linux → List (Text × Text)
namespace_map_of_linux none = []
namespace_map_of_linux (some l) = namespace_loop l.namespaces []

-- BuildNamespaceMap; a nil map is read like an empty one.
unfoldable pub build_namespace_map : Option Spec → List (Text × Text)
build_namespace_map none = []
build_namespace_map (some spec) = namespace_map_of_linux spec.linux
