-- ===== src/Tests/Convert.antt =====
-- The conversions of the runtime package and the declared resources.
use c_ray.Map.{text_key}
use c_ray.Prelude.{List, Option, [], none, refl, some, true, ◌∷◌, ◌≡◌}
use c_ray.Runtime.Convert.{
  convert_oci_container_status, format_platform, is_kubernetes_env_key, parse_env_vars, paused,
}
use c_ray.Runtime.Convert.Env.{Entry, bare, unnamed, variable}
use c_ray.Runtime.Resources.{extract_spec_resources, no_resources}
use c_ray.Runtime.Resources.Declared.{extract_spec_resources-declared}
use c_ray.Runtime.Spec.{LinuxResources, Spec}
use c_ray.Text.Basic.{codes, has_prefix, text_eq}
use c_ray.Text.Split.{cut}

abbrev two_namespaces : Option Spec
two_namespaces = some (record {
  linux = some (record {
    namespaces =
        record { ns_type = codes "pid"; path = codes "/proc/1/ns/pid" }
        ∷ record { ns_type = codes "network"; path = codes "/run/netns/a" }
        ∷ [];
    resources = none;
  });
})

abbrev entries : List Entry
entries = variable b'P' (codes "OD_IP") (codes "a=b") ∷ bare (codes "X") ∷ unnamed (codes "1") ∷ []

env_test :
    (parse_env_vars (codes "POD_IP=a=b" ∷ codes "X" ∷ codes "=1" ∷ [])
      ≡ record { key = codes "POD_IP"; value = codes "a=b"; is_kubernetes = true } ∷ [])
    × (format_platform (codes "linux") (codes "arm") (codes "v7") ≡ codes "linux/arm/v7")
    × (convert_oci_container_status (codes "paused") ≡ paused)
unfolding parse_env_vars cut is_kubernetes_env_key has_prefix format_platform
    convert_oci_container_status text_eq
env_test = (refl, refl, refl)

abbrev two_values : LinuxResources
two_values = record {
  cpu = some (record {
    shares = some 512;
    quota = none;
    period = none;
    burst = none;
    cpus = codes "0-1";
    mems = [];
    realtime_runtime = none;
    realtime_period = none;
  });
  memory = none;
  pids = some none;
  block_io = none;
  unified = [];
}

extract_spec_resources-declared_example :
    extract_spec_resources
      (some (record { linux = some (record { namespaces = []; resources = some two_values }) }))
    ≡ some (record no_resources { cpu_shares = some 512; cpu_set_cpus = codes "0-1" })
extract_spec_resources-declared_example = extract_spec_resources-declared [] two_values
