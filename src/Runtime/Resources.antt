-- ===== src/Runtime/Resources.antt =====
-- ExtractSpecResources of pkg/runtime/cgroup.go.
pub mod Declared
use c_ray.Prelude.{Bool, List, Option, [], false, if◌then◌else◌, none, some, true, ℕ, ◌∷◌}
use c_ray.Prelude.Int.{ℤ}
use c_ray.Runtime.Spec.{Linux, LinuxCpu, LinuxMemory, LinuxResources, Spec}
use c_ray.Text.Basic.{Text}

pub record CGroupSpecResources : Type 0 where
  pub cpu_shares : Option ℕ
  pub cpu_quota : Option ℤ
  pub cpu_period : Option ℕ
  pub cpu_burst : Option ℕ
  pub cpu_set_cpus : Text
  pub cpu_set_mems : Text
  pub cpu_realtime_runtime : Option ℤ
  pub cpu_realtime_period : Option ℕ
  pub memory_limit : Option ℤ
  pub memory_reservation : Option ℤ
  pub memory_swap : Option ℤ
  pub memory_swappiness : Option ℕ
  pub oom_kill_disable : Option Bool
  pub pids_limit : Option ℤ
  pub blkio_weight : Option ℕ
  pub unified : List (Text × Text)

abbrev pub no_resources : CGroupSpecResources
no_resources = record {
  cpu_shares = none;
  cpu_quota = none;
  cpu_period = none;
  cpu_burst = none;
  cpu_set_cpus = [];
  cpu_set_mems = [];
  cpu_realtime_runtime = none;
  cpu_realtime_period = none;
  memory_limit = none;
  memory_reservation = none;
  memory_swap = none;
  memory_swappiness = none;
  oom_kill_disable = none;
  pids_limit = none;
  blkio_weight = none;
  unified = [];
}

-- The assignments sr.f = v.
abbrev pub set_cpu_shares : Option ℕ → CGroupSpecResources → CGroupSpecResources
set_cpu_shares v sr = record sr { cpu_shares = v }

abbrev pub set_cpu_quota : Option ℤ → CGroupSpecResources → CGroupSpecResources
set_cpu_quota v sr = record sr { cpu_quota = v }

abbrev pub set_cpu_period : Option ℕ → CGroupSpecResources → CGroupSpecResources
set_cpu_period v sr = record sr { cpu_period = v }

abbrev pub set_cpu_burst : Option ℕ → CGroupSpecResources → CGroupSpecResources
set_cpu_burst v sr = record sr { cpu_burst = v }

abbrev pub set_cpu_set_cpus : Text → CGroupSpecResources → CGroupSpecResources
set_cpu_set_cpus v sr = record sr { cpu_set_cpus = v }

abbrev pub set_cpu_set_mems : Text → CGroupSpecResources → CGroupSpecResources
set_cpu_set_mems v sr = record sr { cpu_set_mems = v }

abbrev pub set_cpu_realtime_runtime : Option ℤ → CGroupSpecResources → CGroupSpecResources
set_cpu_realtime_runtime v sr = record sr { cpu_realtime_runtime = v }

abbrev pub set_cpu_realtime_period : Option ℕ → CGroupSpecResources → CGroupSpecResources
set_cpu_realtime_period v sr = record sr { cpu_realtime_period = v }

abbrev pub set_memory_limit : Option ℤ → CGroupSpecResources → CGroupSpecResources
set_memory_limit v sr = record sr { memory_limit = v }

abbrev pub set_memory_reservation : Option ℤ → CGroupSpecResources → CGroupSpecResources
set_memory_reservation v sr = record sr { memory_reservation = v }

abbrev pub set_memory_swap : Option ℤ → CGroupSpecResources → CGroupSpecResources
set_memory_swap v sr = record sr { memory_swap = v }

abbrev pub set_memory_swappiness : Option ℕ → CGroupSpecResources → CGroupSpecResources
set_memory_swappiness v sr = record sr { memory_swappiness = v }

abbrev pub set_oom_kill_disable : Option Bool → CGroupSpecResources → CGroupSpecResources
set_oom_kill_disable v sr = record sr { oom_kill_disable = v }

abbrev pub set_pids_limit : Option ℤ → CGroupSpecResources → CGroupSpecResources
set_pids_limit v sr = record sr { pids_limit = v }

abbrev pub set_blkio_weight : Option ℕ → CGroupSpecResources → CGroupSpecResources
set_blkio_weight v sr = record sr { blkio_weight = v }

abbrev pub set_unified : List (Text × Text) → CGroupSpecResources → CGroupSpecResources
set_unified v sr = record sr { unified = v }

-- sr, and hasValue.
abbrev pub Extracted : Type 0
Extracted = CGroupSpecResources × Bool

-- A field that is a pointer is copied where it is not nil.
unfoldable pub set_pointer :
    {A : Type 0}
    → (Option A → CGroupSpecResources → CGroupSpecResources)
    → Option A
    → Extracted
    → Extracted
set_pointer set none s = s
set_pointer set (some v) (sr, has_value) = (set (some v) sr, true)

-- A text or a map is copied where it is not empty.
unfoldable pub set_list :
    {A : Type 0}
    → (List A → CGroupSpecResources → CGroupSpecResources)
    → List A
    → Extracted
    → Extracted
set_list set [] s = s
set_list set (v ∷ vs) (sr, has_value) = (set (v ∷ vs) sr, true)

unfoldable pub extract_cpu : Option LinuxCpu → Extracted → Extracted
unfolding set_pointer set_list
extract_cpu none s = s
extract_cpu (some cpu) s =
    let s1 = set_pointer set_cpu_shares cpu.shares s in
    let s2 = set_pointer set_cpu_quota cpu.quota s1 in
    let s3 = set_pointer set_cpu_period cpu.period s2 in
    let s4 = set_pointer set_cpu_burst cpu.burst s3 in
    let s5 = set_list set_cpu_set_cpus cpu.cpus s4 in
    let s6 = set_list set_cpu_set_mems cpu.mems s5 in
    let s7 = set_pointer set_cpu_realtime_runtime cpu.realtime_runtime s6 in
    set_pointer set_cpu_realtime_period cpu.realtime_period s7

unfoldable pub extract_memory : Option LinuxMemory → Extracted → Extracted
unfolding set_pointer
extract_memory none s = s
extract_memory (some mem) s =
    let s1 = set_pointer set_memory_limit mem.limit s in
    let s2 = set_pointer set_memory_reservation mem.reservation s1 in
    let s3 = set_pointer set_memory_swap mem.swap s2 in
    let s4 = set_pointer set_memory_swappiness mem.swappiness s3 in
    set_pointer set_oom_kill_disable mem.disable_oom_killer s4

unfoldable pub extract_pids : Option (Option ℤ) → Extracted → Extracted
unfolding set_pointer
extract_pids none s = s
extract_pids (some limit) s = set_pointer set_pids_limit limit s

unfoldable pub extract_blkio : Option (Option ℕ) → Extracted → Extracted
unfolding set_pointer
extract_blkio none s = s
extract_blkio (some weight) s = set_pointer set_blkio_weight weight s

abbrev pub if_has_value : Extracted → Option CGroupSpecResources
if_has_value (sr, has_value) = if has_value then some sr else none

unfoldable pub extract_resources : LinuxResources → Option CGroupSpecResources
unfolding extract_cpu extract_memory extract_pids extract_blkio set_list
extract_resources res =
    let s1 = extract_cpu res.cpu (no_resources, false) in
    let s2 = extract_memory res.memory s1 in
    let s3 = extract_pids res.pids s2 in
    let s4 = extract_blkio res.block_io s3 in if_has_value (set_list set_unified res.unified s4)

abbrev pub resources_of_linux : Option Linux → Option LinuxResources
resources_of_linux none = none
resources_of_linux (some l) = l.resources

abbrev pub resources_of : Option Spec → Option LinuxResources
resources_of none = none
resources_of (some spec) = resources_of_linux spec.linux

-- ExtractSpecResources; nil is none.
unfoldable pub extract_spec_resources : Option Spec → Option CGroupSpecResources
unfolding extract_resources
extract_spec_resources spec = elim (resources_of spec) [
  | none ↦ none
  | some res ↦ extract_resources res
]
