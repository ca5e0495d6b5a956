-- ===== src/Runtime/Resources/Declared.antt =====
-- What ExtractSpecResources extracts.
use c_ray.Prelude.{
  Bool, List, Option, [], ap, false, if◌then◌else◌, none, refl, some, sym, true, ℕ, ◌||◌, ◌∙◌, ◌∷◌,
  ◌≡◌,
}
use c_ray.Prelude.Int.{ℤ}
use c_ray.Runtime.Resources.{
  CGroupSpecResources, Extracted, extract_blkio, extract_cpu, extract_memory, extract_pids,
  extract_resources, extract_spec_resources, if_has_value, no_resources, set_blkio_weight,
  set_cpu_burst, set_cpu_period, set_cpu_quota, set_cpu_realtime_period, set_cpu_realtime_runtime,
  set_cpu_set_cpus, set_cpu_set_mems, set_cpu_shares, set_list, set_memory_limit,
  set_memory_reservation, set_memory_swap, set_memory_swappiness, set_oom_kill_disable,
  set_pids_limit, set_pointer, set_unified,
}
use c_ray.Runtime.Spec.{LinuxCpu, LinuxMemory, LinuxNamespace, LinuxResources}

abbrev pub flat : {A : Type 0} → Option (Option A) → Option A
flat none = none
flat (some o) = o

abbrev pub is_set : {A : Type 0} → Option A → Bool
is_set none = false
is_set (some v) = true

abbrev pub is_filled : {A : Type 0} → List A → Bool
is_filled [] = false
is_filled (v ∷ vs) = true

-- The values of a CPU that is not declared, and of a memory.
abbrev pub cpu_or_none : Option LinuxCpu → LinuxCpu
cpu_or_none (some cpu) = cpu
cpu_or_none none = record {
  shares = none;
  quota = none;
  period = none;
  burst = none;
  cpus = [];
  mems = [];
  realtime_runtime = none;
  realtime_period = none;
}

abbrev pub memory_or_none : Option LinuxMemory → LinuxMemory
memory_or_none (some mem) = mem
memory_or_none none = record {
  limit = none;
  reservation = none;
  swap = none;
  swappiness = none;
  disable_oom_killer = none;
}

-- Every field under its name.
abbrev pub declared : LinuxCpu → LinuxMemory → LinuxResources → CGroupSpecResources
declared cpu mem res = record {
  cpu_shares = cpu.shares;
  cpu_quota = cpu.quota;
  cpu_period = cpu.period;
  cpu_burst = cpu.burst;
  cpu_set_cpus = cpu.cpus;
  cpu_set_mems = cpu.mems;
  cpu_realtime_runtime = cpu.realtime_runtime;
  cpu_realtime_period = cpu.realtime_period;
  memory_limit = mem.limit;
  memory_reservation = mem.reservation;
  memory_swap = mem.swap;
  memory_swappiness = mem.swappiness;
  oom_kill_disable = mem.disable_oom_killer;
  pids_limit = flat res.pids;
  blkio_weight = flat res.block_io;
  unified = res.unified;
}

-- Some value of the list is true, or the flag was set before.
abbrev pub any_of : List Bool → Bool → Bool
any_of [] before = before
any_of (b ∷ bs) before = b || any_of bs before

-- Some field has a value.
abbrev pub cpu_is_declared : LinuxCpu → Bool → Bool
cpu_is_declared cpu = any_of (
    is_set cpu.realtime_period
    ∷ is_set cpu.realtime_runtime
    ∷ is_filled cpu.mems
    ∷ is_filled cpu.cpus
    ∷ is_set cpu.burst
    ∷ is_set cpu.period
    ∷ is_set cpu.quota
    ∷ is_set cpu.shares
    ∷ [])

abbrev pub memory_is_declared : LinuxMemory → Bool → Bool
memory_is_declared mem = any_of (
    is_set mem.disable_oom_killer
    ∷ is_set mem.swappiness
    ∷ is_set mem.swap
    ∷ is_set mem.reservation
    ∷ is_set mem.limit
    ∷ [])

abbrev pub is_declared : LinuxResources → Bool
is_declared res =
    any_of (is_filled res.unified ∷ is_set (flat res.block_io) ∷ is_set (flat res.pids) ∷ [])
      (memory_is_declared (memory_or_none res.memory) (cpu_is_declared (cpu_or_none res.cpu) false))

-- Setting a field that has no value yet.
set_pointer-fresh :
    {A : Type 0} (set : Option A → CGroupSpecResources → CGroupSpecResources) (o : Option A)
    {s : Extracted} {sr : CGroupSpecResources} {b : Bool}
    → s ≡ (sr, b)
    → set none sr ≡ sr
    → set_pointer set o s ≡ (set o sr, is_set o || b)
unfolding set_pointer
set_pointer-fresh set none {b} e h = rw e (ap (λ x. (x, b)) (sym h))
set_pointer-fresh set (some v) e h = rw e refl

set_list-fresh :
    {A : Type 0} (set : List A → CGroupSpecResources → CGroupSpecResources) (o : List A)
    {s : Extracted} {sr : CGroupSpecResources} {b : Bool}
    → s ≡ (sr, b)
    → set [] sr ≡ sr
    → set_list set o s ≡ (set o sr, is_filled o || b)
unfolding set_list
set_list-fresh set [] {b} e h = rw e (ap (λ x. (x, b)) (sym h))
set_list-fresh set (v ∷ vs) e h = rw e refl

abbrev no_linux : LinuxResources
no_linux = record { cpu = none; memory = none; pids = none; block_io = none; unified = [] }

extract_cpu-declared :
    (o : Option LinuxCpu)
    → extract_cpu o (no_resources, false) ≡ (
      declared (cpu_or_none o) (memory_or_none none) no_linux,
      cpu_is_declared (cpu_or_none o) false,
    )
unfolding extract_cpu
extract_cpu-declared none = refl
extract_cpu-declared (some cpu) =
    let e1 = set_pointer-fresh set_cpu_shares cpu.shares {s = (no_resources, false)} refl refl in
    let e2 = set_pointer-fresh set_cpu_quota cpu.quota e1 refl in
    let e3 = set_pointer-fresh set_cpu_period cpu.period e2 refl in
    let e4 = set_pointer-fresh set_cpu_burst cpu.burst e3 refl in
    let e5 = set_list-fresh set_cpu_set_cpus cpu.cpus e4 refl in
    let e6 = set_list-fresh set_cpu_set_mems cpu.mems e5 refl in
    let e7 = set_pointer-fresh set_cpu_realtime_runtime cpu.realtime_runtime e6 refl in
    set_pointer-fresh set_cpu_realtime_period cpu.realtime_period e7 refl

extract_memory-declared :
    (cpu : LinuxCpu) (o : Option LinuxMemory) (b : Bool)
    → extract_memory o (declared cpu (memory_or_none none) no_linux, b)
      ≡ (declared cpu (memory_or_none o) no_linux, memory_is_declared (memory_or_none o) b)
unfolding extract_memory
extract_memory-declared cpu none b = refl
extract_memory-declared cpu (some mem) b =
    let e1 =
      set_pointer-fresh set_memory_limit mem.limit
        {s = (declared cpu (memory_or_none none) no_linux, b)} refl refl in
    let e2 = set_pointer-fresh set_memory_reservation mem.reservation e1 refl in
    let e3 = set_pointer-fresh set_memory_swap mem.swap e2 refl in
    let e4 = set_pointer-fresh set_memory_swappiness mem.swappiness e3 refl in
    set_pointer-fresh set_oom_kill_disable mem.disable_oom_killer e4 refl

extract_pids-declared :
    (o : Option (Option ℤ)) {s : Extracted} {sr : CGroupSpecResources} {b : Bool}
    → s ≡ (sr, b)
    → set_pids_limit none sr ≡ sr
    → extract_pids o s ≡ (set_pids_limit (flat o) sr, is_set (flat o) || b)
unfolding extract_pids
extract_pids-declared none {b} e h = e ∙ ap (λ x. (x, b)) (sym h)
extract_pids-declared (some limit) e h = set_pointer-fresh set_pids_limit limit e h

extract_blkio-declared :
    (o : Option (Option ℕ)) {s : Extracted} {sr : CGroupSpecResources} {b : Bool}
    → s ≡ (sr, b)
    → set_blkio_weight none sr ≡ sr
    → extract_blkio o s ≡ (set_blkio_weight (flat o) sr, is_set (flat o) || b)
unfolding extract_blkio
extract_blkio-declared none {b} e h = e ∙ ap (λ x. (x, b)) (sym h)
extract_blkio-declared (some weight) e h = set_pointer-fresh set_blkio_weight weight e h

-- ExtractSpecResources gives nil exactly if the spec declares none of the sixteen values, where an
-- empty set of CPUs or memory nodes and an empty map count as not declared. Otherwise every value
-- stands in its own field.
pub extract_spec_resources-declared :
    (namespaces : List LinuxNamespace) (res : LinuxResources)
    → extract_spec_resources
        (some (record { linux = some (record { namespaces = namespaces; resources = some res }) }))
      ≡ (if is_declared res
          then some (declared (cpu_or_none res.cpu) (memory_or_none res.memory) res)
          else none)
unfolding extract_spec_resources extract_resources
extract_spec_resources-declared namespaces res =
    let e1 = extract_cpu-declared res.cpu in
    let e2 =
      ap (extract_memory res.memory) e1
      ∙ extract_memory-declared (cpu_or_none res.cpu) res.memory _ in
    let e3 = extract_pids-declared res.pids e2 refl in
    let e4 = extract_blkio-declared res.block_io e3 refl in
    ap if_has_value (set_list-fresh set_unified res.unified e4 refl)
