-- ===== src/Sysinfo/CGroup.antt =====
-- The CGroupReader of pkg/sysinfo/cgroup.go: the limits and the CPU counters of a cgroup, in both
-- versions of the hierarchy.
pub mod Limits
pub mod CpuStat
use mathlib.Core.List.{foldl}
use c_ray.Files.{Files}
use c_ray.Map.{int_eq}
use c_ray.Prelude.{
  Bool, List, Option, [], false, if◌then◌else◌, none, some, suc, true, ℕ, ◌-◌, ◌/◌, ◌^◌, ◌∷◌,
}
use c_ray.Prelude.Int.{is_positive, negsuc, pos, ℤ}
use c_ray.Sysinfo.CGroupFile.{cgroup_path}
use c_ray.Sysinfo.Types.{CGroupLimits}
use c_ray.Text.Basic.{Text, codes, text_eq, trim_prefix}
use c_ray.Text.Fields.{fields}
use c_ray.Text.Number.{if_parsed, parse_int, parse_uint}
use c_ray.Text.Path.{join_path}
use c_ray.Text.Split.{split}
use c_ray.Text.Trim.{trim_space}

pub data CGroupVersion : Type 0 where
  v1 v2 : CGroupVersion

abbrev pub root_dir : Text
root_dir = codes "/sys/fs/cgroup"

-- detectCGroupVersion; none is the error that there is neither.
unfoldable pub detect_cgroup_version : Files → Option CGroupVersion
detect_cgroup_version fs =
    if fs.exists (codes "/sys/fs/cgroup/cgroup.controllers")
    then some v2
    else if fs.exists (codes "/sys/fs/cgroup/cpu")
    then some v1
    else none

-- uint64(v), for an int64.
abbrev pub to_uint64 : ℤ → ℕ
to_uint64 (pos n) = n
to_uint64 (negsuc n) = 2 ^ 64 - suc n

-- readInt64 and readUint16, on the file; none is either error.
unfoldable pub int64_of : Option Text → Option ℤ
int64_of none = none
int64_of (some content) = if_parsed (parse_int (trim_space content))

unfoldable pub uint16_of : Option Text → Option ℕ
uint16_of none = none
uint16_of (some content) = if_parsed (parse_uint 10 16 (trim_space content))

abbrev pub no_limits : CGroupLimits
no_limits = record {
  cpu_quota = pos 0;
  cpu_period = pos 0;
  cpu_shares = pos 0;
  memory_limit = pos 0;
  memory_usage = pos 0;
  pids_limit = pos 0;
  pids_current = pos 0;
  blkio_weight = 0;
}

-- `if err == nil { limits.F = v }`: the value, or what the field held.
abbrev pub set_or {ℓ} : {A : Type ℓ} → A → Option A → A
set_or old none = old
set_or old (some a) = a

-- The quota and the period of cpu.max, from its fields.
abbrev pub cpu_max_fields : List Text → Option ℤ × Option ℤ
cpu_max_fields [] = (none, none)
cpu_max_fields (a ∷ []) = (none, none)
cpu_max_fields (a ∷ b ∷ rest) =
    (if text_eq a (codes "max") then none else if_parsed (parse_int a), if_parsed (parse_int b))

-- The quota and the period of cpu.max.
unfoldable pub cpu_max_of : Option Text → Option ℤ × Option ℤ
cpu_max_of none = (none, none)
cpu_max_of (some content) = cpu_max_fields (fields content)

-- memory.max and pids.max: "max" and what is no number set no limit.
unfoldable pub max_of : Option Text → Option ℤ
max_of none = none
max_of (some content) =
    if text_eq content (codes "max") then none else if_parsed (parse_int (trim_space content))

-- The weight of io.weight, from its fields.
abbrev pub weight_fields : List Text → Option ℕ
weight_fields [] = none
weight_fields (a ∷ []) = none
weight_fields (a ∷ b ∷ rest) = if_parsed (parse_uint 10 16 b)

unfoldable pub weight_of : Option Text → Option ℕ
weight_of none = none
weight_of (some content) = weight_fields (fields content)

-- readCGroupV2Limits, over the contents of the files of the cgroup by their names.
unfoldable pub cgroup_v2_limits : (Text → Option Text) → CGroupLimits
cgroup_v2_limits file = record {
  cpu_quota = set_or (pos 0) (cpu_max_of (file (codes "cpu.max"))).0;
  cpu_period = set_or (pos 0) (cpu_max_of (file (codes "cpu.max"))).1;
  cpu_shares = set_or (pos 0) (int64_of (file (codes "cpu.weight")));
  memory_limit = set_or (pos 0) (max_of (file (codes "memory.max")));
  memory_usage = set_or (pos 0) (int64_of (file (codes "memory.current")));
  pids_limit = set_or (pos 0) (max_of (file (codes "pids.max")));
  pids_current = set_or (pos 0) (int64_of (file (codes "pids.current")));
  blkio_weight = set_or 0 (weight_of (file (codes "io.weight")));
}

-- The largest memory limit of version 1 means that there is none.
abbrev pub v1_memory_limit : Option ℤ → ℤ
v1_memory_limit none = pos 0
v1_memory_limit (some v) = if int_eq v (pos 9223372036854771712) then pos 0 else v

abbrev pub v1_pids_limit : Option ℤ → ℤ
v1_pids_limit none = pos 0
v1_pids_limit (some v) = if is_positive v then v else pos 0

-- readCGroupV1Limits, over the contents of the files by controller and name.
unfoldable pub cgroup_v1_limits : (Text → Text → Option Text) → CGroupLimits
cgroup_v1_limits file = record {
  cpu_quota = set_or (pos 0) (int64_of (file (codes "cpu") (codes "cpu.cfs_quota_us")));
  cpu_period = set_or (pos 0) (int64_of (file (codes "cpu") (codes "cpu.cfs_period_us")));
  cpu_shares = set_or (pos 0) (int64_of (file (codes "cpu") (codes "cpu.shares")));
  memory_limit = v1_memory_limit (int64_of (file (codes "memory") (codes "memory.limit_in_bytes")));
  memory_usage = set_or (pos 0) (int64_of (file (codes "memory") (codes "memory.usage_in_bytes")));
  pids_limit = v1_pids_limit (int64_of (file (codes "pids") (codes "pids.max")));
  pids_current = set_or (pos 0) (int64_of (file (codes "pids") (codes "pids.current")));
  blkio_weight = set_or 0 (uint16_of (file (codes "blkio") (codes "blkio.weight")));
}

abbrev pub v2_file : Files → Text → Text → Option Text
v2_file fs cgroup_path name =
    fs.read_file
      (join_path (join_path (root_dir ∷ trim_prefix (codes "/") cgroup_path ∷ []) ∷ name ∷ []))

abbrev pub v1_file : Files → Text → Text → Text → Option Text
v1_file fs cgroup_path controller name =
    fs.read_file
      (join_path (root_dir ∷ controller ∷ trim_prefix (codes "/") cgroup_path ∷ name ∷ []))

-- ReadCGroupLimits.
unfoldable pub read_cgroup_limits : CGroupVersion → Files → Text → CGroupLimits
read_cgroup_limits v2 fs cgroup_path = cgroup_v2_limits (v2_file fs cgroup_path)
read_cgroup_limits v1 fs cgroup_path = cgroup_v1_limits (v1_file fs cgroup_path)

pub record CGroupCpuStats : Type 0 where
  pub usage_usec : ℕ
  pub user_usec : ℕ
  pub system_usec : ℕ
  pub nr_periods : ℕ
  pub nr_throttled : ℕ
  pub throttled_usec : ℕ

abbrev pub no_cpu_stats : CGroupCpuStats
no_cpu_stats = record {
  usage_usec = 0;
  user_usec = 0;
  system_usec = 0;
  nr_periods = 0;
  nr_throttled = 0;
  throttled_usec = 0;
}

-- The switch of parseCPUStat.
unfoldable pub cpu_stat_entry : Bool → Text → ℕ → CGroupCpuStats → CGroupCpuStats
cpu_stat_entry ns_to_usec key val s =
    if text_eq key (codes "usage_usec")
    then record s { usage_usec = val }
    else if text_eq key (codes "user_usec")
    then record s { user_usec = val }
    else if text_eq key (codes "system_usec")
    then record s { system_usec = val }
    else if text_eq key (codes "nr_periods")
    then record s { nr_periods = val }
    else if text_eq key (codes "nr_throttled")
    then record s { nr_throttled = val }
    else if text_eq key (codes "throttled_usec")
    then record s { throttled_usec = val }
    else if text_eq key (codes "throttled_time")
    then record s { throttled_usec = (if ns_to_usec then val / 1000 else val) }
    else s

-- A line has two fields, of which the second is a number.
abbrev pub cpu_stat_fields : Bool → List Text → CGroupCpuStats → CGroupCpuStats
cpu_stat_fields ns_to_usec [] s = s
cpu_stat_fields ns_to_usec (a ∷ []) s = s
cpu_stat_fields ns_to_usec (a ∷ b ∷ []) s = elim (if_parsed (parse_uint 10 64 b)) [
  | none ↦ s
  | some val ↦ cpu_stat_entry ns_to_usec a val s
]
cpu_stat_fields ns_to_usec (a ∷ b ∷ c ∷ rest) s = s

unfoldable pub cpu_stat_line : Bool → CGroupCpuStats → Text → CGroupCpuStats
cpu_stat_line ns_to_usec s line = cpu_stat_fields ns_to_usec (fields line) s

-- parseCPUStat.
unfoldable pub parse_cpu_stat : Text → Bool → CGroupCpuStats → CGroupCpuStats
parse_cpu_stat content ns_to_usec s = foldl (cpu_stat_line ns_to_usec) s (split b'\n' content)

abbrev pub parse_cpu_stat_file : Option Text → Bool → CGroupCpuStats → CGroupCpuStats
parse_cpu_stat_file none ns_to_usec s = s
parse_cpu_stat_file (some content) ns_to_usec s = parse_cpu_stat content ns_to_usec s

-- uint64(v) / 1000 of a file in nanoseconds.
abbrev pub usec_of : Option ℤ → ℕ
usec_of none = 0
usec_of (some v) = to_uint64 v / 1000

-- readCGroupV1CPUStats, over the contents of the files.
unfoldable pub cgroup_v1_cpu_stats : (Text → Text → Option Text) → CGroupCpuStats
cgroup_v1_cpu_stats file =
    parse_cpu_stat_file (file (codes "cpu") (codes "cpu.stat")) true (record no_cpu_stats {
      usage_usec = usec_of (int64_of (file (codes "cpuacct") (codes "cpuacct.usage")));
      user_usec = usec_of (int64_of (file (codes "cpuacct") (codes "cpuacct.usage_user")));
      system_usec = usec_of (int64_of (file (codes "cpuacct") (codes "cpuacct.usage_sys")));
    })

-- ReadCGroupCPUStats.
unfoldable pub read_cgroup_cpu_stats : CGroupVersion → Files → Text → CGroupCpuStats
unfolding cgroup_v1_cpu_stats
read_cgroup_cpu_stats v2 fs cgroup_path =
    parse_cpu_stat_file (v2_file fs cgroup_path (codes "cpu.stat")) false no_cpu_stats
read_cgroup_cpu_stats v1 fs cgroup_path = cgroup_v1_cpu_stats (v1_file fs cgroup_path)
