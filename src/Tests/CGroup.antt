-- ===== src/Tests/CGroup.antt =====
-- The files of a cgroup.
use mathlib.Core.List.{foldl}
use c_ray.Prelude.{Option, [], arith, false, none, refl, some, ℕ, ◌++◌, ◌∷◌, ◌≡◌}
use c_ray.Prelude.Int.{pos}
use c_ray.Sysinfo.CGroup.{CGroupCpuStats, cgroup_v2_limits, cpu_stat_entry, parse_cpu_stat}
use c_ray.Sysinfo.CGroup.CpuStat.{parse_cpu_stat-stat_file, stat_file}
use c_ray.Sysinfo.CGroup.Limits.{
  V2Files, cgroup_v2_limits-V2Files, cpu_max_file, max_file, number_file,
}
use c_ray.Tests.Words.{file_in, is_solid, test-IsWord}
use c_ray.Text.Basic.{Text, codes, contains_char, text_eq}
use c_ray.Text.Suffix.{contains_char-Lacks}
use c_ray.Text.Trim.{is_space}

abbrev cgroup_files : Text → Option Text
cgroup_files = file_in (
    (codes "cpu.max", cpu_max_file none 100000)
    ∷ (codes "cpu.weight", number_file 100)
    ∷ (codes "memory.max", max_file (some 4096))
    ∷ (codes "memory.current", number_file 1024)
    ∷ (codes "pids.max", max_file none)
    ∷ (codes "pids.current", number_file 5)
    ∷ (codes "io.weight", codes "default " ++ number_file 100)
    ∷ [])

cgroup_files-V2Files : V2Files cgroup_files
unfolding text_eq
cgroup_files-V2Files = record {
  quota = none;
  period = 100000;
  weight = 100;
  memory_max = some 4096;
  memory_current = 1024;
  pids_max = none;
  pids_current = 5;
  io_weight = 100;
  quota_fits = tt;
  period_fits = omega arith;
  weight_fits = omega arith;
  memory_max_fits = omega arith;
  memory_current_fits = omega arith;
  pids_max_fits = tt;
  pids_current_fits = omega arith;
  io_weight_fits = omega arith;
  cpu_max_is = refl;
  cpu_weight_is = refl;
  memory_max_is = refl;
  memory_current_is = refl;
  pids_max_is = refl;
  pids_current_is = refl;
  io_weight_is = refl;
}

cgroup_v2_limits-V2Files_example : cgroup_v2_limits cgroup_files ≡ record {
  cpu_quota = pos 0;
  cpu_period = pos 100000;
  cpu_shares = pos 100;
  memory_limit = pos 4096;
  memory_usage = pos 1024;
  pids_limit = pos 0;
  pids_current = pos 5;
  blkio_weight = 100;
}
unfolding cgroup_files-V2Files
cgroup_v2_limits-V2Files_example = cgroup_v2_limits-V2Files cgroup_files cgroup_files-V2Files

abbrev no_stats : CGroupCpuStats
no_stats = record {
  usage_usec = 0;
  user_usec = 0;
  system_usec = 0;
  nr_periods = 0;
  nr_throttled = 0;
  throttled_usec = 0;
}

parse_cpu_stat-stat_file_example :
    parse_cpu_stat (stat_file ((codes "nr_periods", 3) ∷ [])) false no_stats
    ≡ foldl
        (λ s (e : Text × ℕ). cpu_stat_entry false e.0 e.1 s)
        no_stats
        ((codes "nr_periods", 3) ∷ [])
parse_cpu_stat-stat_file_example =
    parse_cpu_stat-stat_file false (codes "nr_periods", 3) [] no_stats
      (
        (
          test-IsWord b'n' (codes "r_periods") (unfold is_solid is_space in refl),
          contains_char-Lacks b'\n' (codes "nr_periods") (unfold contains_char in refl),
          omega arith,
        ),
        tt,
      )
