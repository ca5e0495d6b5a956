-- ===== src/Sysinfo/Types.antt =====
-- The data of pkg/sysinfo/types.go. `V` is the type of the floating-point numbers. The children of a
-- process are pointers; Sysinfo.Tree keeps them as lists of PIDs.
use c_ray.Prelude.{List, ℕ}
use c_ray.Prelude.Int.{ℤ}
use c_ray.Text.Basic.{Text}

pub record Process (V : Type 0) : Type 0 where
  pub pid : ℤ
  pub ppid : ℤ
  pub host_pid : ℤ
  pub host_ppid : ℤ
  pub command : Text
  pub args : List Text
  pub state : Text
  pub utime : ℕ
  pub stime : ℕ
  pub memory_rss : ℕ
  pub memory_vms : ℕ
  pub read_bytes : ℕ
  pub write_bytes : ℕ
  pub read_ops : ℕ
  pub write_ops : ℕ
  pub cpu_percent : V
  pub memory_percent : V
  pub read_bytes_per_sec : V
  pub write_bytes_per_sec : V

pub record NetworkStats (V : Type 0) : Type 0 where
  pub interface : Text
  pub rx_bytes : ℕ
  pub tx_bytes : ℕ
  pub rx_packets : ℕ
  pub tx_packets : ℕ
  pub rx_errors : ℕ
  pub tx_errors : ℕ
  pub rx_dropped : ℕ
  pub tx_dropped : ℕ
  pub rx_bytes_per_sec : V
  pub tx_bytes_per_sec : V

pub record CGroupLimits : Type 0 where
  pub cpu_quota : ℤ
  pub cpu_period : ℤ
  pub cpu_shares : ℤ
  pub memory_limit : ℤ
  pub memory_usage : ℤ
  pub pids_limit : ℤ
  pub pids_current : ℤ
  pub blkio_weight : ℕ

pub record Mount : Type 0 where
  pub source : Text
  pub destination : Text
  pub fs_type : Text
  pub options : List Text
