-- ===== src/Tests/Proc.antt =====
-- Files of /proc/[pid].
use c_ray.Files.{Files}
use c_ray.Prelude.{List, [], false, refl, true, ℕ, ◌∷◌, ◌≡◌, ◌⊎◌}
use c_ray.Prelude.Int.{pos}
use c_ray.Result.{ok}
use c_ray.Sysinfo.CGroupFile.{read_cgroup_path}
use c_ray.Sysinfo.CGroupFile.Choice.{
  entries, first_path, first_preferred, or_else, read_cgroup_path-choice,
}
use c_ray.Sysinfo.Fds.{classify_fd_target, classify_fd_target_detailed}
use c_ray.Sysinfo.Fds.Kinds.{classify_fd_target-detailed}
use c_ray.Sysinfo.Listening.{is_seen, net_files, read_listening_ports}
use c_ray.Sysinfo.Listening.Ports.{IsDistinct, is_in_files, read_listening_ports-IsDistinct}
use c_ray.Sysinfo.Proc.{
  fill_process, new_process, read_cmdline_raw, read_process, read_stat_fields, with_cmdline,
  with_stat,
}
use c_ray.Sysinfo.Proc.Frame.{SameStat, read_process-SameStat}
use c_ray.Sysinfo.Stat.{ProcStatFields, parse_proc_stat}
use c_ray.Sysinfo.Types.{Process}
use c_ray.Tests.Words.{files_of}
use c_ray.Text.Basic.{Text, codes, has_prefix, text_eq}
use c_ray.Text.Number.{itoa, itoa_int, parse_int, parse_uint}
use c_ray.Text.Path.{join_path}
use c_ray.Text.Split.{split}
use c_ray.Text.Trim.{is_space}

abbrev no_rate : ℕ
no_rate = 0

read_cgroup_path-choice_example :
    read_cgroup_path (codes "3:cpu:/a\n2:memory:/b\n0::/c\n")
    ≡ or_else
        (first_preferred (entries (split b'\n' (codes "3:cpu:/a\n2:memory:/b\n0::/c\n"))))
        (first_path (entries (split b'\n' (codes "3:cpu:/a\n2:memory:/b\n0::/c\n"))))
read_cgroup_path-choice_example = read_cgroup_path-choice (codes "3:cpu:/a\n2:memory:/b\n0::/c\n")

classify_fd_target-detailed_example :
    (has_prefix (codes "/dev/") (codes "/dev/null") ≡ true
      → classify_fd_target (codes "/dev/null") ≡ codes "file")
    × (has_prefix (codes "/dev/") (codes "/dev/null") ≡ false
        → (classify_fd_target_detailed (codes "/dev/null") ≡ classify_fd_target (codes "/dev/null"))
          ⊎ ((classify_fd_target_detailed (codes "/dev/null") ≡ codes "unknown")
              × (classify_fd_target (codes "/dev/null") ≡ codes "other")))
classify_fd_target-detailed_example = classify_fd_target-detailed (codes "/dev/null")

abbrev tcp_files : Files
tcp_files = files_of ((codes "/net/tcp", codes "head\n 0: 0100007F:0050 00000000:0000 0A\n") ∷ [])

read_listening_ports-IsDistinct_example :
    IsDistinct (read_listening_ports tcp_files (codes "/net"))
    × (is_seen (codes "tcp:80") (read_listening_ports tcp_files (codes "/net"))
        ≡ is_in_files (codes "tcp:80") (net_files tcp_files (codes "/net")))
read_listening_ports-IsDistinct_example =
    read_listening_ports-IsDistinct tcp_files (codes "/net") (codes "tcp:80")

abbrev dev_text : Text
dev_text = codes "Inter-|\n face |\n  eth0: 1 2 3 4 5 6 7 8 9 10 11 12 13 14 15 16\n"

abbrev sixteen : List ℕ
sixteen = 1 ∷ 2 ∷ 3 ∷ 4 ∷ 5 ∷ 6 ∷ 7 ∷ 8 ∷ 9 ∷ 10 ∷ 11 ∷ 12 ∷ 13 ∷ 14 ∷ 15 ∷ 16 ∷ []

abbrev small_file : Text
small_file = codes "7 (sh) S 3 1 1 0 -1 4 5 6 7 8 42 43 0"

abbrev stat_files : Files
stat_files = files_of ((codes "/proc/7/stat", small_file) ∷ [])

abbrev read_7 : Process ℕ
read_7 = record (new_process 0 (pos 7)) {
  command = codes "[7]";
  state = codes "S";
  ppid = pos 3;
  utime = 42;
  stime = 43;
}

read_process-7 : read_process no_rate stat_files (codes "/proc") (pos 7) ≡ ok read_7
unfolding read_process read_stat_fields fill_process read_cmdline_raw with_cmdline join_path
    itoa_int itoa text_eq parse_proc_stat is_space parse_int parse_uint
read_process-7 = refl

read_process-SameStat_example :
    (st : ProcStatFields) × (read_stat_fields stat_files (codes "/proc") (pos 7) ≡ ok st)
    × SameStat (with_stat st (new_process no_rate (pos 7))) read_7
read_process-SameStat_example =
    read_process-SameStat no_rate stat_files (codes "/proc") (pos 7) read_process-7
