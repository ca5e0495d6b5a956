-- ===== src/Sysinfo/Proc.antt =====
-- The ProcReader of pkg/sysinfo/procfs.go: the files that it opens, and ReadProcess.
pub mod Frame
use c_ray.Files.{DirEntry, Files}
use c_ray.Prelude.{List, Option, [], if◌then◌else◌, none, not, select, some, ◌++◌, ◌∷◌}
use c_ray.Prelude.Int.{pos, ℤ}
use c_ray.Result.{Result, err, ok, ◌>>=◌}
use c_ray.Sysinfo.Stat.{ProcStatFields, StatError, parse_proc_stat, read_failed}
use c_ray.Sysinfo.Status.{read_io, read_status}
use c_ray.Sysinfo.Types.{Process}
use c_ray.Text.Basic.{Text, codes, is_empty}
use c_ray.Text.Number.{atoi, if_parsed, itoa_int}
use c_ray.Text.Path.{base, join_path}
use c_ray.Text.Split.{split}

-- filepath.Join(r.procRoot, strconv.Itoa(pid), names...).
abbrev pub pid_path : Text → ℤ → List Text → Text
pid_path root pid names = join_path (root ∷ itoa_int pid ∷ names)

-- ReadCmdlineRaw on the text of the file; none is the error of an empty command line.
abbrev pub non_empty_args : List Text → Option (List Text)
non_empty_args [] = none
non_empty_args (a ∷ args) = some (a ∷ args)

unfoldable pub cmdline_args : Text → Option (List Text)
cmdline_args content = non_empty_args (select (λ part. not (is_empty part)) (split 0 content))

unfoldable pub read_cmdline_raw : Files → Text → ℤ → Option (List Text)
unfolding cmdline_args
read_cmdline_raw fs root pid = elim (fs.read_file (pid_path root pid (codes "cmdline" ∷ []))) [
  | none ↦ none
  | some content ↦ cmdline_args content
]

unfoldable pub read_stat_fields : Files → Text → ℤ → Result StatError ProcStatFields
read_stat_fields fs root pid = elim (fs.read_file (pid_path root pid (codes "stat" ∷ []))) [
  | none ↦ err read_failed
  | some content ↦ parse_proc_stat content
]

-- GetProcessPPID.
unfoldable pub get_process_ppid : Files → Text → ℤ → Result StatError ℤ
get_process_ppid fs root pid = do st ← read_stat_fields fs root pid; ok st.ppid

module _ {V : Type 0} where
  -- A process of which only the PID is known.
  abbrev pub new_process : V → ℤ → Process V
  new_process z pid = record {
    pid = pid;
    ppid = pos 0;
    host_pid = pos 0;
    host_ppid = pos 0;
    command = [];
    args = [];
    state = [];
    utime = 0;
    stime = 0;
    memory_rss = 0;
    memory_vms = 0;
    read_bytes = 0;
    write_bytes = 0;
    read_ops = 0;
    write_ops = 0;
    cpu_percent = z;
    memory_percent = z;
    read_bytes_per_sec = z;
    write_bytes_per_sec = z;
  }

  -- The end of readStat.
  abbrev pub with_stat : ProcStatFields → Process V → Process V
  with_stat st p = record p { state = st.state; ppid = st.ppid; utime = st.utime; stime = st.stime }

  -- The end of readCmdline; on an error ReadProcess names the process by its PID.
  unfoldable pub with_cmdline : Option (List Text) → Process V → Process V
  with_cmdline none p = record p { command = b'[' ∷ (itoa_int p.pid ++ codes "]") }
  with_cmdline (some []) p = p
  with_cmdline (some (a ∷ [])) p = record p { command = base a }
  with_cmdline (some (a ∷ b ∷ args)) p = record p { command = base a; args = b ∷ args }

  -- A reader that leaves the process alone where its file cannot be opened.
  abbrev pub on_file : Option Text → (Text → Process V → Process V) → Process V → Process V
  on_file none read p = p
  on_file (some content) read p = read content p

  -- What ReadProcess does behind readStat: the errors of the other readers are not fatal.
  unfoldable pub fill_process : Files → Text → ℤ → Process V → Process V
  unfolding with_cmdline
  fill_process fs root pid p =
      let named = with_cmdline (read_cmdline_raw fs root pid) p in
      let sized =
        on_file (fs.read_file (pid_path root pid (codes "status" ∷ []))) read_status named in
      on_file (fs.read_file (pid_path root pid (codes "io" ∷ []))) read_io sized

  -- ReadProcess.
  unfoldable pub read_process : V → Files → Text → ℤ → Result StatError (Process V)
  read_process z fs root pid = do
    st ← read_stat_fields fs root pid
    ok (fill_process fs root pid (with_stat st (new_process z pid)))

-- The PID that a directory entry stands for.
abbrev pub entry_pid : DirEntry → Option ℤ
entry_pid e = if e.is_dir then if_parsed (atoi e.name) else none

unfoldable pub entry_pids : List DirEntry → List ℤ
entry_pids [] = []
entry_pids (e ∷ es) = elim (entry_pid e) [ none ↦ entry_pids es | some n ↦ n ∷ entry_pids es ]

-- ListPIDs; none is the error that the directory cannot be read.
unfoldable pub list_pids : Files → Text → Option (List ℤ)
unfolding entry_pids
list_pids fs root = elim (fs.read_dir root) [ none ↦ none | some es ↦ some (entry_pids es) ]
