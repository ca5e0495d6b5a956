-- ===== src/Sysinfo/Proc/Frame.antt =====
-- The readers behind readStat leave its fields alone.
use mathlib.Core.List.{foldl}
use c_ray.Files.{Files, scan_lines}
use c_ray.Prelude.{
  List, Option, Option-cases, [], arith, inl, inr, none, refl, some, subst, ◌↔◌, ◌∙◌, ◌∷◌, ◌≡◌,
}
use c_ray.Prelude.Int.{ℤ}
use c_ray.Result.{>>=-eq-ok, err, ok, ok-injective, panic}
use c_ray.Sysinfo.Proc.{
  fill_process, new_process, on_file, pid_path, read_cmdline_raw, read_process, read_stat_fields,
  with_cmdline, with_stat,
}
use c_ray.Sysinfo.Stat.{ProcStatFields, StatError}
use c_ray.Sysinfo.Status.{io_entry, io_line, read_io, read_status, status_entry, status_line}
use c_ray.Sysinfo.Types.{Process}
use c_ray.Text.Basic.{Text, codes}
use c_ray.Text.Split.{cut}
use c_ray.Text.Trim.{trim_space}
use c_ray.Views.Merged.Fate.{step}

-- The two processes have the identity and the times that readStat read.
pub record SameStat {V : Type 0} (p q : Process V) : Type 0 where
  pub pid_eq : q.pid ≡ p.pid
  pub ppid_eq : q.ppid ≡ p.ppid
  pub state_eq : q.state ≡ p.state
  pub utime_eq : q.utime ≡ p.utime
  pub stime_eq : q.stime ≡ p.stime

module _ {V : Type 0} where
  SameStat-refl : (p : Process V) → SameStat p p
  SameStat-refl p = record {
    pid_eq = refl;
    ppid_eq = refl;
    state_eq = refl;
    utime_eq = refl;
    stime_eq = refl;
  }

  SameStat-trans : (p q r : Process V) → SameStat p q → SameStat q r → SameStat p r
  SameStat-trans p q r h k = record {
    pid_eq = k.pid_eq ∙ h.pid_eq;
    ppid_eq = k.ppid_eq ∙ h.ppid_eq;
    state_eq = k.state_eq ∙ h.state_eq;
    utime_eq = k.utime_eq ∙ h.utime_eq;
    stime_eq = k.stime_eq ∙ h.stime_eq;
  }

  status_entry-SameStat : (key value : Text) (p : Process V) → SameStat p (status_entry key value p)
  unfolding status_entry
  status_entry-SameStat key value p = ground arith

  io_entry-SameStat : (key value : Text) (p : Process V) → SameStat p (io_entry key value p)
  unfolding io_entry
  io_entry-SameStat key value p = ground arith

  status_line-SameStat : (p : Process V) (line : Text) → SameStat p (status_line p line)
  unfolding status_line
  status_line-SameStat p line = elim (Option-cases (cut b':' line)) [
    | inl e ↦ rw (e, status_line) (SameStat-refl p)
    | inr ((k, v), e) ↦ rw (e, status_line) (status_entry-SameStat (trim_space k) (trim_space v) p)
  ]

  io_line-SameStat : (p : Process V) (line : Text) → SameStat p (io_line p line)
  unfolding io_line
  io_line-SameStat p line = elim (Option-cases (cut b':' line)) [
    | inl e ↦ rw (e, io_line) (SameStat-refl p)
    | inr ((k, v), e) ↦ rw (e, io_line) (io_entry-SameStat (trim_space k) (trim_space v) p)
  ]

  foldl-SameStat :
      (step : Process V → Text → Process V)
      → ((p : Process V) (line : Text) → SameStat p (step p line))
      → (lines : List Text) (p : Process V) → SameStat p (foldl step p lines)
  foldl-SameStat step keep [] p = SameStat-refl p
  foldl-SameStat step keep (l ∷ lines) p =
      SameStat-trans p (step p l) (foldl step (step p l) lines) (keep p l)
        (foldl-SameStat step keep lines (step p l))

  on_file-SameStat :
      (file : Option Text) (read : Text → Process V → Process V) (p : Process V)
      → ((content : Text) → SameStat p (read content p))
      → SameStat p (on_file file read p)
  on_file-SameStat none read p keep = SameStat-refl p
  on_file-SameStat (some content) read p keep = keep content

  with_cmdline-SameStat :
      (args : Option (List Text)) (p : Process V) → SameStat p (with_cmdline args p)
  unfolding with_cmdline
  with_cmdline-SameStat args p = ground arith

  fill_process-SameStat :
      (fs : Files) (root : Text) (pid : ℤ) (p : Process V) → SameStat p (fill_process fs root pid p)
  unfolding fill_process read_status read_io
  fill_process-SameStat fs root pid p =
      let status = fs.read_file (pid_path root pid (codes "status" ∷ [])) in
      let io = fs.read_file (pid_path root pid (codes "io" ∷ [])) in
      let named = with_cmdline (read_cmdline_raw fs root pid) p in
      let sized = on_file status read_status named in
      SameStat-trans p sized (on_file io read_io sized)
        (SameStat-trans p named sized (with_cmdline-SameStat (read_cmdline_raw fs root pid) p) (
          on_file-SameStat status read_status named (λ content.
            foldl-SameStat status_line status_line-SameStat (scan_lines content) named)))
        (on_file-SameStat io read_io sized
          (λ content. foldl-SameStat io_line io_line-SameStat (scan_lines content) sized))

  -- A process that ReadProcess returns has the PID that was asked for, and the state, the parent and
  -- the times of its stat file.
  pub read_process-SameStat :
      (z : V) (fs : Files) (root : Text) (pid : ℤ) {p : Process V}
      → read_process z fs root pid ≡ ok p
      → (st : ProcStatFields) × (read_stat_fields fs root pid ≡ ok st)
        × SameStat (with_stat st (new_process z pid)) p
  unfolding read_process
  read_process-SameStat z fs root pid {p} h =
      let (st, e, f) =
        >>=-eq-ok (read_stat_fields fs root pid)
          (λ st. ok (fill_process fs root pid (with_stat st (new_process z pid)))) h in
      (
        st,
        e,
        subst (SameStat (with_stat st (new_process z pid))) (ok-injective f)
            (fill_process-SameStat fs root pid (with_stat st (new_process z pid))),
      )

  pub read_process-fails :
      (z : V) (fs : Files) (root : Text) (pid : ℤ)
      → ((e : StatError)
          → (read_process z fs root pid ≡ err e) ↔ (read_stat_fields fs root pid ≡ err e))
        × ((read_process z fs root pid ≡ panic) ↔ (read_stat_fields fs root pid ≡ panic))
  unfolding read_process
  read_process-fails z fs root pid = ground arith
