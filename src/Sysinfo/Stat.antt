-- ===== src/Sysinfo/Stat.antt =====
-- parseProcStat of pkg/sysinfo/procfs.go: one line of /proc/[pid]/stat.
pub mod RoundTrip
pub mod Panic
use c_ray.Prelude.{List, [], get_or, if◌then◌else◌, length, ltb, none, not, some, ℕ, ◌∷◌}
use c_ray.Prelude.Int.{ℤ}
use c_ray.Result.{Result, err, ok, or_fail, panic, ◌>>=◌}
use c_ray.Text.Basic.{Text, after_last, contains_char}
use c_ray.Text.Fields.{fields}
use c_ray.Text.Number.{atoi, if_parsed, parse_uint}

pub record ProcStatFields : Type 0 where
  pub state : Text
  pub ppid : ℤ
  pub utime : ℕ
  pub stime : ℕ

pub data StatError : Type 0 where
  read_failed : StatError
  invalid_stat_format : StatError
  insufficient_fields : StatError
  invalid_ppid : StatError
  invalid_utime : StatError
  invalid_stime : StatError

-- The numbers among the fields.
abbrev stat_numbers : List Text → Result StatError ProcStatFields
stat_numbers ws = do
  ppid ← or_fail invalid_ppid (if_parsed (atoi (get_or ws 1 [])))
  utime ← or_fail invalid_utime (if_parsed (parse_uint 10 64 (get_or ws 11 [])))
  stime ← or_fail invalid_stime (if_parsed (parse_uint 10 64 (get_or ws 12 [])))
  ok (record { state = get_or ws 0 []; ppid = ppid; utime = utime; stime = stime })

-- The fields behind the command; `get_or` reads in bounds, since there are 13 at least.
unfoldable pub stat_fields : List Text → Result StatError ProcStatFields
stat_fields ws = if ltb (length ws) 13 then err insufficient_fields else stat_numbers ws

-- content[endIdx+2:], from what stands behind the last ')': the slice is out of range if nothing
-- stands there.
unfoldable pub behind_command : Text → Result StatError ProcStatFields
unfolding stat_fields fields
behind_command [] = panic
behind_command (c ∷ s) = stat_fields (fields s)

unfoldable pub parse_proc_stat : Text → Result StatError ProcStatFields
unfolding behind_command contains_char after_last
parse_proc_stat content =
    if not (contains_char b'(' content)
    then err invalid_stat_format
    else elim (after_last b')' content) [
      | none ↦ err invalid_stat_format
      | some s ↦ behind_command s
    ]
