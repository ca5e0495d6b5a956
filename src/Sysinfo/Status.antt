-- ===== src/Sysinfo/Status.antt =====
-- The readers of /proc/[pid]/status and /proc/[pid]/io in pkg/sysinfo/procfs.go, on the text of the
-- file.
pub mod Memory
pub mod NSpid
use mathlib.Core.List.{foldl}
use c_ray.Files.{scan_lines}
use c_ray.Prelude.{Bool, List, Option, [], false, if◌then◌else◌, none, some, ℕ, ◌%◌, ◌*◌, ◌^◌, ◌∷◌}
use c_ray.Prelude.Int.{ℤ}
use c_ray.Result.{Result, err, ok, or_fail, ◌>>=◌}
use c_ray.Sysinfo.Types.{Process}
use c_ray.Text.Basic.{Text, codes, has_prefix, text_eq}
use c_ray.Text.Fields.{fields}
use c_ray.Text.Letters.{to_lower}
use c_ray.Text.Number.{atoi, if_parsed, parse_uint}
use c_ray.Text.Split.{split_2}
use c_ray.Text.Trim.{trim_space}

-- `len(parts) > 1 && strings.ToLower(parts[1]) == "kb"`, on the fields behind the number.
unfoldable pub unit_is_kb : List Text → Bool
unit_is_kb [] = false
unit_is_kb (u ∷ us) = text_eq (to_lower u) (codes "kb")

-- parseMemorySize: "12345 kB" in bytes. The product is computed in 64 bits.
unfoldable pub memory_size : List Text → Option ℕ
memory_size [] = none
memory_size (w ∷ ws) = elim (if_parsed (parse_uint 10 64 w)) [
  | none ↦ none
  | some size ↦ some (if unit_is_kb ws then (size * 1024) % 2 ^ 64 else size)
]

unfoldable pub parse_memory_size : Text → Option ℕ
unfolding memory_size unit_is_kb
parse_memory_size s = memory_size (fields s)

module _ {V : Type 0} where
  -- The switch of readStatus.
  unfoldable pub status_entry : Text → Text → Process V → Process V
  status_entry key value p =
      if text_eq key (codes "VmRSS")
      then elim (parse_memory_size value) [ none ↦ p | some size ↦ record p { memory_rss = size } ]
      else if text_eq key (codes "VmSize")
      then elim (parse_memory_size value) [ none ↦ p | some size ↦ record p { memory_vms = size } ]
      else p

  -- One round of the loop of readStatus.
  unfoldable pub status_line : Process V → Text → Process V
  unfolding status_entry
  status_line p line = elim (split_2 b':' line) [
    | none ↦ p
    | some (k, v) ↦ status_entry (trim_space k) (trim_space v) p
  ]

  -- readStatus, on the text of the file.
  unfoldable pub read_status : Text → Process V → Process V
  unfolding status_line scan_lines
  read_status content p = foldl status_line p (scan_lines content)

  -- The switch of readIO.
  unfoldable pub io_entry : Text → Text → Process V → Process V
  io_entry key value p =
      let number = if_parsed (parse_uint 10 64 value) in
      if text_eq key (codes "read_bytes")
      then elim number [ none ↦ p | some n ↦ record p { read_bytes = n } ]
      else if text_eq key (codes "write_bytes")
      then elim number [ none ↦ p | some n ↦ record p { write_bytes = n } ]
      else if text_eq key (codes "syscr")
      then elim number [ none ↦ p | some n ↦ record p { read_ops = n } ]
      else if text_eq key (codes "syscw")
      then elim number [ none ↦ p | some n ↦ record p { write_ops = n } ]
      else p

  -- One round of the loop of readIO.
  unfoldable pub io_line : Process V → Text → Process V
  unfolding io_entry
  io_line p line = elim (split_2 b':' line) [
    | none ↦ p
    | some (k, v) ↦ io_entry (trim_space k) (trim_space v) p
  ]

  -- readIO, on the text of the file.
  unfoldable pub read_io : Text → Process V → Process V
  unfolding io_line scan_lines
  read_io content p = foldl io_line p (scan_lines content)

pub data StatusError : Type 0 where
  status_unreadable : StatusError
  field_not_found : StatusError
  invalid_value : StatusError

-- ReadThreadCount, on the lines of the file.
unfoldable pub read_thread_count : List Text → Result StatusError ℤ
unfolding has_prefix
read_thread_count [] = err field_not_found
read_thread_count (line ∷ lines) =
    if has_prefix (codes "Threads:") line
    then elim (split_2 b':' line) [
      | none ↦ read_thread_count lines
      | some (k, v) ↦ or_fail invalid_value (if_parsed (atoi (trim_space v)))
    ]
    else read_thread_count lines

-- The loop of ReadNSpid over the fields of the line.
unfoldable pub parse_pids : List Text → Result StatusError (List ℤ)
parse_pids [] = ok []
parse_pids (f ∷ fs) = do
  n ← or_fail invalid_value (if_parsed (atoi f))
  pids ← parse_pids fs
  ok (n ∷ pids)

-- The line that begins with "NSpid:".
unfoldable pub nspid_line : Text → Result StatusError (List ℤ)
unfolding parse_pids
nspid_line line = elim (split_2 b':' line) [
  | none ↦ err field_not_found
  | some (k, v) ↦ parse_pids (fields v)
]

-- ReadNSpid, on the lines of the file.
unfoldable pub read_nspid : List Text → Result StatusError (List ℤ)
unfolding nspid_line has_prefix
read_nspid [] = err field_not_found
read_nspid (line ∷ lines) =
    if has_prefix (codes "NSpid:") line then nspid_line line else read_nspid lines
