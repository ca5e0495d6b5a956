-- ===== src/Files.antt =====
-- The file system as the program sees it: what os.ReadFile, os.Readlink, os.ReadDir and os.Stat
-- return. It is a parameter of every reader. bufio.Scanner is modelled on the text of the file.
use c_ray.Prelude.{Bool, List, Option, [], false, if◌then◌else◌, map, true, ◌==◌, ◌∷◌}
use c_ray.Text.Basic.{Text}
use c_ray.Text.Split.{cons_head}

-- A directory entry: its name, and whether it is a directory.
pub record DirEntry : Type 0 where
  pub name : Text
  pub is_dir : Bool

pub record Files : Type 0 where
  pub read_file : Text → Option Text
  pub read_link : Text → Option Text
  pub read_dir : Text → Option (List DirEntry)
  pub exists : Text → Bool

-- A line without the carriage return at its end.
unfoldable pub drop_cr : Text → Text
drop_cr [] = []
drop_cr (c ∷ []) = if c == 13 then [] else c ∷ []
drop_cr (c ∷ d ∷ s) = c ∷ drop_cr (d ∷ s)

-- The lines of a text; behind the last newline there is a line only if it is not empty.
unfoldable pub raw_lines : Text → List Text
raw_lines [] = []
raw_lines (c ∷ s) = elim (c == 10) [ true ↦ [] ∷ raw_lines s | false ↦ cons_head c (raw_lines s) ]

-- What the Scan loop of bufio.Scanner reads.
unfoldable pub scan_lines : Text → List Text
unfolding drop_cr raw_lines
scan_lines s = map drop_cr (raw_lines s)
