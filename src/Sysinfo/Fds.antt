-- ===== src/Sysinfo/Fds.antt =====
-- The classification of file descriptors in pkg/sysinfo/procfs.go.
pub mod Kinds
use c_ray.Files.{Files}
use c_ray.Prelude.{List, Option, [], if◌then◌else◌, map, none, some, ℕ, ◌&&◌, ◌+◌, ◌==◌, ◌||◌, ◌∷◌}
use c_ray.Sysinfo.CGroupFile.Choice.{entries}
use c_ray.Text.Basic.{Text, codes, has_prefix, is_empty, text_eq, trim_prefix}
use c_ray.Text.Path.{join_path}

-- strings.Trim(s, "[]").
unfoldable pub trim_brackets_left : Text → Text
trim_brackets_left [] = []
trim_brackets_left (c ∷ s) = if c == b'[' || c == b']' then trim_brackets_left s else c ∷ s

unfoldable pub trim_brackets_right : Text → Text
trim_brackets_right [] = []
trim_brackets_right (c ∷ s) =
    let r = trim_brackets_right s in if is_empty r && (c == b'[' || c == b']') then [] else c ∷ r

unfoldable pub trim_brackets : Text → Text
unfolding trim_brackets_left trim_brackets_right
trim_brackets s = trim_brackets_right (trim_brackets_left s)

unfoldable pub classify_fd_target_detailed : Text → Text
classify_fd_target_detailed target =
    if has_prefix (codes "/dev/pts/") target
    then codes "pty"
    else if has_prefix (codes "/dev/") target
    then codes "char-device"
    else if has_prefix (codes "socket:") target
    then codes "socket"
    else if has_prefix (codes "pipe:") target
    then codes "pipe"
    else if has_prefix (codes "anon_inode:") target
    then trim_brackets (trim_prefix (codes "anon_inode:") target)
    else if has_prefix (codes "/") target
    then codes "file"
    else codes "unknown"

unfoldable pub classify_fd_target : Text → Text
classify_fd_target target =
    if has_prefix (codes "socket:") target
    then codes "socket"
    else if has_prefix (codes "pipe:") target
    then codes "pipe"
    else if has_prefix (codes "anon_inode:") target
    then trim_brackets (trim_prefix (codes "anon_inode:") target)
    else if has_prefix (codes "/") target
    then codes "file"
    else codes "other"

-- counts[key]++ on the map of the summary, an association list.
unfoldable pub count_up : Text → List (Text × ℕ) → List (Text × ℕ)
count_up key [] = (key, 1) ∷ []
count_up key ((k, n) ∷ counts) =
    if text_eq k key then (k, n + 1) ∷ counts else (k, n) ∷ count_up key counts

-- The loop of ReadOpenFDsSummary; a link that cannot be read is none.
unfoldable pub fds_summary : List (Option Text) → List (Text × ℕ) → List (Text × ℕ)
unfolding count_up
fds_summary [] counts = counts
fds_summary (none ∷ links) counts = fds_summary links (count_up (codes "other") counts)
fds_summary (some target ∷ links) counts =
    fds_summary links (count_up (classify_fd_target target) counts)

-- ReadOpenFDsSummary; none is the error that the directory cannot be read.
unfoldable pub read_open_fds_summary : Files → Text → Option (List (Text × ℕ))
unfolding fds_summary
read_open_fds_summary fs fd_dir = elim (fs.read_dir fd_dir) [
  | none ↦ none
  | some entries ↦
      some (fds_summary (map (λ e. fs.read_link (join_path (fd_dir ∷ e.name ∷ []))) entries) [])
]
