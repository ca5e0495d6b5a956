-- ===== src/Sysinfo/Fds/Kinds.antt =====
-- The two classifications of a link target agree, and the summary counts every link once.
use c_ray.Prelude.{
  List, Option, [], arith, false, if◌then◌else◌, none, some, true, ℕ, ◌+◌, ◌∷◌, ◌≡◌, ◌⊎◌,
}
use c_ray.Sysinfo.Fds.{classify_fd_target, classify_fd_target_detailed, count_up, fds_summary}
use c_ray.Text.Basic.{Text, codes, has_prefix, text_eq, text_eq_iff}

dev_is_file :
    (target : Text)
    → has_prefix (codes "/dev/") target ≡ true
    → classify_fd_target target ≡ codes "file"
unfolding classify_fd_target has_prefix
dev_is_file target h = ground arith

pts_is_dev :
    (target : Text)
    → has_prefix (codes "/dev/") target ≡ false
    → has_prefix (codes "/dev/pts/") target ≡ false
unfolding has_prefix
pts_is_dev target h = ground arith

detailed_elsewhere :
    (target : Text)
    → has_prefix (codes "/dev/") target ≡ false
    → (classify_fd_target_detailed target ≡ classify_fd_target target)
      ⊎ ((classify_fd_target_detailed target ≡ codes "unknown")
          × (classify_fd_target target ≡ codes "other"))
unfolding classify_fd_target classify_fd_target_detailed
detailed_elsewhere target h = grind (arith, pts_is_dev)

-- A target below /dev/ is a file to the short classification. On every other target both
-- classifications agree, or the detailed one says unknown where the short one says other.
pub classify_fd_target-detailed :
    (target : Text)
    → (has_prefix (codes "/dev/") target ≡ true → classify_fd_target target ≡ codes "file")
      × (has_prefix (codes "/dev/") target ≡ false
          → (classify_fd_target_detailed target ≡ classify_fd_target target)
            ⊎ ((classify_fd_target_detailed target ≡ codes "unknown")
                × (classify_fd_target target ≡ codes "other")))
classify_fd_target-detailed target = (dev_is_file target, detailed_elsewhere target)

-- The number of links of a kind in the map; a missing key is 0.
abbrev pub count_of : Text → List (Text × ℕ) → ℕ
count_of key [] = 0
count_of key ((k, n) ∷ counts) = if text_eq k key then n else count_of key counts

-- The key under which a link is counted.
abbrev pub link_kind : Option Text → Text
link_kind none = codes "other"
link_kind (some target) = classify_fd_target target

-- The number of links of a kind.
abbrev pub links_of : Text → List (Option Text) → ℕ
links_of key [] = 0
links_of key (l ∷ links) = (if text_eq (link_kind l) key then 1 else 0) + links_of key links

count_of-count_up :
    (key k : Text) (counts : List (Text × ℕ))
    → count_of key (count_up k counts) ≡ (if text_eq k key then 1 else 0) + count_of key counts
unfolding count_up
count_of-count_up key k [] = ground arith
count_of-count_up key k ((j, n) ∷ counts) =
    ground
      (arith, text_eq_iff j k, text_eq_iff j key, text_eq_iff k key, count_of-count_up key k counts)

count_of-fds_summary :
    (key : Text) (links : List (Option Text)) (counts : List (Text × ℕ))
    → count_of key (fds_summary links counts) ≡ links_of key links + count_of key counts
unfolding fds_summary
count_of-fds_summary key [] counts = omega arith
count_of-fds_summary key (none ∷ links) counts = ground (
  arith,
  count_of-fds_summary key links (count_up (codes "other") counts),
  count_of-count_up key (codes "other") counts,
)
count_of-fds_summary key (some t ∷ links) counts = ground (
  arith,
  count_of-fds_summary key links (count_up (classify_fd_target t) counts),
  count_of-count_up key (classify_fd_target t) counts,
)

-- The summary counts, for every kind, the links of that kind.
pub count_of-summary :
    (key : Text) (links : List (Option Text))
    → count_of key (fds_summary links []) ≡ links_of key links
count_of-summary key links = omega (arith, count_of-fds_summary key links [])
