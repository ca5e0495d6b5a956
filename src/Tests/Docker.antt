-- ===== src/Tests/Docker.antt =====
-- The mounts and the layers of docker.
use mathlib.Core.List.{reverse}
use c_ray.Map.{text_key}
use c_ray.Prelude.{All, List, Option, [], false, length, map, none, refl, some, ◌<◌, ◌↔◌, ◌∷◌, ◌≡◌}
use c_ray.Runtime.Cri.{RuntimeMount}
use c_ray.Runtime.Cri.Merge.Covers.{HasRow}
use c_ray.Runtime.Docker.Mounts.{convert_docker_mount, merge_docker_mounts}
use c_ray.Runtime.Docker.Mounts.Shown.{merge_docker_mounts-shows}
use c_ray.Runtime.Docker.Overlay.{
  OverlayLayerDir, overlay2_cache_id, overlay2_short_link, raw_dirs, resolve_overlay2_layer_dirs,
  resolve_overlay2_layers,
}
use c_ray.Runtime.Docker.Overlay.Layers.{IsNormalized, paired, resolve_overlay2_layers-paired}
use c_ray.Text.Basic.{Text, codes, has_prefix}
use c_ray.Text.Path.{clean}
use c_ray.Text.Trim.{is_space}

abbrev docker_mount : RuntimeMount
docker_mount = convert_docker_mount (record {
  source = codes "/srv/data";
  destination = codes "/data";
  point_type = codes "bind";
  mode = [];
  rw = false;
  propagation = codes "rprivate";
})

abbrev row_of : Text → RuntimeMount
row_of destination = record docker_mount { destination = destination; options = [] }

-- A declared mount takes the spec mount and the live mount at its destination; the others follow.
merge_docker_mounts_test :
    map
      (λ (m : RuntimeMount). m.destination)
      (merge_docker_mounts
        (docker_mount ∷ [])
        (row_of (codes "/proc") ∷ row_of (codes "/data/") ∷ [])
        (row_of (codes "/data") ∷ row_of (codes "/sys") ∷ []))
    ≡ codes "/data" ∷ codes "/proc" ∷ codes "/sys" ∷ []
unfolding merge_docker_mounts convert_docker_mount has_prefix
merge_docker_mounts_test = refl

merge_docker_mounts-shows_example :
    All
      (λ (m : RuntimeMount).
        HasRow
          (merge_docker_mounts
            (docker_mount ∷ [])
            (row_of (codes "/proc") ∷ [])
            (row_of (codes "/data") ∷ []))
          m.destination)
      (docker_mount ∷ [])
    × All
        (λ (m : RuntimeMount).
          HasRow
            (merge_docker_mounts
              (docker_mount ∷ [])
              (row_of (codes "/proc") ∷ [])
              (row_of (codes "/data") ∷ []))
            m.destination)
        (row_of (codes "/proc") ∷ [])
    × All
        (λ (m : RuntimeMount).
          HasRow
            (merge_docker_mounts
              (docker_mount ∷ [])
              (row_of (codes "/proc") ∷ [])
              (row_of (codes "/data") ∷ []))
            m.destination)
        (row_of (codes "/data") ∷ [])
merge_docker_mounts-shows_example =
    merge_docker_mounts-shows (docker_mount ∷ []) (row_of (codes "/proc") ∷ [])
      (row_of (codes "/data") ∷ [])

short_link_test :
    overlay2_short_link (codes "/var/lib/docker/overlay2/l/ABC")
    ≡ (codes "ABC", codes "/var/lib/docker/overlay2/l/ABC")
unfolding overlay2_short_link clean
short_link_test = refl

cache_id_test : overlay2_cache_id (codes "/var/lib/docker/overlay2/f00/diff") ≡ codes "f00"
unfolding overlay2_cache_id clean
cache_id_test = refl

-- A driver whose directories are what they are called.
abbrev plain_dir : Text → Option OverlayLayerDir
plain_dir [] = none
plain_dir (c ∷ path) = some (record { path = c ∷ path; short_link_id = []; short_link_path = [] })

abbrev upper_dir : Text
upper_dir = codes "/o/top/diff"

abbrev lower_dir : Text
lower_dir = codes "/o/mid/diff:/o/base/diff"

abbrev diff_ids : List Text
diff_ids = codes "sha256:1" ∷ codes "sha256:2" ∷ codes "sha256:3" ∷ []

abbrev path_at : Text → OverlayLayerDir
path_at path = record { path = path; short_link_id = []; short_link_path = [] }

abbrev dirs : List OverlayLayerDir
dirs =
    path_at (codes "/o/top/diff")
    ∷ path_at (codes "/o/mid/diff")
    ∷ path_at (codes "/o/base/diff")
    ∷ []

layers_test :
    resolve_overlay2_layers plain_dir upper_dir lower_dir diff_ids
    ≡ some (paired 0 diff_ids (reverse dirs))
unfolding resolve_overlay2_layers resolve_overlay2_layer_dirs is_space
layers_test = refl

-- One directory too few.
layers_short_test : resolve_overlay2_layers plain_dir [] lower_dir diff_ids ≡ none
unfolding resolve_overlay2_layers resolve_overlay2_layer_dirs is_space
layers_short_test = refl

resolve_overlay2_layers-paired_example :
    (resolve_overlay2_layers plain_dir upper_dir lower_dir diff_ids
      ≡ some (paired 0 diff_ids (reverse dirs)))
    ↔ ((ds : List OverlayLayerDir) × IsNormalized plain_dir (raw_dirs upper_dir lower_dir) ds
        × (length (raw_dirs upper_dir lower_dir) ≡ length diff_ids)
        × (0 < length diff_ids)
        × (paired 0 diff_ids (reverse dirs) ≡ paired 0 diff_ids (reverse ds)))
resolve_overlay2_layers-paired_example =
    resolve_overlay2_layers-paired plain_dir upper_dir lower_dir diff_ids
      (paired 0 diff_ids (reverse dirs))
