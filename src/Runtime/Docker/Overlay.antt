-- ===== src/Runtime/Docker/Overlay.antt =====
-- The layers of classic docker images, of pkg/runtime/docker/image.go: the directories of the overlay2
-- driver and the diff IDs that they belong to. The sizes that DirDiskUsage counts are left out.
pub mod Layers
-- What os.Lstat and EvalSymlinks tell of a path: nothing, no link, or a link and where it leads, if it
-- leads somewhere.
use c_ray.Files.{Files}
use c_ray.Prelude.{
  List, Option, [], get_elem?, if◌then◌else◌, length, ltb, map, none, not, select, some, ℕ, ◌&&◌,
  ◌++◌, ◌+◌, ◌-◌, ◌==◌, ◌||◌, ◌∷◌,
}
use c_ray.Text.Basic.{Text, codes, is_empty, text_eq}
use c_ray.Text.Path.{base, clean, dir, join_path}
use c_ray.Text.Split.{split}
use c_ray.Text.Trim.{trim_space}

pub data PathKind : Type 0 where
  missing regular : PathKind
  symlink : Option Text → PathKind

pub record OverlayLayerDir : Type 0 where
  pub path : Text
  pub short_link_id : Text
  pub short_link_path : Text

-- The loop of overlay2ShortLink, behind a part.
unfoldable pub short_link_in : List Text → Option Text
short_link_in (o ∷ l ∷ id ∷ parts) =
    let later = short_link_in (l ∷ id ∷ parts) in
    if text_eq l (codes "l") && text_eq o (codes "overlay2") && not (is_empty id)
    then some id
    else later
short_link_in _ = none

abbrev pub link_or_none : Text → Option Text → Text × Text
link_or_none path none = ([], [])
link_or_none path (some id) = (id, path)

-- overlay2ShortLink.
unfoldable pub overlay2_short_link : Text → Text × Text
unfolding short_link_in clean split
overlay2_short_link path = link_or_none (clean path) (short_link_in (split b'/' (clean path)))

abbrev pub link_of : Text → Text → Text × Text
link_of overlay_root [] = ([], [])
link_of overlay_root (c ∷ id) = (c ∷ id, join_path (overlay_root ∷ codes "l" ∷ (c ∷ id) ∷ []))

abbrev pub link_of_file : Text → Option Text → Text × Text
link_of_file overlay_root none = ([], [])
link_of_file overlay_root (some content) = link_of overlay_root (trim_space content)

-- overlay2ReadLinkFile.
unfoldable pub overlay2_read_link_file : Files → Text → Text × Text
unfolding clean base dir join_path trim_space
overlay2_read_link_file fs diff_path =
    let cache_dir = dir (clean diff_path) in
    let overlay_root = dir cache_dir in
    if not (text_eq (base (clean diff_path)) (codes "diff"))
    then ([], [])
    else if not (text_eq (base overlay_root) (codes "overlay2"))
    then ([], [])
    else link_of_file overlay_root (fs.read_file (join_path (cache_dir ∷ codes "link" ∷ [])))

abbrev pub kind_path : Text → PathKind → Option Text
kind_path cleaned missing = none
kind_path cleaned regular = some cleaned
kind_path cleaned (symlink none) = none
kind_path cleaned (symlink (some resolved)) = some (clean resolved)

abbrev pub with_link : Text → Text × Text → OverlayLayerDir
with_link path (id, link) = record { path = path; short_link_id = id; short_link_path = link }

-- The link of the path as it is given comes first, then the one that the driver's file names.
abbrev pub or_link_file : Files → Text → Text × Text → Text × Text
or_link_file fs path ([], link) = overlay2_read_link_file fs path
or_link_file fs path (c ∷ id, link) = (c ∷ id, link)

-- normalizeOverlay2LayerDir; `lstat` tells of a path what it is.
unfoldable pub normalize_overlay2_layer_dir :
    Files → (Text → PathKind) → Text → Option OverlayLayerDir
unfolding clean overlay2_short_link overlay2_read_link_file
normalize_overlay2_layer_dir fs lstat dir = elim (kind_path (clean dir) (lstat (clean dir))) [
  | none ↦ none
  | some path ↦ some (with_link path (or_link_file fs path (overlay2_short_link (clean dir))))
]

-- The parts of LowerDir that are not blank.
unfoldable pub lower_dirs : List Text → List Text
unfolding trim_space
lower_dirs parts = select (λ part. not (is_empty part)) (map trim_space parts)

-- rawDirs: UpperDir and the parts of LowerDir, topmost first.
unfoldable pub raw_dirs : Text → Text → List Text
unfolding trim_space lower_dirs split
raw_dirs upper lower =
    (if is_empty (trim_space upper) then [] else trim_space upper ∷ [])
    ++ (if is_empty (trim_space lower) then [] else lower_dirs (split b':' (trim_space lower)))

abbrev pub with_resolved :
    Option OverlayLayerDir → Option (List OverlayLayerDir) → Option (List OverlayLayerDir)
with_resolved none later = none
with_resolved (some d) none = none
with_resolved (some d) (some ds) = some (d ∷ ds)

-- The loop that resolves every directory or none.
unfoldable pub resolve_all :
    (Text → Option OverlayLayerDir) → List Text → Option (List OverlayLayerDir)
resolve_all normalize [] = some []
resolve_all normalize (d ∷ ds) = with_resolved (normalize d) (resolve_all normalize ds)

-- resolveOverlay2LayerDirs, on the two entries of the driver's data.
unfoldable pub resolve_overlay2_layer_dirs :
    (Text → Option OverlayLayerDir) → Text → Text → ℕ → Option (List OverlayLayerDir)
unfolding raw_dirs resolve_all
resolve_overlay2_layer_dirs normalize upper lower want =
    let dirs = raw_dirs upper lower in
    let resolved = resolve_all normalize dirs in
    if length dirs == 0 || not (length dirs == want) then none else resolved

-- The loop of overlay2CacheID.
unfoldable pub cache_id_in : List Text → Text
cache_id_in (o ∷ id ∷ parts) =
    let later = cache_id_in (id ∷ parts) in if text_eq o (codes "overlay2") then id else later
cache_id_in _ = []

-- overlay2CacheID.
unfoldable pub overlay2_cache_id : Text → Text
unfolding clean base dir cache_id_in split
overlay2_cache_id layer_dir =
    if text_eq (base (clean layer_dir)) (codes "diff")
    then base (dir (clean layer_dir))
    else cache_id_in (split b'/' (clean layer_dir))

-- runtime.ImageLayer with what docker knows of it.
pub record DockerLayer : Type 0 where
  pub index : ℕ
  pub uncompressed_digest : Text
  pub path : Text
  pub graph_driver : Text
  pub cache_id : Text
  pub short_link_id : Text
  pub short_link_path : Text

abbrev pub plain_layer : ℕ → Text → Text → DockerLayer
plain_layer i diff_id driver = record {
  index = i;
  uncompressed_digest = diff_id;
  path = [];
  graph_driver = driver;
  cache_id = [];
  short_link_id = [];
  short_link_path = [];
}

abbrev pub layer_at : ℕ → Text → Option OverlayLayerDir → DockerLayer
layer_at i diff_id none = plain_layer i diff_id (codes "overlay2")
layer_at i diff_id (some d) = record (plain_layer i diff_id (codes "overlay2")) {
  path = d.path;
  cache_id = overlay2_cache_id d.path;
  short_link_id = d.short_link_id;
  short_link_path = d.short_link_path;
}

-- The loop of resolveOverlay2Layers: diff IDs go up, directories go down. `dirs[len(dirs)-1-i]` is
-- guarded by both bounds.
unfoldable pub layers_from : List OverlayLayerDir → ℕ → List Text → List DockerLayer
unfolding overlay2_cache_id
layers_from dirs i [] = []
layers_from dirs i (diff_id ∷ diff_ids) =
    layer_at i diff_id (if ltb i (length dirs) then get_elem? dirs (length dirs - 1 - i) else none)
    ∷ layers_from dirs (i + 1) diff_ids

abbrev pub layers_of : List Text → Option (List OverlayLayerDir) → Option (List DockerLayer)
layers_of diff_ids none = none
layers_of diff_ids (some dirs) = some (layers_from dirs 0 diff_ids)

-- resolveOverlay2Layers.
unfoldable pub resolve_overlay2_layers :
    (Text → Option OverlayLayerDir) → Text → Text → List Text → Option (List DockerLayer)
unfolding resolve_overlay2_layer_dirs layers_from
resolve_overlay2_layers normalize upper lower diff_ids =
    layers_of diff_ids (resolve_overlay2_layer_dirs normalize upper lower (length diff_ids))

-- summariseLayers.
unfoldable pub summarise_from : ℕ → List Text → Text → List DockerLayer
summarise_from i [] driver = []
summarise_from i (diff_id ∷ diff_ids) driver =
    plain_layer i diff_id driver ∷ summarise_from (i + 1) diff_ids driver
