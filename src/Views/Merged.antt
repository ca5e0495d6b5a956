-- ===== src/Views/Merged.antt =====
-- mergeLayerDir of pkg/ui/views/image_detail.go: one directory of the merged layers of an image. The
-- orders in which Go visits the two maps are parameters.
pub mod Fate
use c_ray.Files.{DirEntry, Files}
use c_ray.Map.{insert, prune_values, remove, text_key}
use c_ray.Prelude.{Bool, List, Option, [], false, if◌then◌else◌, map, none, not, some, true, ℕ, ◌∷◌}
use c_ray.Prelude.Int.{int_ltb, negsuc, pos, ℤ}
use c_ray.Sorting.{sort_by}
use c_ray.Text.Basic.{Text, codes, has_prefix, is_empty, text_eq, trim_prefix}
use c_ray.Text.Letters.{to_lower}
use c_ray.Text.Order.{text_ltb}
use c_ray.Text.Path.{join_path}

pub record ImageLayer : Type 0 where
  pub index : ℕ
  pub path : Text

-- imageMergedNode.
pub record MergedNode : Type 0 where
  pub name : Text
  pub rel_path : Text
  pub is_dir : Bool
  pub from_layer : ℤ
  pub deleted_by_layer : ℤ
  pub loaded : Bool

-- visMap and delMap.
pub record MergeMaps : Type 0 where
  pub visible : List (Text × MergedNode)
  pub deleted : List (Text × ℤ)

abbrev pub opaque_marker : Text
opaque_marker = codes ".wh..wh..opq"

abbrev pub whiteout_prefix : Text
whiteout_prefix = codes ".wh."

unfoldable pub rel_path_of : Text → Text → Text
rel_path_of rel_dir name = if is_empty rel_dir then name else join_path (rel_dir ∷ name ∷ [])

abbrev pub added_node : Text → ℕ → DirEntry → MergedNode
added_node rel_dir index de = record {
  name = de.name;
  rel_path = rel_path_of rel_dir de.name;
  is_dir = de.is_dir;
  from_layer = pos index;
  deleted_by_layer = negsuc 0;
  loaded = false;
}

-- What an opaque marker of a layer leaves.
abbrev pub is_not_below : ℕ → ℤ → Bool
is_not_below index n = not (int_ltb n (pos index))

-- ".wh..wh..opq": nothing of the layers below is left.
unfoldable pub apply_opaque : ℕ → MergeMaps → MergeMaps
apply_opaque index s = record {
  visible = prune_values (λ n. is_not_below index n.from_layer) s.visible;
  deleted = prune_values (is_not_below index) s.deleted;
}

unfoldable pub apply_whiteout : ℕ → Text → MergeMaps → MergeMaps
apply_whiteout index target s = record {
  visible = remove target s.visible;
  deleted = insert target (pos index) s.deleted;
}

unfoldable pub add_entry : Text → ℕ → DirEntry → MergeMaps → MergeMaps
add_entry rel_dir index de s = record {
  visible = insert de.name (added_node rel_dir index de) s.visible;
  deleted = remove de.name s.deleted;
}

-- The body of the loop over the entries of a directory.
unfoldable pub merge_entry : Text → ℕ → DirEntry → MergeMaps → MergeMaps
unfolding apply_opaque apply_whiteout add_entry
merge_entry rel_dir index de s =
    if text_eq de.name opaque_marker
    then apply_opaque index s
    else if has_prefix whiteout_prefix de.name
    then apply_whiteout index (trim_prefix whiteout_prefix de.name) s
    else add_entry rel_dir index de s

unfoldable pub merge_entries : Text → ℕ → List DirEntry → MergeMaps → MergeMaps
unfolding merge_entry
merge_entries rel_dir index [] s = s
merge_entries rel_dir index (de ∷ des) s =
    merge_entries rel_dir index des (merge_entry rel_dir index de s)

-- dirPath.
unfoldable pub dir_path_of : Text → Text → Text
dir_path_of path rel_dir = if is_empty rel_dir then path else join_path (path ∷ rel_dir ∷ [])

-- The entries that a layer has in the directory; none if it has no path or cannot be read.
unfoldable pub layer_entries : Files → Text → Text → Option (List DirEntry)
unfolding dir_path_of
layer_entries fs rel_dir path =
    if is_empty path then none else fs.read_dir (dir_path_of path rel_dir)

abbrev pub merge_listing : Text → ℕ → Option (List DirEntry) → MergeMaps → MergeMaps
merge_listing rel_dir index none s = s
merge_listing rel_dir index (some des) s = merge_entries rel_dir index des s

-- The loop over the layers.
unfoldable pub merge_layers : Files → Text → List ImageLayer → MergeMaps → MergeMaps
unfolding layer_entries merge_entries
merge_layers fs rel_dir [] s = s
merge_layers fs rel_dir (l ∷ ls) s =
    merge_layers fs rel_dir ls (merge_listing rel_dir l.index (layer_entries fs rel_dir l.path) s)

-- Directories first, then by name without case.
unfoldable pub visible_less : MergedNode → MergedNode → Bool
visible_less a b =
    if a.is_dir
    then (if b.is_dir then text_ltb (to_lower a.name) (to_lower b.name) else true)
    else if b.is_dir
    then false
    else text_ltb (to_lower a.name) (to_lower b.name)

unfoldable pub name_less : MergedNode → MergedNode → Bool
name_less a b = text_ltb (to_lower a.name) (to_lower b.name)

abbrev pub deleted_node : Text → Text × ℤ → MergedNode
deleted_node rel_dir (name, layer) = record {
  name = name;
  rel_path = rel_path_of rel_dir name;
  is_dir = false;
  from_layer = negsuc 0;
  deleted_by_layer = layer;
  loaded = false;
}

abbrev pub node_of : Text × MergedNode → MergedNode
node_of (name, n) = n

abbrev pub no_entries : MergeMaps
no_entries = record { visible = []; deleted = [] }

-- mergeLayerDir.
unfoldable pub merge_layer_dir :
    (List (Text × MergedNode) → List (Text × MergedNode))
    → (List (Text × ℤ) → List (Text × ℤ))
    → Files
    → List ImageLayer
    → Text
    → List MergedNode × List MergedNode
unfolding merge_layers sort_by visible_less name_less
merge_layer_dir visit_visible visit_deleted fs layers rel_dir =
    let s = merge_layers fs rel_dir layers no_entries in
    (
      sort_by visible_less (map node_of (visit_visible s.visible)),
      sort_by name_less (map (deleted_node rel_dir) (visit_deleted s.deleted)),
    )
