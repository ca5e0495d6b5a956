-- ===== src/Tests/Merged.antt =====
-- The merged directory of three layers.
use mathlib.Core.List.{Perm, reverse}
use c_ray.Files.{DirEntry, Files}
use c_ray.Map.{insert, lookup, prune_values, remove, text_key}
use c_ray.Prelude.{
  Bool, List, Option, [], false, if◌then◌else◌, map, none, refl, some, true, ℕ, ◌++◌, ◌||◌, ◌∷◌,
  ◌≡◌,
}
use c_ray.Prelude.Int.{int_ltb, pos}
use c_ray.Text.Basic.{Text, codes, has_prefix, text_eq, trim_prefix}
use c_ray.Text.Letters.{to_lower}
use c_ray.Text.Order.{text_ltb}
use c_ray.Text.Path.{join_path}
use c_ray.Views.Merged.{ImageLayer, MergedNode, layer_entries, merge_layer_dir}
use c_ray.Views.Merged.Fate.{entry_in}
use c_ray.Views.Merged.Fate.Shown.{fate}
use mathlib.Core.List.Perm

abbrev entry : Text → Bool → DirEntry
entry name is_dir = record { name = name; is_dir = is_dir }

-- The lowest layer has etc, a and b, the next one removes a, and the top one hides all below it.
abbrev listing_in : Text → Option (List DirEntry)
listing_in path =
    if text_eq path (codes "/0")
    then some (entry (codes "b") false ∷ entry (codes "etc") true ∷ entry (codes "a") false ∷ [])
    else if text_eq path (codes "/1")
    then some (entry (codes ".wh.a") false ∷ entry (codes "B2") false ∷ [])
    else if text_eq path (codes "/2/etc") || text_eq path (codes "/0/etc")
    then some (entry (codes "passwd") false ∷ [])
    else if text_eq path (codes "/2")
    then some (entry (codes ".wh..wh..opq") false ∷ entry (codes "etc") true ∷ [])
    else if text_eq path (codes "/3")
    then some (entry (codes ".wh.etc") false ∷ [])
    else none

abbrev layer_files : Files
layer_files = record {
  read_file = λ path. none;
  read_link = λ path. none;
  read_dir = listing_in;
  exists = λ path. false;
}

abbrev layer : ℕ → Text → ImageLayer
layer index path = record { index = index; path = path }

abbrev two_layers : List ImageLayer
two_layers = layer 0 (codes "/0") ∷ layer 1 (codes "/1") ∷ []

abbrev names_of : List MergedNode → List Text
names_of = map (λ n. n.name)

-- Directories first, then by name without case; what is removed stands apart.
two_layers_test :
    (names_of (merge_layer_dir (λ m. m) (λ m. m) layer_files two_layers []).0
      ≡ codes "etc" ∷ codes "b" ∷ codes "B2" ∷ [])
    × (names_of (merge_layer_dir (λ m. m) (λ m. m) layer_files two_layers []).1 ≡ codes "a" ∷ [])
unfolding merge_layer_dir lookup text_eq has_prefix insert remove trim_prefix text_ltb to_lower
two_layers_test = (refl, refl)

-- An opaque marker hides both what the layers below show and what they removed.
opaque_test :
    (names_of
        (merge_layer_dir
          (λ m. m)
          (λ m. m)
          layer_files
          (two_layers ++ layer 2 (codes "/2") ∷ [])
          []).0
      ≡ codes "etc" ∷ [])
    × (names_of
          (merge_layer_dir
            (λ m. m)
            (λ m. m)
            layer_files
            (two_layers ++ layer 2 (codes "/2") ∷ [])
            []).1
        ≡ [])
unfolding merge_layer_dir lookup text_eq has_prefix insert prune_values remove trim_prefix int_ltb
opaque_test = (refl, refl)

-- The whiteout of a directory hides it in the directory above; that it is gone is not known inside it.
ancestor_test :
    (names_of
        (merge_layer_dir
          (λ m. m)
          (λ m. m)
          layer_files
          (layer 0 (codes "/0") ∷ layer 1 (codes "/3") ∷ [])
          []).0
      ≡ codes "a" ∷ codes "b" ∷ [])
    × (names_of
          (merge_layer_dir
            (λ m. m)
            (λ m. m)
            layer_files
            (layer 0 (codes "/0") ∷ layer 1 (codes "/3") ∷ [])
            (codes "etc")).0
        ≡ codes "passwd" ∷ [])
unfolding merge_layer_dir lookup text_eq has_prefix remove insert trim_prefix text_ltb to_lower
    join_path
ancestor_test = (refl, refl)

-- The upper layer's whiteout is what is left of the name.
fate_test : fate layer_files [] (codes "a") (reverse two_layers) ≡ (none, some (pos 1))
unfolding layer_entries entry_in text_eq
fate_test = refl
