-- ===== src/Views/Merged/Fate/Shown.antt =====
-- All layers: for every name the topmost layer that says something of it decides.
use mathlib.Core.List.{Perm}
use c_ray.Files.{DirEntry, Files}
use c_ray.Map.{text_key}
use c_ray.Prelude.{List, Option, [], none, some, ℕ, ◌+◌, ◌∷◌, ◌≡◌, ◌≤◌}
use c_ray.Text.Basic.{Text}
use c_ray.Views.Merged.{ImageLayer, layer_entries}
use c_ray.Views.Merged.Fate.{Fate, IsListing, clear, override}
use mathlib.Core.List.Perm

-- A layer whose directory cannot be read says nothing.
abbrev pub override_if : Text → ℕ → Text → Option (List DirEntry) → Fate → Fate
override_if rel_dir index name none below = below
override_if rel_dir index name (some des) below = override rel_dir index name des below

-- The fate of a name in a stack of layers, the topmost first.
abbrev pub fate : Files → Text → Text → List ImageLayer → Fate
fate fs rel_dir name [] = (none, none)
fate fs rel_dir name (l ∷ lower) =
    override_if rel_dir l.index name (layer_entries fs rel_dir l.path) (fate fs rel_dir name lower)

abbrev pub IsListingOf : Option (List DirEntry) → Type 0
IsListingOf none = Unit
IsListingOf (some des) = IsListing des

-- The indices grow from layer to layer, from n on, and every listing is one.
abbrev pub IsStack : Files → Text → ℕ → List ImageLayer → Type 0
IsStack fs rel_dir n [] = Unit
IsStack fs rel_dir n (l ∷ ls) =
    (n ≤ l.index)
    × IsListingOf (layer_entries fs rel_dir l.path)
    × IsStack fs rel_dir (l.index + 1) ls

-- An opaque marker of any layer from n on removes it.
abbrev IsBelow : ℕ → Fate → Type 0
IsBelow n f = (j : ℕ) → n ≤ j → clear j f ≡ (none, none)
