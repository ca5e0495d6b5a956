-- ===== src/Sysinfo/Mounts/Overlay.antt =====
-- The layers of an overlay mount.
use mathlib.Core.List.{foldl, foldl-append}
use c_ray.Prelude.{
  All, List, Option-cases, [], ap, arith, false, if◌then◌else◌, inl, inr, none, refl, some, true,
  ◌++◌, ◌∙◌, ◌∷◌, ◌≡◌, ◌≢◌,
}
use c_ray.Sysinfo.Mounts.{
  OverlayDirs, get_overlay_layers, no_dirs, overlay_entry, overlay_option, parse_overlay_fs,
}
use c_ray.Sysinfo.Types.{Mount}
use c_ray.Text.Basic.{Lacks, Text, codes, is_empty, text_eq, text_eq_iff}
use c_ray.Text.Split.{cut, cut-append, join, split, split-join, split_2}

-- The key of a mount option, as the loop of ParseOverlayFS reads it.
abbrev pub option_key : Text → Text
option_key opt = elim (split_2 b'=' opt) [ none ↦ [] | some (k, v) ↦ k ]

overlay_entry-other :
    (key value : Text) (d : OverlayDirs)
    → key ≢ codes "lowerdir"
    → (overlay_entry key value d).lowerdir ≡ d.lowerdir
unfolding overlay_entry
overlay_entry-other key value d h = ground (arith, text_eq_iff key (codes "lowerdir"))

overlay_option-other :
    (d : OverlayDirs) (opt : Text)
    → option_key opt ≢ codes "lowerdir"
    → (overlay_option d opt).lowerdir ≡ d.lowerdir
unfolding overlay_option
overlay_option-other d opt h = elim (Option-cases (cut b'=' opt)) [
  | inl e ↦ rw (e, overlay_option)
  | inr ((k, v), e) ↦ rw (e, overlay_option) (overlay_entry-other k v d (rw (e, option_key) at h))
]

foldl-overlay_option :
    (opts : List Text) (d : OverlayDirs)
    → All (λ o. option_key o ≢ codes "lowerdir") opts
    → (foldl overlay_option d opts).lowerdir ≡ d.lowerdir
foldl-overlay_option [] d h = refl
foldl-overlay_option (o ∷ opts) d (h, hs) =
    foldl-overlay_option opts (overlay_option d o) hs ∙ overlay_option-other d o h

overlay_option-lowerdir :
    (d : OverlayDirs) (value : Text)
    → (overlay_option d (codes "lowerdir=" ++ value)).lowerdir ≡ value
unfolding overlay_option overlay_entry text_eq
overlay_option-lowerdir d value =
    rw (cut-append b'=' (codes "lowerdir") value (omega arith), overlay_option)

parse_overlay_fs-lowerdir :
    (m : Mount) (before after : List Text) (value : Text)
    → m.fs_type ≡ codes "overlay"
    → m.options ≡ before ++ (codes "lowerdir=" ++ value) ∷ after
    → All (λ o. option_key o ≢ codes "lowerdir") after
    → (parse_overlay_fs m).lowerdir ≡ value
unfolding parse_overlay_fs
parse_overlay_fs-lowerdir m before after value ht ho ha = rw (text_eq_of ht) (
    ap (λ os. (foldl overlay_option no_dirs os).lowerdir) ho
    ∙ ap (λ (d : OverlayDirs). d.lowerdir)
        (foldl-append overlay_option no_dirs before ((codes "lowerdir=" ++ value) ∷ after))
    ∙ foldl-overlay_option after
        (overlay_option (foldl overlay_option no_dirs before) (codes "lowerdir=" ++ value)) ha
    ∙ overlay_option-lowerdir (foldl overlay_option no_dirs before) value)
  where
    text_eq_of : m.fs_type ≡ codes "overlay" → text_eq m.fs_type (codes "overlay") ≡ true
    text_eq_of e = (text_eq_iff m.fs_type (codes "overlay")).1 e

-- The end of GetOverlayLayers.
abbrev split_layers : Text → List Text
split_layers lower = if is_empty lower then [] else split b':' lower

is_empty-join :
    (layer : Text) (layers : List Text)
    → layer ≢ []
    → is_empty (join (codes ":") (layer ∷ layers)) ≡ false
unfolding join
is_empty-join [] layers ne = absurd (ne refl)
is_empty-join (c ∷ layer) [] ne = refl
is_empty-join (c ∷ layer) (l ∷ layers) ne = refl

split_layers-join :
    (layer : Text) (layers : List Text)
    → layer ≢ []
    → Lacks b':' layer
    → All (Lacks b':') layers
    → split_layers (join (codes ":") (layer ∷ layers)) ≡ layer ∷ layers
split_layers-join layer layers ne hl hls =
    rw (is_empty-join layer layers ne) (split-join b':' layer layers hl hls)

-- GetOverlayLayers gives the layers of the last lowerdir option of an overlay mount, topmost
-- first, where the first is not empty and none holds a colon.
pub get_overlay_layers-lowerdir :
    (m : Mount) (before after : List Text) (layer : Text) (layers : List Text)
    → m.fs_type ≡ codes "overlay"
    → m.options ≡ before ++ (codes "lowerdir=" ++ join (codes ":") (layer ∷ layers)) ∷ after
    → All (λ o. option_key o ≢ codes "lowerdir") after
    → layer ≢ []
    → Lacks b':' layer
    → All (Lacks b':') layers
    → get_overlay_layers m ≡ layer ∷ layers
unfolding get_overlay_layers
get_overlay_layers-lowerdir m before after layer layers ht ho ha ne hl hls =
    ap split_layers
      (parse_overlay_fs-lowerdir m before after (join (codes ":") (layer ∷ layers)) ht ho ha)
    ∙ split_layers-join layer layers ne hl hls
