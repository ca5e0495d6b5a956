-- ===== src/Views/Merged/Fate.antt =====
-- One name in the merged directory: what a listing says of it, and what the steps of the merge do.
pub mod Listing
pub mod Shown
-- What the two maps hold of a name.
use mathlib.Core.Bool.{false≢true}
use mathlib.Core.Path.{ap₂}
use c_ray.Files.{DirEntry}
use c_ray.Map.{lookup, lookup-insert, lookup-remove, text_key}
use c_ray.Map.Distinct.{IsDistinctKeys, keep_if, lookup-prune_values}
use c_ray.Prelude.{
  All, Bool, Bool-cases, List, Option, [], ap, arith, false, if◌then◌else◌, inl, inr, none, refl,
  some, sym, true, ℕ, ◌++◌, ◌||◌, ◌∙◌, ◌∷◌, ◌≡◌, ◌≢◌,
}
use c_ray.Prelude.Int.{pos, ℤ}
use c_ray.Text.Basic.{
  Text, has_prefix, has_prefix-append, has_prefix-strip, strip_prefix_sound, text_eq, text_eq_iff,
  trim_prefix,
}
use c_ray.Views.Merged.{
  MergeMaps, MergedNode, add_entry, added_node, apply_opaque, apply_whiteout, is_not_below,
  merge_entry, opaque_marker, whiteout_prefix,
}

abbrev pub Fate : Type 0
Fate = Option MergedNode × Option ℤ

abbrev pub fate_at : Text → MergeMaps → Fate
fate_at name s = (lookup name s.visible, lookup name s.deleted)

-- The first entry of a name.
unfoldable pub entry_in : Text → List DirEntry → Option DirEntry
entry_in name [] = none
entry_in name (de ∷ des) = if text_eq de.name name then some de else entry_in name des

abbrev pub has_entry : Text → List DirEntry → Bool
has_entry name [] = false
has_entry name (de ∷ des) = text_eq de.name name || has_entry name des

-- The layer's own entry decides first, then its whiteout of the name, then its opaque marker; where it
-- has none of them, the layers below decide.
abbrev pub prevail : Text → ℕ → Option DirEntry → Bool → Bool → Fate → Fate
prevail rel_dir index (some de) is_whited is_opaque below =
    (some (added_node rel_dir index de), none)
prevail rel_dir index none true is_opaque below = (none, some (pos index))
prevail rel_dir index none false true below = (none, none)
prevail rel_dir index none false false below = below

abbrev pub override : Text → ℕ → Text → List DirEntry → Fate → Fate
override rel_dir index name des =
    prevail rel_dir index (entry_in name des) (has_entry (whiteout_prefix ++ name) des)
      (has_entry opaque_marker des)

-- Names are distinct, and no name stands beside its whiteout.
abbrev pub IsListing : List DirEntry → Type 0
IsListing [] = Unit
IsListing (de ∷ des) =
    All
      (λ (e : DirEntry).
        (text_eq e.name de.name ≡ false)
        × (text_eq e.name (whiteout_prefix ++ de.name) ≡ false)
        × (text_eq de.name (whiteout_prefix ++ e.name) ≡ false))
      des
    × IsListing des

-- The name of a file, no marker.
abbrev pub IsFileName : Text → Type 0
IsFileName name = has_prefix whiteout_prefix name ≡ false

-- An opaque marker at this name.
pub clear : ℕ → Fate → Fate
clear index (v, d) = (
  keep_if (λ (n : MergedNode). is_not_below index n.from_layer) v,
  keep_if (is_not_below index) d,
)

-- The merge of one entry, at this name.
pub step : Text → ℕ → Text → DirEntry → Fate → Fate
step rel_dir index name de f =
    if text_eq de.name opaque_marker
    then clear index f
    else if text_eq de.name (whiteout_prefix ++ name)
    then (none, some (pos index))
    else if text_eq de.name name
    then (some (added_node rel_dir index de), none)
    else f

pub steps : Text → ℕ → Text → List DirEntry → Fate → Fate
steps rel_dir index name [] f = f
steps rel_dir index name (de ∷ des) f = steps rel_dir index name des (step rel_dir index name de f)

abbrev pub IsMerge : MergeMaps → Type 0
IsMerge s = IsDistinctKeys s.visible × IsDistinctKeys s.deleted

text_eq-append : (p a b : Text) → text_eq (p ++ a) (p ++ b) ≡ text_eq a b
unfolding text_eq
text_eq-append [] a b = refl
text_eq-append (c ∷ p) a b = ground (arith, text_eq-append p a b)

-- Whether a text is the prefix and the name, seen behind the prefix.
text_eq-trim_prefix :
    (p d name : Text)
    → has_prefix p d ≡ true
    → text_eq d (p ++ name) ≡ text_eq (trim_prefix p d) name
unfolding trim_prefix
text_eq-trim_prefix p d name h =
    let (r, e) = has_prefix-strip p d h in
    rw (e, trim_prefix)
      (ap (λ x. text_eq x (p ++ name)) (strip_prefix_sound p d r e) ∙ text_eq-append p r name)

pub text_eq-has_prefix :
    (p a b : Text)
    → has_prefix p a ≡ true
    → has_prefix p b ≡ false
    → (text_eq a b ≡ false) × (text_eq b a ≡ false)
text_eq-has_prefix p a b ha hb = (differ a b apart, differ b a (λ e. apart (sym e)))
  where
    apart : a ≢ b
    apart e = false≢true (sym hb ∙ ap (has_prefix p) (sym e) ∙ ha)

    differ : (s t : Text) → s ≢ t → text_eq s t ≡ false
    differ s t n = elim (Bool-cases (text_eq s t)) [
      | inl e ↦ absurd (n ((text_eq_iff s t).0 e))
      | inr e ↦ e
    ]

fate_at-apply_opaque :
    (index : ℕ) (name : Text) (s : MergeMaps)
    → IsMerge s
    → fate_at name (apply_opaque index s) ≡ clear index (fate_at name s)
unfolding apply_opaque clear
fate_at-apply_opaque index name s (hv, hd) =
    ap₂ (λ a b. (a, b)) (lookup-prune_values name _ s.visible hv)
      (lookup-prune_values name _ s.deleted hd)

fate_at-apply_whiteout :
    (index : ℕ) (target name : Text) (s : MergeMaps)
    → fate_at name (apply_whiteout index target s)
      ≡ (if text_eq target name then (none, some (pos index)) else fate_at name s)
unfolding apply_whiteout
fate_at-apply_whiteout index target name s =
    ground
      (arith, lookup-remove target name s.visible, lookup-insert target name (pos index) s.deleted)

fate_at-add_entry :
    (rel_dir : Text) (index : ℕ) (de : DirEntry) (name : Text) (s : MergeMaps)
    → fate_at name (add_entry rel_dir index de s) ≡ (
        if text_eq de.name name then (some (added_node rel_dir index de), none) else fate_at name s)
unfolding add_entry
fate_at-add_entry rel_dir index de name s = ground (
  arith,
  lookup-insert de.name name (added_node rel_dir index de) s.visible,
  lookup-remove de.name name s.deleted,
)

pub fate_at-merge_entry :
    (rel_dir : Text) (index : ℕ) (name : Text) (de : DirEntry) (s : MergeMaps)
    → IsFileName name
    → IsMerge s
    → fate_at name (merge_entry rel_dir index de s) ≡ step rel_dir index name de (fate_at name s)
unfolding merge_entry step
fate_at-merge_entry rel_dir index name de s file h =
    elim (Bool-cases (text_eq de.name opaque_marker)) [
      | inl e ↦ rw e (fate_at-apply_opaque index name s h)
      | inr e ↦ elim (Bool-cases (has_prefix whiteout_prefix de.name)) [
        | inl p ↦ rw e (
            rw p (
              fate_at-apply_whiteout index (trim_prefix whiteout_prefix de.name) name s
              ∙ rw
                  (
                    text_eq-trim_prefix whiteout_prefix de.name name p,
                    (text_eq-has_prefix whiteout_prefix de.name name p file).0,
                  )
                  refl))
        | inr p ↦ rw e (
            rw p (
              fate_at-add_entry rel_dir index de name s
              ∙ rw
                  ((text_eq-has_prefix whiteout_prefix (whiteout_prefix ++ name) de.name
                    (has_prefix-append whiteout_prefix name) p).1)
                  refl))
      ]
    ]
