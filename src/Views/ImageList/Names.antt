-- ===== src/Views/ImageList/Names.antt =====
-- The names of images.
-- A tag: no slash and no colon.
use c_ray.Prelude.{
  Option-cases, [], ap, append_assoc, arith, inl, inr, refl, sym, ◌++◌, ◌∙◌, ◌∷◌, ◌≡◌,
}
use c_ray.Text.Basic.{Lacks, Text, codes}
use c_ray.Text.Search.{
  split_last, split_last-Lacks, split_last-append, split_last-append_Lacks, split_last_sound,
}
use c_ray.Views.ImageList.{split_image_name}

abbrev pub IsTag : Text → Type 0
IsTag tag = Lacks b'/' tag × Lacks b':' tag

Lacks-tag : (tag : Text) → IsTag tag → Lacks b'/' (b':' ∷ tag)
Lacks-tag tag (h, _) = ((λ e. ground arith), h)

split_tagged : (repo tag : Text) → IsTag tag → split_image_name (repo ++ b':' ∷ tag) ≡ (repo, tag)
unfolding split_image_name
split_tagged repo tag (hs, hc) = elim (Option-cases (split_last b'/' repo)) [
  | inl e ↦
      rw
        (
          split_last-append_Lacks b'/' repo (b':' ∷ tag) (Lacks-tag tag (hs, hc)),
          e,
          split_image_name,
        )
        (rw (split_last-append b':' repo tag hc) refl)
  | inr ((dir, part), e) ↦
      rw
        (
          split_last-append_Lacks b'/' repo (b':' ∷ tag) (Lacks-tag tag (hs, hc)),
          e,
          split_image_name,
        )
        (rw (split_last-append b':' part tag hc) (
          ap (λ x. (x, tag))
            (append_assoc dir (b'/' ∷ []) part ∙ sym (split_last_sound b'/' repo dir part e))))
]

split_untagged :
    (repo part : Text)
    → Lacks b'/' part
    → Lacks b':' part
    → split_image_name (repo ++ b'/' ∷ part) ≡ (repo ++ b'/' ∷ part, codes "<none>")
unfolding split_image_name
split_untagged repo part hs hc =
    rw (split_last-append b'/' repo part hs, split_last-Lacks b':' part hc, split_image_name)
      (ap (λ x. (x, codes "<none>")) (append_assoc repo (b'/' ∷ []) part))

-- splitImageName takes a name with a tag apart, whatever the repository holds, a port included; a name
-- whose last part has no colon has the tag "<none>", a port before it included.
pub split_image_name-image_name :
    (repo tag part : Text)
    → IsTag tag
    → Lacks b'/' part
    → Lacks b':' part
    → (split_image_name (repo ++ b':' ∷ tag) ≡ (repo, tag))
      × (split_image_name (repo ++ b'/' ∷ part) ≡ (repo ++ b'/' ∷ part, codes "<none>"))
unfolding split_image_name
split_image_name-image_name repo tag part ht hs hc =
    (split_tagged repo tag ht, split_untagged repo part hs hc)
