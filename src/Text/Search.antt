-- ===== src/Text/Search.antt =====
-- Where a text holds another: strings.Index, and strings.LastIndex at one character.
-- The text behind the first occurrence of `p`.
use c_ray.Prelude.{
  Option, Option-cases, [], arith, if◌then◌else◌, inl, inr, none, refl, some, ℕ, ◌++◌, ◌==◌, ◌∷◌,
  ◌≡◌,
}
use c_ray.Text.Basic.{Lacks, Text, strip_prefix}

unfoldable pub after_first : Text → Text → Option Text
after_first p [] = strip_prefix p []
after_first p (c ∷ s) = elim (strip_prefix p (c ∷ s)) [ some r ↦ some r | none ↦ after_first p s ]

-- The text in front of the last `b`, and behind it.
unfoldable pub split_last : ℕ → Text → Option (Text × Text)
split_last b [] = none
split_last b (c ∷ s) = elim (split_last b s) [
  | some (x, y) ↦ some (c ∷ x, y)
  | none ↦ if c == b then some ([], s) else none
]

pub split_last-Lacks : (b : ℕ) (s : Text) → Lacks b s → split_last b s ≡ none
unfolding split_last
split_last-Lacks b [] h = refl
split_last-Lacks b (c ∷ s) (h, hs) = ground (arith, split_last-Lacks b s hs)

pub split_last-append : (b : ℕ) (s r : Text) → Lacks b r → split_last b (s ++ b ∷ r) ≡ some (s, r)
unfolding split_last
split_last-append b [] r h = ground (arith, split_last-Lacks b r h)
split_last-append b (c ∷ s) r h = ground (arith, split_last-append b s r h)

-- A split gives the text back.
pub split_last_sound : (b : ℕ) (t x y : Text) → split_last b t ≡ some (x, y) → t ≡ x ++ b ∷ y
unfolding split_last
split_last_sound b [] x y h = cc
split_last_sound b (c ∷ s) x y h = elim (Option-cases (split_last b s)) [
  | inl e ↦ ground arith
  | inr ((x', y'), e) ↦ ground (arith, split_last_sound b s x' y')
]

abbrev pub extended : Text → Option (Text × Text) → Option (Text × Text)
extended r none = none
extended r (some (x, y)) = some (x, y ++ r)

pub split_last-append_Lacks :
    (b : ℕ) (s r : Text) → Lacks b r → split_last b (s ++ r) ≡ extended r (split_last b s)
unfolding split_last
split_last-append_Lacks b [] r h = split_last-Lacks b r h
split_last-append_Lacks b (c ∷ s) r h = ground (arith, split_last-append_Lacks b s r h)
