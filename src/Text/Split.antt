-- ===== src/Text/Split.antt =====
-- strings.Split and strings.Join at a separator of one character, strings.SplitN with n = 2 and 3,
-- and strings.Cut.
use c_ray.Prelude.{
  All, List, Option, [], arith, false, none, refl, some, true, ℕ, ◌++◌, ◌==◌, ◌∷◌, ◌≡◌,
}
use c_ray.Text.Basic.{Lacks, Lacks-append, Text}

-- A character in front of the first part.
abbrev pub cons_head : ℕ → List Text → List Text
cons_head c [] = (c ∷ []) ∷ []
cons_head c (p ∷ ps) = (c ∷ p) ∷ ps

-- strings.Split(s, sep).
unfoldable pub split : ℕ → Text → List Text
split sep [] = [] ∷ []
split sep (c ∷ s) = elim (c == sep) [ true ↦ [] ∷ split sep s | false ↦ cons_head c (split sep s) ]

-- strings.Join(parts, sep).
unfoldable pub join : Text → List Text → Text
join sep [] = []
join sep (p ∷ []) = p
join sep (p ∷ q ∷ ps) = p ++ (sep ++ join sep (q ∷ ps))

-- strings.Cut(s, sep): the text before the first separator and the text behind it.
unfoldable pub cut : ℕ → Text → Option (Text × Text)
cut sep [] = none
cut sep (c ∷ s) = elim (c == sep) [
  | true ↦ some ([], s)
  | false ↦ elim (cut sep s) [ none ↦ none | some (a, b) ↦ some (c ∷ a, b) ]
]

-- strings.SplitN(s, sep, 2) where it has two parts.
abbrev pub split_2 : ℕ → Text → Option (Text × Text)
split_2 = cut

-- strings.SplitN(s, sep, 3) where it has three parts.
unfoldable pub split_3 : ℕ → Text → Option (Text × Text × Text)
split_3 sep s = elim (cut sep s) [
  | none ↦ none
  | some (a, r) ↦ elim (cut sep r) [ none ↦ none | some (b, c) ↦ some (a, b, c) ]
]

pub cut-append : (sep : ℕ) (a b : Text) → Lacks sep a → cut sep (a ++ sep ∷ b) ≡ some (a, b)
unfolding cut
cut-append sep [] b h = ground arith
cut-append sep (c ∷ a) b (h, hs) = ground (arith, cut-append sep a b hs)

pub cut-Lacks : (sep : ℕ) (a : Text) → Lacks sep a → cut sep a ≡ none
unfolding cut
cut-Lacks sep [] h = refl
cut-Lacks sep (c ∷ a) (h, hs) = ground (arith, cut-Lacks sep a hs)

pub split_3-append :
    (sep : ℕ) (a b c : Text)
    → Lacks sep a
    → Lacks sep b
    → split_3 sep (a ++ sep ∷ (b ++ sep ∷ c)) ≡ some (a, b, c)
unfolding split_3
split_3-append sep a b c ha hb =
    ground (arith, cut-append sep a (b ++ sep ∷ c) ha, cut-append sep b c hb)

-- A part with no separator, then a separator.
pub split-append : (sep : ℕ) (p s : Text) → Lacks sep p → split sep (p ++ sep ∷ s) ≡ p ∷ split sep s
unfolding split
split-append sep [] s h = ground arith
split-append sep (c ∷ p) s (h, hs) = ground (arith, split-append sep p s hs)

pub split-Lacks : (sep : ℕ) (p : Text) → Lacks sep p → split sep p ≡ p ∷ []
unfolding split
split-Lacks sep [] h = refl
split-Lacks sep (c ∷ p) (h, hs) = ground (arith, split-Lacks sep p hs)

-- Splitting a join gives the parts back, if there is a part and none holds the separator.
pub split-join :
    (sep : ℕ) (p : Text) (ps : List Text)
    → Lacks sep p
    → All (Lacks sep) ps
    → split sep (join (sep ∷ []) (p ∷ ps)) ≡ p ∷ ps
unfolding join
split-join sep p [] h _ = split-Lacks sep p h
split-join sep p (q ∷ ps) h (hq, hps) =
    rw (split-append sep p _ h) (rw (split-join sep q ps hq hps))

pub Lacks-join :
    (b : ℕ) (sep : Text) (ps : List Text) → Lacks b sep → All (Lacks b) ps → Lacks b (join sep ps)
unfolding join
Lacks-join b sep [] hs _ = tt
Lacks-join b sep (p ∷ []) hs (h, _) = h
Lacks-join b sep (p ∷ q ∷ ps) hs (h, hps) =
    Lacks-append b p _ h (Lacks-append b sep _ hs (Lacks-join b sep (q ∷ ps) hs hps))
