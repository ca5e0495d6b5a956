-- ===== src/Text/Suffix.antt =====
-- Suffixes and parts of a text: strings.HasSuffix, strings.TrimSuffix and strings.Contains.
use c_ray.Prelude.{
  Bool-cases, [], ap, arith, false, inl, inr, length, length-append, refl, true, ℕ, ◌++◌, ◌∷◌, ◌≡◌,
}
use c_ray.Text.Basic.{
  Lacks, Text, contains, contains_char, has_prefix, has_prefix-append, has_suffix, strip_prefix,
  text_eq, text_eq_iff, text_eq_refl, trim_prefix, trim_suffix,
}

pub contains-middle : (p a b : Text) → contains p (a ++ (p ++ b)) ≡ true
unfolding contains
contains-middle [] [] [] = unfold has_prefix in refl
contains-middle [] [] (c ∷ b) = unfold has_prefix in refl
contains-middle (c ∷ p) [] b = ground (arith, has_prefix-append (c ∷ p) b)
contains-middle p (d ∷ a) b = ground (arith, contains-middle p a b)

-- A text of one character that another lacks is no part of it.
pub contains-Lacks : (b : ℕ) (s : Text) → Lacks b s → contains (b ∷ []) s ≡ false
unfolding contains has_prefix
contains-Lacks b [] h = refl
contains-Lacks b (c ∷ s) (h, hs) = ground (arith, contains-Lacks b s hs)

pub has_suffix-append : (p s : Text) → has_suffix p (s ++ p) ≡ true
unfolding has_suffix
has_suffix-append [] [] = unfold text_eq in refl
has_suffix-append (c ∷ p) [] = ground (arith, text_eq_refl (c ∷ p))
has_suffix-append p (d ∷ s) = ground (arith, has_suffix-append p s)

text_eq-longer : (p s : Text) (d : ℕ) → text_eq p ((d ∷ s) ++ p) ≡ false
text_eq-longer p s d = elim (Bool-cases (text_eq p ((d ∷ s) ++ p))) [
  | inl e ↦
      absurd (omega (arith, ap length ((text_eq_iff p ((d ∷ s) ++ p)).0 e), length-append s p))
  | inr e ↦ e
]

pub trim_suffix-append : (p s : Text) → trim_suffix p (s ++ p) ≡ s
unfolding trim_suffix
trim_suffix-append [] [] = refl
trim_suffix-append (c ∷ p) [] = rw (text_eq_refl (c ∷ p)) refl
trim_suffix-append p (d ∷ s) = rw (text_eq-longer p s d) (ap (◌∷◌ d) (trim_suffix-append p s))

-- A text that does not begin with a character keeps it at its front.
pub trim_prefix-Lacks : (b : ℕ) (s : Text) → Lacks b s → trim_prefix (b ∷ []) s ≡ s
unfolding trim_prefix strip_prefix
trim_prefix-Lacks b [] h = refl
trim_prefix-Lacks b (c ∷ s) (h, hs) = ground arith

pub contains_char-Lacks : (b : ℕ) (s : Text) → contains_char b s ≡ false → Lacks b s
unfolding contains_char
contains_char-Lacks b [] h = tt
contains_char-Lacks b (c ∷ s) h = ((λ e. ground arith), contains_char-Lacks b s (ground arith))
