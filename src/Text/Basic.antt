-- ===== src/Text/Basic.antt =====
-- The type of texts, and the tests of the package strings: equality, HasPrefix, TrimPrefix,
-- Contains, Index and LastIndex.
use Prim.Native.Char.{code}
use Prim.Native.String.{String}
use c_ray.Prelude.{
  Bool, List, Option, [], arith, false, if◌then◌else◌, none, refl, some, true, ℕ, ◌&&◌, ◌++◌, ◌==◌,
  ◌||◌, ◌↔◌, ◌∷◌, ◌≡◌, ◌≢◌,
}

abbrev pub Text : Type 0
Text = List ℕ

-- The code points of a literal.
abbrev pub codes : String → Text
codes String.[] = []
codes (String.◌∷◌ c s) = code c ∷ codes s

-- `a == b`.
unfoldable pub text_eq : Text → Text → Bool
text_eq [] [] = true
text_eq (x ∷ xs) (y ∷ ys) = x == y && text_eq xs ys
text_eq _ _ = false

pub text_eq_iff : (a b : Text) → (text_eq a b ≡ true) ↔ (a ≡ b)
unfolding text_eq
text_eq_iff (x ∷ a) (y ∷ b) = ground (arith, text_eq_iff a b)
text_eq_iff _ _ = ground arith

pub text_eq_refl : (a : Text) → text_eq a a ≡ true
text_eq_refl a = (text_eq_iff a a).1 refl

-- `s == ""`.
abbrev pub is_empty : Text → Bool
is_empty [] = true
is_empty (x ∷ xs) = false

-- strings.HasPrefix(s, p), with the prefix first.
unfoldable pub has_prefix : Text → Text → Bool
has_prefix [] s = true
has_prefix (p ∷ ps) [] = false
has_prefix (p ∷ ps) (c ∷ s) = p == c && has_prefix ps s

-- What stands behind the prefix, if it is one.
unfoldable pub strip_prefix : Text → Text → Option Text
strip_prefix [] s = some s
strip_prefix (p ∷ ps) [] = none
strip_prefix (p ∷ ps) (c ∷ s) = if p == c then strip_prefix ps s else none

-- strings.TrimPrefix(s, p).
unfoldable pub trim_prefix : Text → Text → Text
unfolding strip_prefix
trim_prefix p s = elim (strip_prefix p s) [ none ↦ s | some r ↦ r ]

-- strings.Contains(s, p).
unfoldable pub contains : Text → Text → Bool
unfolding has_prefix
contains p [] = has_prefix p []
contains p (c ∷ s) = has_prefix p (c ∷ s) || contains p s

-- strings.HasSuffix(s, p).
unfoldable pub has_suffix : Text → Text → Bool
unfolding text_eq
has_suffix p [] = text_eq p []
has_suffix p (c ∷ s) = text_eq p (c ∷ s) || has_suffix p s

-- strings.TrimSuffix(s, p).
unfoldable pub trim_suffix : Text → Text → Text
unfolding text_eq
trim_suffix p [] = []
trim_suffix p (c ∷ s) = if text_eq p (c ∷ s) then [] else c ∷ trim_suffix p s

-- strings.Contains(s, p) at a single character.
unfoldable pub contains_char : ℕ → Text → Bool
contains_char b [] = false
contains_char b (c ∷ s) = c == b || contains_char b s

-- The text behind the last `b`: s[strings.LastIndex(s, b)+1:], or none if there is no `b`.
unfoldable pub after_last : ℕ → Text → Option Text
after_last b [] = none
after_last b (c ∷ s) = elim (after_last b s) [
  | some r ↦ some r
  | none ↦ if c == b then some s else none
]

-- Every character differs from `b`.
abbrev pub Lacks : ℕ → Text → Type 0
Lacks b [] = Unit
Lacks b (c ∷ s) = (c ≢ b) × Lacks b s

pub after_last-Lacks : (b : ℕ) (s : Text) → Lacks b s → after_last b s ≡ none
unfolding after_last
after_last-Lacks b [] h = refl
after_last-Lacks b (c ∷ s) (h, hs) = ground (arith, after_last-Lacks b s hs)

-- What precedes the last `b` does not matter.
pub after_last-append : (b : ℕ) (s r : Text) → Lacks b r → after_last b (s ++ b ∷ r) ≡ some r
unfolding after_last
after_last-append b [] r h = ground (arith, after_last-Lacks b r h)
after_last-append b (c ∷ s) r h = ground (arith, after_last-append b s r h)

pub contains_char-append : (b : ℕ) (s r : Text) → contains_char b (s ++ b ∷ r) ≡ true
unfolding contains_char
contains_char-append b [] r = ground arith
contains_char-append b (c ∷ s) r = ground (arith, contains_char-append b s r)

pub strip_prefix-append : (p s : Text) → strip_prefix p (p ++ s) ≡ some s
unfolding strip_prefix
strip_prefix-append [] s = refl
strip_prefix-append (c ∷ p) s = ground (arith, strip_prefix-append p s)

pub has_prefix-append : (p s : Text) → has_prefix p (p ++ s) ≡ true
unfolding has_prefix
has_prefix-append [] s = refl
has_prefix-append (c ∷ p) s = ground (arith, has_prefix-append p s)

-- A prefix is what the text begins with.
pub strip_prefix_sound : (p s r : Text) → strip_prefix p s ≡ some r → s ≡ p ++ r
unfolding strip_prefix
strip_prefix_sound [] s r h = cc
strip_prefix_sound (b ∷ p) [] r h = cc
strip_prefix_sound (b ∷ p) (c ∷ s) r h = ground (arith, strip_prefix_sound p s r)

pub has_prefix-strip :
    (p s : Text) → has_prefix p s ≡ true → (r : Text) × (strip_prefix p s ≡ some r)
unfolding has_prefix strip_prefix
has_prefix-strip [] s h = (s, refl)
has_prefix-strip (b ∷ p) [] h = cc
has_prefix-strip (b ∷ p) (c ∷ s) h =
    let (r, e) = has_prefix-strip p s (ground arith) in (r, ground arith)

pub Lacks-append : (b : ℕ) (s r : Text) → Lacks b s → Lacks b r → Lacks b (s ++ r)
Lacks-append b [] r _ h = h
Lacks-append b (c ∷ s) r (h, hs) hr = (h, Lacks-append b s r hs hr)

pub contains_char-append_left :
    (b : ℕ) (s r : Text) → contains_char b s ≡ true → contains_char b (s ++ r) ≡ true
unfolding contains_char
contains_char-append_left b [] r h = cc
contains_char-append_left b (c ∷ s) r h = ground (arith, contains_char-append_left b s r)
