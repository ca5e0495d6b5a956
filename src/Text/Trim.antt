-- ===== src/Text/Trim.antt =====
-- White space (unicode.IsSpace) and strings.TrimSpace.
use mathlib.Core.Bool.{false≢true}
use c_ray.Prelude.{
  Bool, [], ap, arith, false, if◌then◌else◌, leb, refl, sym, true, ℕ, ◌&&◌, ◌++◌, ◌==◌, ◌||◌, ◌∙◌,
  ◌∷◌, ◌≡◌, ◌≢◌,
}
use c_ray.Text.Basic.{Lacks, Text, codes, is_empty}

-- unicode.IsSpace: the Latin-1 spaces, then the other code points with the property White_Space.
unfoldable pub is_space : ℕ → Bool
is_space c =
    leb 9 c && leb c 13
    || c == 32
    || c == 0x85
    || c == 0xa0
    || c == 0x1680
    || leb 0x2000 c && leb c 0x200a
    || c == 0x2028
    || c == 0x2029
    || c == 0x202f
    || c == 0x205f
    || c == 0x3000

-- No character is white space.
abbrev pub IsSolid : Text → Type 0
IsSolid [] = Unit
IsSolid (c ∷ s) = (is_space c ≡ false) × IsSolid s

unfoldable pub trim_left : Text → Text
trim_left [] = []
trim_left (c ∷ s) = if is_space c then trim_left s else c ∷ s

-- A character in front of a text whose end is trimmed.
abbrev trim_cons : ℕ → Text → Text
trim_cons c [] = if is_space c then [] else c ∷ []
trim_cons c (d ∷ s) = c ∷ d ∷ s

unfoldable pub trim_right : Text → Text
trim_right [] = []
trim_right (c ∷ s) = trim_cons c (trim_right s)

-- strings.TrimSpace(s).
unfoldable pub trim_space : Text → Text
unfolding trim_left trim_right
trim_space s = trim_right (trim_left s)

trim_left-IsSolid : (s : Text) → IsSolid s → trim_left s ≡ s
unfolding trim_left
trim_left-IsSolid [] h = refl
trim_left-IsSolid (c ∷ s) (h, hs) = rw h

trim_right-IsSolid : (s : Text) → IsSolid s → trim_right s ≡ s
unfolding trim_right
trim_right-IsSolid [] h = refl
trim_right-IsSolid (c ∷ []) (h, hs) = rw h
trim_right-IsSolid (c ∷ d ∷ s) (h, hs) = rw (trim_right-IsSolid (d ∷ s) hs)

-- A text with no white space is left alone.
pub trim_space-IsSolid : (s : Text) → IsSolid s → trim_space s ≡ s
unfolding trim_space
trim_space-IsSolid s h = rw (trim_left-IsSolid s h) (trim_right-IsSolid s h)

-- A leading space goes.
pub trim_space-cons : (c : ℕ) (s : Text) → is_space c ≡ true → trim_space (c ∷ s) ≡ trim_space s
unfolding trim_space trim_left
trim_space-cons c s h = rw h

-- The first character that is left is no white space.
abbrev pub StartsSolid : Text → Type 0
StartsSolid [] = Unit
StartsSolid (c ∷ s) = is_space c ≡ false

trim_left-StartsSolid : (s : Text) → StartsSolid (trim_left s)
unfolding trim_left
trim_left-StartsSolid [] = tt
trim_left-StartsSolid (c ∷ s) = ground (arith, trim_left-StartsSolid s)

trim_right-StartsSolid : (s : Text) → StartsSolid s → StartsSolid (trim_right s)
unfolding trim_right
trim_right-StartsSolid [] h = tt
trim_right-StartsSolid (c ∷ s) h = go (trim_right s)
  where
    go : (r : Text) → StartsSolid (trim_cons c r)
    go [] = rw h h
    go (d ∷ r) = h

pub trim_space-StartsSolid : (s : Text) → StartsSolid (trim_space s)
unfolding trim_space
trim_space-StartsSolid s = trim_right-StartsSolid (trim_left s) (trim_left-StartsSolid s)

-- White space in front of a text.
abbrev pub IsBlank : Text → Type 0
IsBlank [] = Unit
IsBlank (c ∷ s) = (is_space c ≡ true) × IsBlank s

pub trim_space-IsBlank : (b s : Text) → IsBlank b → trim_space (b ++ s) ≡ trim_space s
trim_space-IsBlank [] s h = refl
trim_space-IsBlank (c ∷ b) s (h, hs) = trim_space-cons c (b ++ s) h ∙ trim_space-IsBlank b s hs

pub IsBlank-Lacks : (c : ℕ) (b : Text) → is_space c ≡ false → IsBlank b → Lacks c b
IsBlank-Lacks c [] h _ = tt
IsBlank-Lacks c (d ∷ b) h (hd, hb) =
    (λ e. false≢true (sym h ∙ ap is_space (sym e) ∙ hd), IsBlank-Lacks c b h hb)

pub IsSolid-append : (s r : Text) → IsSolid s → IsSolid r → IsSolid (s ++ r)
IsSolid-append [] r _ h = h
IsSolid-append (c ∷ s) r (h, hs) hr = (h, IsSolid-append s r hs hr)

trim_left-append : (w r : Text) → StartsSolid w → w ≢ [] → trim_left (w ++ r) ≡ w ++ r
unfolding trim_left
trim_left-append [] r h ne = absurd (ne refl)
trim_left-append (c ∷ w) r h ne = rw h

trim_right-append : (w r : Text) → IsSolid w → trim_right r ≡ [] → trim_right (w ++ r) ≡ w
unfolding trim_right
trim_right-append [] r h e = e
trim_right-append (c ∷ w) r (h, hs) e = rw (trim_right-append w r hs e) (trim_cons_solid c w h)
  where
    trim_cons_solid : (c : ℕ) (w : Text) → is_space c ≡ false → trim_cons c w ≡ c ∷ w
    trim_cons_solid c [] h = rw h
    trim_cons_solid c (d ∷ w) h = refl

-- A word and the newline behind it.
pub trim_space-newline : (w : Text) → IsSolid w → trim_space (w ++ codes "\n") ≡ w
unfolding trim_space
trim_space-newline [] h = unfold trim_left trim_right is_space in refl
trim_space-newline (c ∷ w) (h, hs) =
    ap trim_right (trim_left-append (c ∷ w) (codes "\n") h (λ e. cc))
    ∙ trim_right-append (c ∷ w) (codes "\n") (h, hs) (unfold trim_right is_space in refl)

trim_right-keeps : (s : Text) → StartsSolid s → is_empty (trim_right s) ≡ is_empty s
unfolding trim_right
trim_right-keeps [] h = refl
trim_right-keeps (c ∷ s) h = go (trim_right s)
  where
    go : (r : Text) → is_empty (trim_cons c r) ≡ false
    go [] = rw h refl
    go (d ∷ r) = refl

-- Trimming a text that begins with no blank leaves some of it.
pub trim_space-keeps : (s : Text) → StartsSolid s → is_empty (trim_space s) ≡ is_empty s
unfolding trim_space trim_left
trim_space-keeps [] h = trim_right-keeps [] h
trim_space-keeps (c ∷ s) h = rw h (trim_right-keeps (c ∷ s) h)
