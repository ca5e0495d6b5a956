-- ===== src/Text/Fields.antt =====
-- strings.Fields: the words between runs of white space.
use c_ray.Prelude.{
  All, Bool-cases, List, [], ap, append-nil, append_assoc, arith, false, inl, inr, refl, sym, true,
  ℕ, ◌++◌, ◌∙◌, ◌∷◌, ◌≡◌, ◌≢◌,
}
use c_ray.Text.Basic.{Text, codes}
use c_ray.Text.Split.{join}
use c_ray.Text.Trim.{IsBlank, IsSolid, is_space, trim_left, trim_right, trim_space}

-- The word read so far, if there is one, in front of the words behind it.
abbrev pub flush : Text → List Text → List Text
flush [] ws = ws
flush (c ∷ w) ws = (c ∷ w) ∷ ws

-- `word` is what has been read of the current word.
unfoldable pub fields_from : Text → Text → List Text
fields_from word [] = flush word []
fields_from word (c ∷ s) = elim (is_space c) [
  | true ↦ flush word (fields_from [] s)
  | false ↦ fields_from (word ++ c ∷ []) s
]

-- strings.Fields(s).
unfoldable pub fields : Text → List Text
unfolding fields_from
fields s = fields_from [] s

-- A word as Fields returns it.
abbrev pub IsWord : Text → Type 0
IsWord w = (w ≢ []) × IsSolid w

fields_from-append :
    (w s word : Text) → IsSolid w → fields_from word (w ++ s) ≡ fields_from (word ++ w) s
unfolding fields_from
fields_from-append [] s word h = rw append-nil
fields_from-append (c ∷ w) s word (h, hs) =
    rw (h, fields_from) (fields_from-append w s (word ++ c ∷ []) hs ∙ rw append_assoc)

flush_word : (w : Text) (ws : List Text) → w ≢ [] → flush w ws ≡ w ∷ ws
flush_word [] ws h = absurd (h refl)
flush_word (c ∷ w) ws h = refl

-- A word, then a space.
pub fields-append :
    (w s : Text) (c : ℕ) → IsWord w → is_space c ≡ true → fields (w ++ c ∷ s) ≡ w ∷ fields s
unfolding fields
fields-append w s c (ne, h) e =
    fields_from-append w (c ∷ s) [] h
    ∙ (unfold fields_from in rw (e, fields_from) (flush_word w _ ne))

pub fields-cons : (c : ℕ) (s : Text) → is_space c ≡ true → fields (c ∷ s) ≡ fields s
unfolding fields fields_from
fields-cons c s e = rw (e, fields_from)

pub fields_word : (w : Text) → IsWord w → fields w ≡ w ∷ []
unfolding fields
fields_word w (ne, h) =
    ap (fields_from []) (sym (append-nil w))
    ∙ fields_from-append w [] [] h
    ∙ (unfold fields_from in flush_word w [] ne)

-- White space before and behind the text changes nothing.
fields_from-trim_right : (s word : Text) → fields_from word (trim_right s) ≡ fields_from word s
unfolding fields_from trim_right
fields_from-trim_right [] word = refl
fields_from-trim_right (c ∷ s) word =
    ground (arith, fields_from-trim_right s [], fields_from-trim_right s (word ++ c ∷ []))

fields-trim_left : (s : Text) → fields (trim_left s) ≡ fields s
unfolding trim_left
fields-trim_left [] = refl
fields-trim_left (c ∷ s) = elim (Bool-cases (is_space c)) [
  | inl sp ↦ rw (sp, trim_left) (fields-trim_left s ∙ sym (fields-cons c s sp))
  | inr so ↦ rw (so, trim_left)
]

pub fields-trim_space : (s : Text) → fields (trim_space s) ≡ fields s
unfolding trim_space fields
fields-trim_space s = fields_from-trim_right (trim_left s) [] ∙ fields-trim_left s

-- The words of a line that joins words by single white space characters are those words.
pub fields-join :
    (c : ℕ) (ws : List Text) → is_space c ≡ true → All IsWord ws → fields (join (c ∷ []) ws) ≡ ws
unfolding join
fields-join c [] e _ = unfold fields fields_from in refl
fields-join c (w ∷ []) e (h, _) = fields_word w h
fields-join c (w ∷ v ∷ ws) e (h, hs) =
    fields-append w (join (c ∷ []) (v ∷ ws)) c h e ∙ rw (fields-join c (v ∷ ws) e hs)

pub fields-IsBlank : (b s : Text) → IsBlank b → fields (b ++ s) ≡ fields s
fields-IsBlank [] s h = refl
fields-IsBlank (c ∷ b) s (h, hs) = fields-cons c (b ++ s) h ∙ fields-IsBlank b s hs

-- A trailing white space character changes nothing.
pub fields-join_newline :
    (ws : List Text) → All IsWord ws → fields (join (codes " ") ws ++ codes "\n") ≡ ws
unfolding join
fields-join_newline [] _ = unfold fields fields_from is_space in refl
fields-join_newline (w ∷ []) (h, _) =
    fields-append w [] 10 h (unfold is_space in refl) ∙ (unfold fields fields_from in refl)
fields-join_newline (w ∷ v ∷ ws) (h, hs) =
    ap fields (append_assoc w (32 ∷ join (codes " ") (v ∷ ws)) (codes "\n"))
    ∙ fields-append w (join (codes " ") (v ∷ ws) ++ codes "\n") 32 h (unfold is_space in refl)
    ∙ rw (fields-join_newline (v ∷ ws) hs)
