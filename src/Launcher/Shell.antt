-- ===== src/Launcher/Shell.antt =====
-- The arguments that the launcher quotes are those that the shell reads.
use c_ray.Prelude.{Bool, List, Option, [], false, none, some, true, ◌++◌, ◌==◌, ◌∷◌}
use c_ray.Text.Basic.{Text}

-- How a POSIX shell cuts a line of words into its arguments, as far as the line holds only blanks,
-- single quotes, backslashes and plain characters: between single quotes every character stands for
-- itself, and a backslash outside quotes takes the next character. `in_word` says that a word has
-- begun. An open quote gives none.
pub data Mode : Type 0 where
  unquoted quoted escaped : Mode

abbrev end_word : Bool → Text → List Text → List Text
end_word true w ws = w ∷ ws
end_word false w ws = ws

abbrev with_word : Bool → Text → Option (List Text) → Option (List Text)
with_word in_word w none = none
with_word in_word w (some ws) = some (end_word in_word w ws)

pub shell_words_from : Mode → Bool → Text → Text → Option (List Text)
shell_words_from unquoted in_word w [] = some (end_word in_word w [])
shell_words_from quoted in_word w [] = none
shell_words_from escaped in_word w [] = none
shell_words_from escaped in_word w (c ∷ s) = shell_words_from unquoted true (w ++ c ∷ []) s
shell_words_from quoted in_word w (c ∷ s) = elim (c == b'\'') [
  | true ↦ shell_words_from unquoted true w s
  | false ↦ shell_words_from quoted true (w ++ c ∷ []) s
]
shell_words_from unquoted in_word w (c ∷ s) = elim (c == b'\'') [
  | true ↦ shell_words_from quoted true w s
  | false ↦ elim (c == b'\\') [
    | true ↦ shell_words_from escaped true w s
    | false ↦ elim (c == b' ') [
      | true ↦ with_word in_word w (shell_words_from unquoted false [] s)
      | false ↦ shell_words_from unquoted true (w ++ c ∷ []) s
    ]
  ]
]

pub shell_words : Text → Option (List Text)
shell_words s = shell_words_from unquoted false [] s
