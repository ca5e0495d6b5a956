-- ===== src/Runtime/Conmon/Arguments.antt =====
-- The command lines that conmon is started with.
use c_ray.Prelude.{List, [], ◌++◌, ◌∷◌}
use c_ray.Runtime.Conmon.{ConmonState, set_attach_socket, set_log_path, set_terminal}
use c_ray.Text.Basic.{Text, codes}

-- An option of conmon, in the ways to write it.
pub data ConmonOption : Type 0 where
  log_l log_path_next log_path_joined attach_next attach_joined : Text → ConmonOption
  terminal_t terminal_long : ConmonOption

-- The arguments of an option.
pub option_words : ConmonOption → List Text
option_words (log_l v) = codes "-l" ∷ v ∷ []
option_words (log_path_next v) = codes "--log-path" ∷ v ∷ []
option_words (log_path_joined v) = (codes "--log-path=" ++ v) ∷ []
option_words (attach_next v) = codes "--attach-socket-path" ∷ v ∷ []
option_words (attach_joined v) = (codes "--attach-socket-path=" ++ v) ∷ []
option_words terminal_t = codes "-t" ∷ []
option_words terminal_long = codes "--terminal" ∷ []

-- What an option says.
pub option_says : ConmonOption → ConmonState → ConmonState
option_says (log_l v) = set_log_path v
option_says (log_path_next v) = set_log_path v
option_says (log_path_joined v) = set_log_path v
option_says (attach_next v) = set_attach_socket v
option_says (attach_joined v) = set_attach_socket v
option_says terminal_t = set_terminal
option_says terminal_long = set_terminal

pub options_words : List ConmonOption → List Text
unfolding option_words
options_words [] = []
options_words (o ∷ os) = option_words o ++ options_words os

pub options_say : List ConmonOption → ConmonState → ConmonState
options_say [] s = s
options_say (o ∷ os) s = options_say os (option_says o s)

-- Where the command line has no argument left, or only an option whose value is missing.
pub data CutShort : List Text → Type 0 where
  whole : CutShort []
  no_log_value : CutShort (codes "-l" ∷ [])
  no_log_path_value : CutShort (codes "--log-path" ∷ [])
  no_attach_value : CutShort (codes "--attach-socket-path" ∷ [])
