-- ===== src/Launcher.antt =====
-- cmd/cray-launcher/main.go: the quoting of the arguments for `sh -c`, the environment that is passed
-- on, and the arguments of `docker run`.
pub mod Shell
use c_ray.Prelude.{Bool, List, [], if◌then◌else◌, map, none, not, some, ◌&&◌, ◌++◌, ◌==◌, ◌||◌, ◌∷◌}
use c_ray.Text.Basic.{Text, codes, has_prefix, text_eq}
use c_ray.Text.Split.{cut, join}

-- strings.ReplaceAll(s, "'", "'\\''").
unfoldable pub escape_quotes : Text → Text
escape_quotes [] = []
escape_quotes (c ∷ s) =
    let rest = escape_quotes s in
    if c == b'\'' then b'\'' ∷ b'\\' ∷ b'\'' ∷ b'\'' ∷ rest else c ∷ rest

-- shellQuote.
unfoldable pub shell_quote : Text → Text
unfolding escape_quotes
shell_quote s = b'\'' ∷ (escape_quotes s ++ b'\'' ∷ [])

-- joinShellArgs.
unfoldable pub join_shell_args : List Text → Text
unfolding shell_quote join
join_shell_args args = join (codes " ") (map shell_quote args)

-- The key of an environment entry: the text before the first "=".
abbrev pub env_key : Text → Text
env_key env = elim (cut b'=' env) [ none ↦ env | some (k, v) ↦ k ]

-- The switch of passEnv.
unfoldable pub passes_env : Text → Bool
passes_env key =
    text_eq key (codes "TERM")
    || text_eq key (codes "COLORTERM")
    || text_eq key (codes "LANG")
    || has_prefix (codes "CRAY_") key
      && not (text_eq key (codes "CRAY_LAUNCHER_IMAGE"))
      && not (text_eq key (codes "CRAY_LAUNCHER_DEBUG"))
    || has_prefix (codes "CONTAINERD_") key

-- passEnv, over os.Environ().
unfoldable pub pass_env : List Text → List Text → List Text
unfolding passes_env
pass_env args [] = args
pass_env args (env ∷ environ) =
    pass_env (if passes_env (env_key env) then args ++ codes "-e" ∷ env ∷ [] else args) environ
