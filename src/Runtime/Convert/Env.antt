-- ===== src/Runtime/Convert/Env.antt =====
-- The environment that ParseEnvVars reads.
-- An entry of the environment: a variable whose name is not empty and has no equals sign, an entry
-- without an equals sign, and one that begins with it.
use c_ray.Prelude.{All, List, [], map, refl, ℕ, ◌++◌, ◌∷◌, ◌≡◌}
use c_ray.Runtime.Convert.{EnvVar, is_kubernetes_env_key, parse_env_vars}
use c_ray.Text.Basic.{Lacks, Text}
use c_ray.Text.Split.{cut-Lacks, cut-append}

pub data Entry : Type 0 where
  variable : ℕ → Text → Text → Entry
  bare unnamed : Text → Entry

abbrev pub entry_text : Entry → Text
entry_text (variable c key value) = (c ∷ key) ++ b'=' ∷ value
entry_text (bare s) = s
entry_text (unnamed value) = b'=' ∷ value

abbrev pub IsEntry : Entry → Type 0
IsEntry (variable c key value) = Lacks b'=' (c ∷ key)
IsEntry (bare s) = Lacks b'=' s
IsEntry (unnamed value) = Unit

-- The variables among the entries, in order.
abbrev pub variables : List Entry → List EnvVar
variables [] = []
variables (variable c key value ∷ es) =
    record { key = c ∷ key; value = value; is_kubernetes = is_kubernetes_env_key (c ∷ key) }
    ∷ variables es
variables (bare s ∷ es) = variables es
variables (unnamed value ∷ es) = variables es

-- ParseEnvVars gives the variables of an environment in order, the values as they are, also where a
-- value holds equals signs or is empty, and skips the entries without a name or without an equals
-- sign.
pub parse_env_vars-variables :
    (es : List Entry) → All IsEntry es → parse_env_vars (map entry_text es) ≡ variables es
unfolding parse_env_vars
parse_env_vars-variables [] _ = refl
parse_env_vars-variables (variable c key value ∷ es) (h, hs) =
    rw (cut-append b'=' (c ∷ key) value h, parse_env_vars)
      (rw (parse_env_vars-variables es hs) refl)
parse_env_vars-variables (bare s ∷ es) (h, hs) =
    rw (cut-Lacks b'=' s h, parse_env_vars) (parse_env_vars-variables es hs)
parse_env_vars-variables (unnamed value ∷ es) (h, hs) =
    rw (cut-append b'=' [] value tt, parse_env_vars) (parse_env_vars-variables es hs)
