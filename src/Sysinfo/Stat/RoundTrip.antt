-- ===== src/Sysinfo/Stat/RoundTrip.antt =====
-- A line of /proc/[pid]/stat as the kernel prints it is read back, whatever the command is.
use c_ray.Prelude.{
  All, All-append, List, [], arith, get_or-append, get_or-append_next, inl, length, length-append,
  some, true, ℕ, ◌++◌, ◌<◌, ◌^◌, ◌∙◌, ◌∷◌, ◌≡◌,
}
use c_ray.Prelude.Int.{pos}
use c_ray.Result.{ok}
use c_ray.Sysinfo.Stat.{behind_command, parse_proc_stat, stat_fields}
use c_ray.Text.Basic.{
  Lacks, Lacks-append, Text, after_last, after_last-append, codes, contains_char,
  contains_char-append, contains_char-append_left,
}
use c_ray.Text.Fields.{IsWord, fields-join_newline}
use c_ray.Text.Number.{itoa}
use c_ray.Text.Number.RoundTrip.{itoa-IsWord, itoa-Lacks, parse_int-itoa, parse_uint-itoa}
use c_ray.Text.Split.{Lacks-join, join}

-- A field behind the command: a word that holds no closing parenthesis.
abbrev pub IsStatWord : Text → Type 0
IsStatWord w = IsWord w × Lacks b')' w

-- The fields from the state on: `middle` are those from pgrp to cmajflt, `more` those behind stime.
abbrev pub stat_words : Text → ℕ → List Text → ℕ → ℕ → List Text → List Text
stat_words state ppid middle utime stime more =
    state ∷ itoa ppid ∷ (middle ++ itoa utime ∷ itoa stime ∷ more)

-- "pid (comm) " and the fields, with a newline.
abbrev pub stat_line : Text → Text → List Text → Text
stat_line pid comm words =
    ((pid ++ codes " ") ++ b'(' ∷ comm) ++ b')' ∷ b' ' ∷ (join (codes " ") words ++ codes "\n")

All-IsWord : (ws : List Text) → All IsStatWord ws → All IsWord ws
All-IsWord [] h = tt
All-IsWord (w ∷ ws) (h, hs) = (h.0, All-IsWord ws hs)

All-Lacks : (ws : List Text) → All IsStatWord ws → All (Lacks b')') ws
All-Lacks [] h = tt
All-Lacks (w ∷ ws) (h, hs) = (h.1, All-Lacks ws hs)

-- The line splits behind the command at its last parenthesis.
parse_proc_stat-line :
    (pid comm : Text) (words : List Text)
    → All IsStatWord words
    → parse_proc_stat (stat_line pid comm words) ≡ stat_fields words
unfolding parse_proc_stat
parse_proc_stat-line pid comm words h =
    rw (has_open, split, behind_command) (rw (fields-join_newline words (All-IsWord words h)))
  where
    rest : Text
    rest = join (codes " ") words ++ codes "\n"

    has_open : contains_char b'(' (stat_line pid comm words) ≡ true
    has_open =
        contains_char-append_left b'(' ((pid ++ codes " ") ++ b'(' ∷ comm) _
          (contains_char-append b'(' (pid ++ codes " ") comm)

    split : after_last b')' (stat_line pid comm words) ≡ some (b' ' ∷ rest)
    split = after_last-append b')' ((pid ++ codes " ") ++ b'(' ∷ comm) (b' ' ∷ rest) (
      omega arith,
      Lacks-append b')' _ _ (Lacks-join b')' (codes " ") words (omega arith) (All-Lacks words h))
          (omega arith),
    )

pub itoa-IsStatWord : (n : ℕ) → IsStatWord (itoa n)
itoa-IsStatWord n = (itoa-IsWord n, itoa-Lacks b')' n (inl (omega arith)))

stat_fields-stat_words :
    (state : Text) (ppid utime stime : ℕ) (middle more : List Text)
    → ppid < 2 ^ 63
    → utime < 2 ^ 64
    → stime < 2 ^ 64
    → length middle ≡ 9
    → stat_fields (stat_words state ppid middle utime stime more)
      ≡ ok (record { state = state; ppid = pos ppid; utime = utime; stime = stime })
unfolding stat_fields
stat_fields-stat_words state ppid utime stime middle more hp hu hs len = ground (
  arith,
  length-append middle (itoa utime ∷ itoa stime ∷ more),
  get_or-append 9 middle (itoa utime) (itoa stime ∷ more) [] len,
  get_or-append_next 9 middle (itoa utime) (itoa stime) more [] len,
  parse_int-itoa ppid hp,
  parse_uint-itoa 64 utime (omega arith),
  parse_uint-itoa 64 stime (omega arith),
)

-- Every line that the kernel prints is read back: the state, the parent and the two times are
-- those of the line, also where the command holds parentheses, spaces or digits. The parent is
-- below 2^63 and the times below 2^64, nine fields stand between the parent and the times, and no
-- field behind the command is empty or holds a blank or a closing parenthesis.
pub parse_proc_stat-stat_line :
    (pid comm state : Text) (ppid utime stime : ℕ) (middle more : List Text)
    → ppid < 2 ^ 63
    → utime < 2 ^ 64
    → stime < 2 ^ 64
    → length middle ≡ 9
    → All IsStatWord (state ∷ middle)
    → All IsStatWord more
    → parse_proc_stat (stat_line pid comm (stat_words state ppid middle utime stime more))
      ≡ ok (record { state = state; ppid = pos ppid; utime = utime; stime = stime })
parse_proc_stat-stat_line pid comm state ppid utime stime middle more hp hu hs len hm hr =
    parse_proc_stat-line pid comm words words_are
    ∙ stat_fields-stat_words state ppid utime stime middle more hp hu hs len
  where
    words : List Text
    words = stat_words state ppid middle utime stime more

    words_are : All IsStatWord words
    words_are = (
      hm.0,
      (
        itoa-IsStatWord ppid,
        All-append IsStatWord middle (itoa utime ∷ itoa stime ∷ more) hm.1
            (itoa-IsStatWord utime, (itoa-IsStatWord stime, hr)),
      ),
    )
