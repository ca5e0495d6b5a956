-- ===== src/Tests/Stat.antt =====
-- Lines of /proc/[pid]/stat.
use c_ray.Prelude.{All, List, [], arith, refl, true, ◌++◌, ◌↔◌, ◌∷◌, ◌≡◌}
use c_ray.Prelude.Int.{pos}
use c_ray.Result.{ok, panic}
use c_ray.Sysinfo.Stat.{parse_proc_stat}
use c_ray.Sysinfo.Stat.Panic.{parse_proc_stat-panic}
use c_ray.Sysinfo.Stat.RoundTrip.{
  IsStatWord, itoa-IsStatWord, parse_proc_stat-stat_line, stat_line, stat_words,
}
use c_ray.Tests.Words.{is_solid, test-IsWord}
use c_ray.Text.Basic.{Text, codes, contains_char}
use c_ray.Text.Number.{itoa, parse_int, parse_uint}
use c_ray.Text.Trim.{is_space}

stat_line_test :
    parse_proc_stat (codes "7 (a) (b c) S 3 1 1 0 -1 4 5 6 7 8 42 43 0")
    ≡ ok (record { state = codes "S"; ppid = pos 3; utime = 42; stime = 43 })
unfolding parse_proc_stat is_space parse_int parse_uint
stat_line_test = refl

abbrev nine : List Text
nine = itoa 1 ∷ itoa 2 ∷ itoa 3 ∷ itoa 4 ∷ itoa 5 ∷ itoa 6 ∷ itoa 7 ∷ itoa 8 ∷ itoa 9 ∷ []

nine-words : All IsStatWord nine
nine-words = (
  itoa-IsStatWord 1,
  (
    itoa-IsStatWord 2,
    (
      itoa-IsStatWord 3,
      (
        itoa-IsStatWord 4,
        (
          itoa-IsStatWord 5,
          (itoa-IsStatWord 6, (itoa-IsStatWord 7, (itoa-IsStatWord 8, (itoa-IsStatWord 9, tt)))),
        ),
      ),
    ),
  ),
)

sleeping : IsStatWord (codes "S")
sleeping =
    (unfold is_space in test-IsWord b'S' [] (unfold is_solid in refl), ((λ e. ground arith), tt))

parse_proc_stat-stat_line_example :
    parse_proc_stat (stat_line (codes "7") (codes "a) (b") (stat_words (codes "S") 3 nine 42 43 []))
    ≡ ok (record { state = codes "S"; ppid = pos 3; utime = 42; stime = 43 })
parse_proc_stat-stat_line_example =
    parse_proc_stat-stat_line (codes "7") (codes "a) (b") (codes "S") 3 42 43 nine [] (omega arith)
      (omega arith) (omega arith) refl (sleeping, nine-words) tt

parse_proc_stat-panic_example : (parse_proc_stat (codes "7 (sh)") ≡ panic) ↔ (
    (contains_char b'(' (codes "7 (sh)") ≡ true) × ((t : Text) × (codes "7 (sh)" ≡ t ++ b')' ∷ [])))
parse_proc_stat-panic_example = parse_proc_stat-panic (codes "7 (sh)")
