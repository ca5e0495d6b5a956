-- ===== src/Sysinfo/Stat/Panic.antt =====
-- Where the slice behind the command is out of range.
use c_ray.Prelude.{
  Bool-cases, List, Option, Option-cases, [], ap, arith, false, inl, inr, none, refl, some, true, ℕ,
  ◌++◌, ◌↔◌, ◌∙◌, ◌∷◌, ◌≡◌, ◌≢◌,
}
use c_ray.Result.{err, panic}
use c_ray.Sysinfo.Stat.{behind_command, invalid_stat_format, parse_proc_stat, stat_fields}
use c_ray.Text.Basic.{Text, after_last, after_last-append, contains_char}
use c_ray.Text.Fields.{fields}

after_last-eq-nil : (b : ℕ) (s : Text) → after_last b s ≡ some [] → (t : Text) × (s ≡ t ++ b ∷ [])
unfolding after_last
after_last-eq-nil b [] h = cc
after_last-eq-nil b (c ∷ s) h = elim (Option-cases (after_last b s)) [
  | inl e ↦ ([], ground arith)
  | inr (r, e) ↦ let (t, p) = after_last-eq-nil b s (ground arith) in (c ∷ t, ap (◌∷◌ c) p)
]

stat_fields-ne-panic : (ws : List Text) → stat_fields ws ≢ panic
unfolding stat_fields
stat_fields-ne-panic ws = ground arith

-- What `parse_proc_stat` does with the text behind the last parenthesis.
behind-eq-panic :
    (o : Option Text)
    → elim o [ none ↦ err invalid_stat_format | some s ↦ behind_command s ] ≡ panic
    → o ≡ some []
unfolding behind_command
behind-eq-panic none h = cc
behind-eq-panic (some []) h = refl
behind-eq-panic (some (c ∷ s)) h = absurd (stat_fields-ne-panic (fields s) h)

-- The parser panics exactly on the lines that hold an opening parenthesis and end with a closing
-- one.
pub parse_proc_stat-panic :
    (s : Text)
    → (parse_proc_stat s ≡ panic)
      ↔ ((contains_char b'(' s ≡ true) × ((t : Text) × (s ≡ t ++ b')' ∷ [])))
unfolding parse_proc_stat behind_command
parse_proc_stat-panic s = (
  λ h. elim (Bool-cases (contains_char b'(' s)) [
    | inl open_found ↦ (
      open_found,
      after_last-eq-nil b')' s (behind-eq-panic (after_last b')' s) (rw (open_found) at h)),
    )
    | inr no_open ↦ absurd (no_panic no_open h)
  ],
  λ (found, (t, e)). rw (found, ap (after_last b')') e ∙ after_last-append b')' t [] tt),
)
  where
    no_panic : contains_char b'(' s ≡ false → parse_proc_stat s ≡ panic → ⊥
    no_panic e h = ground arith
