-- ===== src/Sysinfo/CGroup/CpuStat.antt =====
-- The counters of cpu.stat.
use mathlib.Core.List.{foldl}
use c_ray.Prelude.{
  All, Bool, List, [], ap, arith, false, inl, map, refl, true, ℕ, ◌/◌, ◌<◌, ◌^◌, ◌∙◌, ◌∷◌, ◌≡◌, ◌≤◌,
}
use c_ray.Sysinfo.CGroup.{
  CGroupCpuStats, cpu_stat_entry, cpu_stat_fields, cpu_stat_line, parse_cpu_stat,
}
use c_ray.Sysinfo.CGroupFile.Choice.{entries}
use c_ray.Text.Basic.{Lacks, Text, codes, text_eq}
use c_ray.Text.Fields.{IsWord, fields-join}
use c_ray.Text.Number.{itoa}
use c_ray.Text.Number.RoundTrip.{itoa-IsWord, itoa-Lacks, parse_uint-itoa}
use c_ray.Text.Split.{Lacks-join, join, split-join}
use c_ray.Text.Trim.{IsSolid, is_space}

-- A line of the file: a key and a number.
abbrev pub stat_entry_line : Text → ℕ → Text
stat_entry_line key n = join (codes " ") (key ∷ itoa n ∷ [])

cpu_stat_line-entry :
    (ns_to_usec : Bool) (key : Text) (n : ℕ) (s : CGroupCpuStats)
    → IsWord key
    → n < 2 ^ 64
    → cpu_stat_line ns_to_usec s (stat_entry_line key n) ≡ cpu_stat_entry ns_to_usec key n s
unfolding cpu_stat_line
cpu_stat_line-entry ns_to_usec key n s hk h =
    ap (λ ws. cpu_stat_fields ns_to_usec ws s)
      (fields-join 32 (key ∷ itoa n ∷ []) (unfold is_space in refl) (hk, (itoa-IsWord n, tt)))
    ∙ rw (parse_uint-itoa 64 n (omega arith), cpu_stat_fields)

-- The entries of a file, in any order, with other keys between them.
abbrev pub stat_file : List (Text × ℕ) → Text
stat_file entries = join (codes "\n") (map (λ (e : Text × ℕ). stat_entry_line e.0 e.1) entries)

-- What an entry must be for its line to be read: a word as its key, and a number that fits.
abbrev pub IsStatEntry : Text × ℕ → Type 0
IsStatEntry (key, n) = IsWord key × Lacks b'\n' key × (n < 2 ^ 64)

foldl-cpu_stat_line :
    (ns_to_usec : Bool) (entries : List (Text × ℕ)) (s : CGroupCpuStats)
    → All IsStatEntry entries
    → foldl (cpu_stat_line ns_to_usec) s (map (λ (e : Text × ℕ). stat_entry_line e.0 e.1) entries)
      ≡ foldl (λ s (e : Text × ℕ). cpu_stat_entry ns_to_usec e.0 e.1 s) s entries
foldl-cpu_stat_line ns_to_usec [] s h = refl
foldl-cpu_stat_line ns_to_usec ((key, n) ∷ entries) s ((hk, hl, hn), hs) =
    ap
      (λ t.
        foldl (cpu_stat_line ns_to_usec) t
          (map (λ (e : Text × ℕ). stat_entry_line e.0 e.1) entries))
      (cpu_stat_line-entry ns_to_usec key n s hk hn)
    ∙ foldl-cpu_stat_line ns_to_usec entries (cpu_stat_entry ns_to_usec key n s) hs

lines-Lacks :
    (entries : List (Text × ℕ))
    → All IsStatEntry entries
    → All (Lacks b'\n') (map (λ (e : Text × ℕ). stat_entry_line e.0 e.1) entries)
lines-Lacks [] h = tt
lines-Lacks ((key, n) ∷ entries) ((hk, hl, hn), hs) = (
  Lacks-join b'\n' (codes " ") (key ∷ itoa n ∷ []) (omega arith)
      (hl, (itoa-Lacks b'\n' n (inl (omega arith)), tt)),
  lines-Lacks entries hs,
)

-- parseCPUStat applies the entries of a file one after the other, where each has a word as its key
-- and a number below 2^64.
pub parse_cpu_stat-stat_file :
    (ns_to_usec : Bool) (entry : Text × ℕ) (entries : List (Text × ℕ)) (s : CGroupCpuStats)
    → All IsStatEntry (entry ∷ entries)
    → parse_cpu_stat (stat_file (entry ∷ entries)) ns_to_usec s
      ≡ foldl (λ s (e : Text × ℕ). cpu_stat_entry ns_to_usec e.0 e.1 s) s (entry ∷ entries)
unfolding parse_cpu_stat
parse_cpu_stat-stat_file ns_to_usec entry entries s h =
    let lines = lines-Lacks (entry ∷ entries) h in
    ap (foldl (cpu_stat_line ns_to_usec) s) (
      split-join b'\n' (stat_entry_line entry.0 entry.1)
        (map (λ (e : Text × ℕ). stat_entry_line e.0 e.1) entries) lines.0 lines.1)
    ∙ foldl-cpu_stat_line ns_to_usec (entry ∷ entries) s h

-- A word of lower-case letters and underscores holds no white space and no newline.
key-IsSolid : (key : Text) → All (λ c. (b'_' ≤ c) × (c ≤ b'z')) key → IsSolid key × Lacks b'\n' key
key-IsSolid [] h = (tt, tt)
key-IsSolid (c ∷ key) (h, hs) =
    let (solid, lacks) = key-IsSolid key hs in ((not_space c h.0 h.1, solid), (omega arith, lacks))
  where
    not_space : (c : ℕ) → b'_' ≤ c → c ≤ b'z' → is_space c ≡ false
    not_space c lo hi = unfold is_space in ground arith

key_entry :
    (c : ℕ) (key : Text) (n : ℕ)
    → All (λ c. (b'_' ≤ c) × (c ≤ b'z')) (c ∷ key)
    → n < 2 ^ 64
    → IsStatEntry (c ∷ key, n)
key_entry c key n h hn =
    let (solid, lacks) = key-IsSolid (c ∷ key) h in (((λ e. cc), solid), lacks, hn)

-- For counters below 2^64, the cpu.stat of version 2 gives its six counters as they are. That of
-- version 1 gives the periods, and the throttled time in microseconds where the file has
-- nanoseconds.
pub parse_cpu_stat_versions :
    (usage user system periods throttled time : ℕ) (s : CGroupCpuStats)
    → All (λ n. n < 2 ^ 64) (usage ∷ user ∷ system ∷ periods ∷ throttled ∷ time ∷ [])
    → (parse_cpu_stat
          (stat_file (
            (codes "usage_usec", usage)
            ∷ (codes "user_usec", user)
            ∷ (codes "system_usec", system)
            ∷ (codes "nr_periods", periods)
            ∷ (codes "nr_throttled", throttled)
            ∷ (codes "throttled_usec", time)
            ∷ []))
          false
          s
        ≡ record {
          usage_usec = usage;
          user_usec = user;
          system_usec = system;
          nr_periods = periods;
          nr_throttled = throttled;
          throttled_usec = time;
        })
      × (parse_cpu_stat
            (stat_file (
              (codes "nr_periods", periods)
              ∷ (codes "nr_throttled", throttled)
              ∷ (codes "throttled_time", time)
              ∷ []))
            true
            s
          ≡ record s {
            nr_periods = periods;
            nr_throttled = throttled;
            throttled_usec = time / 1000;
          })
parse_cpu_stat_versions usage user system periods throttled time s
      (h1, (h2, (h3, (h4, (h5, (h6, _)))))) =
    (
      parse_cpu_stat-stat_file false (codes "usage_usec", usage)
            ((codes "user_usec", user)
              ∷ (codes "system_usec", system)
              ∷ (codes "nr_periods", periods)
              ∷ (codes "nr_throttled", throttled)
              ∷ (codes "throttled_usec", time)
              ∷ [])
            s
            (
              key_entry b'u' (codes "sage_usec") usage (omega arith) h1,
              (
                key_entry b'u' (codes "ser_usec") user (omega arith) h2,
                (
                  key_entry b's' (codes "ystem_usec") system (omega arith) h3,
                  (
                    key_entry b'n' (codes "r_periods") periods (omega arith) h4,
                    (
                      key_entry b'n' (codes "r_throttled") throttled (omega arith) h5,
                      (key_entry b't' (codes "hrottled_usec") time (omega arith) h6, tt),
                    ),
                  ),
                ),
              ),
            )
          ∙ unfold cpu_stat_entry text_eq in refl,
      parse_cpu_stat-stat_file true (codes "nr_periods", periods)
            ((codes "nr_throttled", throttled) ∷ (codes "throttled_time", time) ∷ []) s
            (
              key_entry b'n' (codes "r_periods") periods (omega arith) h4,
              (
                key_entry b'n' (codes "r_throttled") throttled (omega arith) h5,
                (key_entry b't' (codes "hrottled_time") time (omega arith) h6, tt),
              ),
            )
          ∙ unfold cpu_stat_entry text_eq in refl,
    )
