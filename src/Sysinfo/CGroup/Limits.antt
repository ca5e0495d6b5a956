-- ===== src/Sysinfo/CGroup/Limits.antt =====
-- The limits that the kernel prints in the files of a version 2 cgroup are read back.
use c_ray.Prelude.{
  Option, [], ap, append-nil, arith, none, refl, some, ℕ, ◌++◌, ◌<◌, ◌^◌, ◌∙◌, ◌∷◌, ◌≡◌,
}
use c_ray.Prelude.Int.{pos, ℤ}
use c_ray.Sysinfo.CGroup.{
  cgroup_v2_limits, cpu_max_fields, cpu_max_of, int64_of, max_of, set_or, weight_fields, weight_of,
}
use c_ray.Text.Basic.{Text, codes, text_eq, text_eq_iff, text_eq_refl}
use c_ray.Text.Fields.{IsWord, fields, fields-join_newline}
use c_ray.Text.Number.{if_parsed, itoa, parse_int, parse_uint}
use c_ray.Text.Number.RoundTrip.{
  itoa-IsSolid, itoa-IsWord, itoa-ne_word, parse_int-itoa, parse_uint-itoa,
}
use c_ray.Text.Split.{join}
use c_ray.Text.Trim.{is_space, trim_space, trim_space-newline}

-- A number and a newline, as the kernel prints it.
abbrev pub number_file : ℕ → Text
number_file n = itoa n ++ codes "\n"

-- A limit: a number, or "max" where there is none.
abbrev pub max_file : Option ℕ → Text
max_file none = codes "max\n"
max_file (some n) = number_file n

-- cpu.max: the quota, or "max", and the period.
abbrev pub max_word : Option ℕ → Text
max_word none = codes "max"
max_word (some n) = itoa n

abbrev pub cpu_max_file : Option ℕ → ℕ → Text
cpu_max_file quota period = join (codes " ") (max_word quota ∷ itoa period ∷ []) ++ codes "\n"

-- The value of a limit in the record: 0 where there is none.
abbrev pub limit_value : Option ℕ → ℤ
limit_value none = pos 0
limit_value (some n) = pos n

-- A number that is given fits in an int64.
abbrev pub IsInt64 : Option ℕ → Type 0
IsInt64 none = Unit
IsInt64 (some n) = n < 2 ^ 63

int64_of-number_file : (n : ℕ) → n < 2 ^ 63 → int64_of (some (number_file n)) ≡ some (pos n)
unfolding int64_of
int64_of-number_file n h = rw (trim_space-newline (itoa n) (itoa-IsSolid n), parse_int-itoa n h)

max_of-max_file :
    (m : Option ℕ) → IsInt64 m → set_or (pos 0) (max_of (some (max_file m))) ≡ limit_value m
unfolding max_of
max_of-max_file none h = unfold text_eq trim_space is_space parse_int parse_uint in refl
max_of-max_file (some n) h = ground (
  arith,
  text_eq_iff (number_file n) (codes "max"),
  itoa-ne_word n b'm' (codes "\n") (codes "ax") (omega arith),
  trim_space-newline (itoa n) (itoa-IsSolid n),
  parse_int-itoa n h,
)

max_word-IsWord : (m : Option ℕ) → IsWord (max_word m)
max_word-IsWord none = ((λ e. cc), unfold is_space in (refl, (refl, (refl, tt))))
max_word-IsWord (some n) = itoa-IsWord n

cpu_max_of-cpu_max_file :
    (quota : Option ℕ) (period : ℕ)
    → IsInt64 quota
    → period < 2 ^ 63
    → (set_or (pos 0) (cpu_max_of (some (cpu_max_file quota period))).0 ≡ limit_value quota)
      × (set_or (pos 0) (cpu_max_of (some (cpu_max_file quota period))).1 ≡ pos period)
unfolding cpu_max_of
cpu_max_of-cpu_max_file quota period hq hp = (
  ap (λ ws. set_or (pos 0) (cpu_max_fields ws).0) words ∙ quota_read quota hq,
  ap (λ ws. set_or (pos 0) (cpu_max_fields ws).1) words
      ∙ ap (λ v. set_or (pos 0) (if_parsed v)) (parse_int-itoa period hp),
)
  where
    words : fields (cpu_max_file quota period) ≡ max_word quota ∷ itoa period ∷ []
    words =
        fields-join_newline (max_word quota ∷ itoa period ∷ [])
          (max_word-IsWord quota, (itoa-IsWord period, tt))

    quota_read :
        (quota : Option ℕ)
        → IsInt64 quota
        → set_or (pos 0) (cpu_max_fields (max_word quota ∷ itoa period ∷ [])).0 ≡ limit_value quota
    quota_read none h = rw (text_eq_refl (codes "max"))
    quota_read (some n) h = ground (
      arith,
      text_eq_iff (itoa n) (codes "max"),
      append-nil (itoa n),
      itoa-ne_word n b'm' [] (codes "ax") (omega arith),
      parse_int-itoa n h,
    )

weight_of-print :
    (n : ℕ) → n < 2 ^ 16 → weight_of (some (codes "default " ++ number_file n)) ≡ some n
unfolding weight_of join
weight_of-print n h =
    ap weight_fields (
      fields-join_newline (codes "default" ∷ itoa n ∷ []) (
        ((λ e. cc), unfold is_space in (refl, (refl, (refl, (refl, (refl, (refl, (refl, tt)))))))),
        (itoa-IsWord n, tt),
      ))
    ∙ ap if_parsed (parse_uint-itoa 16 n (omega arith))

-- The limits that a version 2 cgroup states in its files.
pub record V2Files (file : Text → Option Text) : Type 0 where
  pub quota : Option ℕ
  pub period : ℕ
  pub weight : ℕ
  pub memory_max : Option ℕ
  pub memory_current : ℕ
  pub pids_max : Option ℕ
  pub pids_current : ℕ
  pub io_weight : ℕ
  pub quota_fits : IsInt64 quota
  pub period_fits : period < 2 ^ 63
  pub weight_fits : weight < 2 ^ 63
  pub memory_max_fits : IsInt64 memory_max
  pub memory_current_fits : memory_current < 2 ^ 63
  pub pids_max_fits : IsInt64 pids_max
  pub pids_current_fits : pids_current < 2 ^ 63
  pub io_weight_fits : io_weight < 2 ^ 16
  pub cpu_max_is : file (codes "cpu.max") ≡ some (cpu_max_file quota period)
  pub cpu_weight_is : file (codes "cpu.weight") ≡ some (number_file weight)
  pub memory_max_is : file (codes "memory.max") ≡ some (max_file memory_max)
  pub memory_current_is : file (codes "memory.current") ≡ some (number_file memory_current)
  pub pids_max_is : file (codes "pids.max") ≡ some (max_file pids_max)
  pub pids_current_is : file (codes "pids.current") ≡ some (number_file pids_current)
  pub io_weight_is : file (codes "io.weight") ≡ some (codes "default " ++ number_file io_weight)

-- Where the files of a version 2 cgroup are as the kernel prints them, and their numbers fit in
-- the fields of the record, readCGroupV2Limits gives their values, with 0 for a quota or a limit
-- that is "max".
pub cgroup_v2_limits-V2Files :
    (file : Text → Option Text) (k : V2Files file)
    → cgroup_v2_limits file ≡ record {
      cpu_quota = limit_value k.quota;
      cpu_period = pos k.period;
      cpu_shares = pos k.weight;
      memory_limit = limit_value k.memory_max;
      memory_usage = pos k.memory_current;
      pids_limit = limit_value k.pids_max;
      pids_current = pos k.pids_current;
      blkio_weight = k.io_weight;
    }
unfolding cgroup_v2_limits
cgroup_v2_limits-V2Files file k =
    let cpu = cpu_max_of-cpu_max_file k.quota k.period k.quota_fits k.period_fits in
    λ i. record {
      cpu_quota = (ap (λ t. set_or (pos 0) (cpu_max_of t).0) k.cpu_max_is ∙ cpu.0) i;
      cpu_period = (ap (λ t. set_or (pos 0) (cpu_max_of t).1) k.cpu_max_is ∙ cpu.1) i;
      cpu_shares = number k.cpu_weight_is k.weight_fits i;
      memory_limit =
          (ap (λ t. set_or (pos 0) (max_of t)) k.memory_max_is
              ∙ max_of-max_file k.memory_max k.memory_max_fits)
            i;
      memory_usage = number k.memory_current_is k.memory_current_fits i;
      pids_limit =
          (ap (λ t. set_or (pos 0) (max_of t)) k.pids_max_is
              ∙ max_of-max_file k.pids_max k.pids_max_fits)
            i;
      pids_current = number k.pids_current_is k.pids_current_fits i;
      blkio_weight =
          (ap (λ t. set_or 0 (weight_of t)) k.io_weight_is
              ∙ ap (set_or 0) (weight_of-print k.io_weight k.io_weight_fits))
            i;
    }
  where
    number :
        {t : Option Text} {n : ℕ}
        → t ≡ some (number_file n)
        → n < 2 ^ 63
        → set_or (pos 0) (int64_of t) ≡ pos n
    number {n = n} e h =
        ap (λ t. set_or (pos 0) (int64_of t)) e ∙ ap (set_or (pos 0)) (int64_of-number_file n h)
