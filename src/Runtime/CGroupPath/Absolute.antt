-- ===== src/Runtime/CGroupPath/Absolute.antt =====
-- The normalised cgroup paths are absolute.
use mathlib.Core.Bool.{false≢true}
use c_ray.Prelude.{
  Bool, Bool-cases, List, Option, Option-cases, [], ap, arith, false, inl, inr, ltb, none, refl,
  some, sym, true, ℕ, ◌++◌, ◌<◌, ◌||◌, ◌∙◌, ◌∷◌, ◌≡◌, ◌≢◌, ◌⊎◌,
}
use c_ray.Runtime.CGroupPath.{
  expand_slice, expand_systemd_slice_path, normalize_absolute_cgroup_path, normalize_cgroup_path,
  normalize_trimmed, resolve_cgroup_path, slice_loop, systemd_cgroup_path, systemd_parts, unit_name,
}
use c_ray.Text.Basic.{Text, codes, is_empty, trim_prefix, trim_suffix}
use c_ray.Text.Path.{is_abs}
use c_ray.Text.Split.{join, split, split_3}
use c_ray.Text.Trim.{StartsSolid, trim_space, trim_space-StartsSolid, trim_space-keeps}

-- There is no path, or it begins with a slash.
abbrev pub none_or_abs : Text → Bool
none_or_abs path = is_empty path || is_abs path

none_or_abs-append :
    (p r : Text) → none_or_abs p ≡ true → is_empty p ≡ false → none_or_abs (p ++ r) ≡ true
none_or_abs-append [] r h e = ground arith
none_or_abs-append (c ∷ p) r h e = h

slice_loop-abs :
    (seen ps : List Text) (path : Text)
    → is_abs path ≡ true
    → none_or_abs (slice_loop seen path ps) ≡ true
unfolding slice_loop
slice_loop-abs seen [] [] h = absurd (false≢true h)
slice_loop-abs seen (p ∷ ps) [] h = absurd (false≢true h)
slice_loop-abs seen [] (c ∷ path) h = h
slice_loop-abs seen (p ∷ ps) (c ∷ path) h =
    elim (is_empty p)
      as (λ b.
        none_or_abs (elim b [
          | true ↦ []
          | false ↦
              slice_loop (seen ++ p ∷ [])
                ((c ∷ path) ++ b'/' ∷ (join (codes "-") (seen ++ p ∷ []) ++ codes ".slice")) ps
        ])
        ≡ true) [
          | true ↦ refl
          | false ↦
              slice_loop-abs (seen ++ p ∷ []) ps
                ((c ∷ path) ++ b'/' ∷ (join (codes "-") (seen ++ p ∷ []) ++ codes ".slice")) h
        ]

slice_loop-start : (ps : List Text) → none_or_abs (slice_loop [] [] ps) ≡ true
unfolding slice_loop
slice_loop-start [] = refl
slice_loop-start (p ∷ ps) =
    elim (is_empty p)
      as (λ b.
        none_or_abs (elim b [
          | true ↦ []
          | false ↦ slice_loop (p ∷ []) (b'/' ∷ (join (codes "-") (p ∷ []) ++ codes ".slice")) ps
        ])
        ≡ true) [
          | true ↦ refl
          | false ↦
              slice_loop-abs (p ∷ []) ps (b'/' ∷ (join (codes "-") (p ∷ []) ++ codes ".slice")) refl
        ]

expand_slice-abs : (s : Text) → none_or_abs (expand_slice s) ≡ true
unfolding expand_slice
expand_slice-abs s = ground (arith, slice_loop-start (split b'-' (trim_suffix (codes ".slice") s)))

expand-abs : (s : Text) → none_or_abs (expand_systemd_slice_path s) ≡ true
unfolding expand_systemd_slice_path
expand-abs s = expand_slice-abs (trim_space (trim_prefix (codes "/") s))

systemd_parts-abs :
    (slice prefix name : Text) → none_or_abs (systemd_parts slice prefix name) ≡ true
systemd_parts-abs slice prefix name = elim (Bool-cases (is_empty slice || is_empty name)) [
  | inl e ↦ rw e refl
  | inr e ↦ elim (Bool-cases (is_empty (expand_systemd_slice_path slice))) [
    | inl f ↦ rw (e, f) refl
    | inr f ↦
        rw (e, f)
          (none_or_abs-append (expand_systemd_slice_path slice) (b'/' ∷ unit_name prefix name)
            (expand-abs slice) f)
  ]
]

systemd_cgroup_path-abs : (path : Text) → none_or_abs (systemd_cgroup_path path) ≡ true
unfolding systemd_cgroup_path
systemd_cgroup_path-abs path =
    elim (split_3 b':' path)
      as (λ o.
        none_or_abs (elim o [
          | none ↦ []
          | some (slice, prefix, name) ↦
              systemd_parts (trim_space slice) (trim_space prefix) (trim_space name)
        ])
        ≡ true) [
          | none ↦ refl
          | some (slice, prefix, name) ↦
              systemd_parts-abs (trim_space slice) (trim_space prefix) (trim_space name)
        ]

normalize_trimmed-abs :
    (path : Text)
    → StartsSolid path
    → is_empty path ≡ false
    → is_abs (normalize_trimmed path) ≡ true
unfolding normalize_trimmed normalize_absolute_cgroup_path
normalize_trimmed-abs path starts e =
    ground (arith, systemd_cgroup_path-abs path, trim_space-keeps path starts)

-- What NormalizeCGroupPath gives: a configured path of blanks only gives no path, and every other one
-- a path that begins with a slash, be it a cgroupfs path, a systemd triple, or a triple that cannot
-- be expanded.
pub normalize_cgroup_path-cases :
    (path : Text)
    → (is_empty (trim_space path) ≡ true) × (normalize_cgroup_path path ≡ [])
      ⊎ (is_empty (trim_space path) ≡ false) × (is_abs (normalize_cgroup_path path) ≡ true)
unfolding normalize_cgroup_path
normalize_cgroup_path-cases path = elim (Bool-cases (is_empty (trim_space path))) [
  | inl e ↦ inl (e, unfold normalize_trimmed in rw e refl)
  | inr e ↦ inr (e, normalize_trimmed-abs (trim_space path) (trim_space-StartsSolid path) e)
]

none≢some : {A : Type 0} {x : A} → none ≢ some x
none≢some h = cc

some-injective : {A : Type 0} {x y : A} → some x ≡ some y → x ≡ y
some-injective h = cc

-- ResolveCGroupPath takes the path of the running process, made absolute, exactly if there is a
-- process ID, a reader, and a path that it gives and that is not empty; in every other case it is the
-- configured path.
pub resolve_cgroup_path-cases :
    (configured : Text) (pid : ℕ) (reader : Option (ℕ → Option Text))
    → ((read : ℕ → Option Text) × (live : Text) × (reader ≡ some read)
        × (0 < pid)
        × (read pid ≡ some live)
        × (is_empty live ≡ false)
        × (resolve_cgroup_path configured pid reader ≡ normalize_absolute_cgroup_path live))
      ⊎ (((read : ℕ → Option Text) (live : Text)
            → reader ≡ some read
            → 0 < pid
            → read pid ≡ some live
            → is_empty live ≡ true)
          × (resolve_cgroup_path configured pid reader ≡ normalize_cgroup_path configured))
unfolding resolve_cgroup_path
resolve_cgroup_path-cases configured pid none = inr (λ read live e. absurd (none≢some e), refl)
resolve_cgroup_path-cases configured pid (some read) = elim (Bool-cases (ltb 0 pid)) [
  | inl running ↦ elim (Option-cases (read pid)) [
    | inl e ↦ inr (
      λ r live er pos el. absurd (none≢some (sym e ∙ ap (λ f. f pid) (some-injective er) ∙ el)),
      rw (running, e) refl,
    )
    | inr (live, e) ↦ elim (Bool-cases (is_empty live)) [
      | inl none_live ↦ inr (
        λ r l er pos el.
            ap is_empty (some-injective (sym el ∙ sym (ap (λ f. f pid) (some-injective er)) ∙ e))
            ∙ none_live,
        rw (running, e, none_live) refl,
      )
      | inr is_live ↦
          inl (read, live, refl, ground arith, e, is_live, rw (running, e, is_live) refl)
    ]
  ]
  | inr stopped ↦ inr (λ r live er pos el. absurd (ground arith), rw stopped refl)
]
