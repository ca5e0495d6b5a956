-- ===== src/Runtime/CGroupPath/Slice.antt =====
-- The directory of a systemd slice, and of a unit in it.
use mathlib.Core.Bool.{false≢true}
use mathlib.Core.List.{map-id}
use c_ray.Prelude.{
  All, All-map, List, [], ap, append-nil, append_assoc, arith, false, map, refl, sym, ℕ, ◌++◌, ◌∙◌,
  ◌∷◌, ◌≡◌, ◌≢◌,
}
use c_ray.Runtime.CGroupPath.{
  expand_slice, expand_systemd_slice_path, infer_cgroup_driver, normalize_cgroup_path,
  normalize_trimmed, slice_loop, systemd_cgroup_path, unit_name,
}
use c_ray.Text.Basic.{Lacks, Lacks-append, Text, codes, contains_char, is_empty, text_eq}
use c_ray.Text.Split.{Lacks-join, join, split-join, split_3-append}
use c_ray.Text.Suffix.{
  contains-Lacks, contains-middle, contains_char-Lacks, has_suffix-append, trim_prefix-Lacks,
  trim_suffix-append,
}
use c_ray.Text.Trim.{IsSolid, IsSolid-append, is_space, trim_space-IsSolid}

-- The slices on the way to the one with these parts: a, a-b, a-b-c.
pub levels : List Text → List (List Text)
levels [] = []
levels (p ∷ ps) = (p ∷ []) ∷ map (◌∷◌ p) (levels ps)

-- The name of the slice with these parts.
abbrev pub slice_unit : List Text → Text
slice_unit parts = join (codes "-") parts ++ codes ".slice"

-- One directory below the other.
pub nested : List (List Text) → Text
nested [] = []
nested (l ∷ ls) = b'/' ∷ (slice_unit l ++ nested ls)

nested_assoc :
    (seen : List Text) (p : Text) (ls : List (List Text))
    → nested (map (λ l. (seen ++ p ∷ []) ++ l) ls) ≡ nested (map (λ l. seen ++ l) (map (◌∷◌ p) ls))
unfolding nested
nested_assoc seen p [] = refl
nested_assoc seen p (l ∷ ls) =
    rw (append_assoc seen (p ∷ []) l)
      (ap (λ t. b'/' ∷ (slice_unit (seen ++ p ∷ l) ++ t)) (nested_assoc seen p ls))

abbrev IsPresent : Text → Type 0
IsPresent p = is_empty p ≡ false

slice_loop-levels :
    (seen : List Text) (path : Text) (ps : List Text)
    → All IsPresent ps
    → slice_loop seen path ps ≡ path ++ nested (map (λ l. seen ++ l) (levels ps))
unfolding slice_loop levels nested
slice_loop-levels seen path [] h = sym (append-nil path)
slice_loop-levels seen path (p ∷ ps) (h, hs) =
    rw (h, slice_loop)
      (slice_loop-levels (seen ++ p ∷ []) (path ++ b'/' ∷ slice_unit (seen ++ p ∷ [])) ps hs
        ∙ append_assoc path (b'/' ∷ slice_unit (seen ++ p ∷ []))
            (nested (map (λ l. (seen ++ p ∷ []) ++ l) (levels ps)))
        ∙ ap (λ t. path ++ b'/' ∷ (slice_unit (seen ++ p ∷ []) ++ t))
            (nested_assoc seen p (levels ps)))

-- A part of the name of a slice: no blank, and none of "-", "/" and ":".
abbrev pub IsPart : Text → Type 0
IsPart p = (is_empty p ≡ false) × IsSolid p × Lacks b'-' p × Lacks b'/' p × Lacks b':' p

slice_unit-Lacks :
    (b : ℕ) (ps : List Text)
    → (b'-' ≢ b)
    → Lacks b (codes ".slice")
    → All (Lacks b) ps
    → Lacks b (slice_unit ps)
slice_unit-Lacks b ps ne e h =
    Lacks-append b (join (codes "-") ps) (codes ".slice") (Lacks-join b (codes "-") ps (ne, tt) h) e

join-IsSolid : (ps : List Text) → All IsSolid ps → IsSolid (join (codes "-") ps)
unfolding join is_space
join-IsSolid [] _ = tt
join-IsSolid (p ∷ []) (h, _) = h
join-IsSolid (p ∷ q ∷ ps) (h, hs) =
    IsSolid-append p (b'-' ∷ join (codes "-") (q ∷ ps)) h (refl, join-IsSolid (q ∷ ps) hs)

slice_unit-IsSolid : (ps : List Text) → All IsSolid ps → IsSolid (slice_unit ps)
unfolding is_space
slice_unit-IsSolid ps h =
    IsSolid-append (join (codes "-") ps) (codes ".slice") (join-IsSolid ps h)
      (refl, (refl, (refl, (refl, (refl, (refl, tt))))))

join-present :
    (p : Text) (ps : List Text) → is_empty p ≡ false → is_empty (join (codes "-") (p ∷ ps)) ≡ false
unfolding join
join-present (c ∷ p) [] h = refl
join-present (c ∷ p) (q ∷ ps) h = refl
join-present [] ps h = absurd (false≢true (sym h))

-- The text before ".slice" is not only a dash.
join-no_dash :
    (p : Text) (ps : List Text) → IsPart p → text_eq (slice_unit (p ∷ ps)) (codes "-.slice") ≡ false
unfolding text_eq join
join-no_dash [] ps h = absurd (false≢true (sym h.0))
join-no_dash (c ∷ p) [] h = let e = h.2.0 in ground arith
join-no_dash (c ∷ p) (q ∷ ps) h = let e = h.2.0 in ground arith

append-present : (s : Text) (c : ℕ) (r : Text) → is_empty (s ++ c ∷ r) ≡ false
append-present [] c r = refl
append-present (d ∷ s) c r = refl

-- The directory of a slice: its parent slices, each in the one before.
expand_slice-levels :
    (p : Text) (ps : List Text)
    → IsPart p
    → All IsPart ps
    → expand_systemd_slice_path (slice_unit (p ∷ ps)) ≡ nested (levels (p ∷ ps))
unfolding expand_systemd_slice_path expand_slice contains_char
expand_slice-levels p ps hp hs = rw (trim_prefix-Lacks b'/' slice no_slash) (
    rw (trim_space-IsSolid slice (slice_unit-IsSolid (p ∷ ps) solid)) (
      rw
        (
          present,
          join-no_dash p ps hp,
          has_suffix-append (codes ".slice") (join (codes "-") (p ∷ ps)),
          contains-Lacks b'/' slice no_slash,
          trim_suffix-append (codes ".slice") (join (codes "-") (p ∷ ps)),
          join-present p ps hp.0,
          split-join b'-' p ps hp.2 (All-map (λ q h. h.2) ps hs),
        )
        (slice_loop-levels [] [] (p ∷ ps) (hp.0, All-map (λ q h. h.0) ps hs)
          ∙ ap nested (map-id (levels (p ∷ ps))))))
  where
    slice : Text
    slice = slice_unit (p ∷ ps)

    no_slash : Lacks b'/' (slice_unit (p ∷ ps))
    no_slash =
        slice_unit-Lacks b'/' (p ∷ ps) (ground arith)
          (contains_char-Lacks b'/' (codes ".slice") refl) (hp.3, All-map (λ q h. h.3) ps hs)

    solid : All IsSolid (p ∷ ps)
    solid = (hp.1, All-map (λ q h. h.1) ps hs)

    present : is_empty (slice_unit (p ∷ ps)) ≡ false
    present = append-present (join (codes "-") (p ∷ ps)) b'.' (codes "slice")

-- The systemd form of a cgroup path.
abbrev pub systemd_form : List Text → Text → Text → Text
systemd_form parts prefix name = slice_unit parts ++ b':' ∷ (prefix ++ b':' ∷ name)

systemd_form-IsSolid :
    (parts : List Text) (prefix name : Text)
    → All IsSolid parts
    → IsSolid prefix
    → IsSolid name
    → IsSolid (systemd_form parts prefix name)
unfolding is_space
systemd_form-IsSolid parts prefix name hs hp hn =
    IsSolid-append (slice_unit parts) (b':' ∷ (prefix ++ b':' ∷ name)) (slice_unit-IsSolid parts hs)
      (refl, IsSolid-append prefix (b':' ∷ name) hp (refl, hn))

systemd_form-systemd :
    (parts : List Text) (prefix name : Text)
    → infer_cgroup_driver (systemd_form parts prefix name) ≡ codes "systemd"
unfolding infer_cgroup_driver
systemd_form-systemd parts prefix name =
    rw
      (
        append-present (slice_unit parts) b':' (prefix ++ b':' ∷ name),
        append_assoc (join (codes "-") parts) (codes ".slice") (b':' ∷ (prefix ++ b':' ∷ name)),
        contains-middle (codes ".slice") (join (codes "-") parts) (b':' ∷ (prefix ++ b':' ∷ name)),
      )
      refl

systemd_cgroup_path-systemd_form :
    (p : Text) (ps : List Text) (prefix name : Text)
    → IsPart p
    → All IsPart ps
    → IsSolid prefix × Lacks b':' prefix
    → IsSolid name × (is_empty name ≡ false)
    → systemd_cgroup_path (systemd_form (p ∷ ps) prefix name)
      ≡ nested (levels (p ∷ ps)) ++ b'/' ∷ unit_name prefix name
unfolding systemd_cgroup_path contains_char
systemd_cgroup_path-systemd_form p ps prefix name hp hs (solid_prefix, no_colon)
      (solid_name, named) =
    rw (split_3-append b':' slice prefix name slice_colon no_colon, systemd_cgroup_path)
      (rw
        (
          trim_space-IsSolid slice (slice_unit-IsSolid (p ∷ ps) (hp.1, All-map (λ q h. h.1) ps hs)),
          trim_space-IsSolid prefix solid_prefix,
          trim_space-IsSolid name solid_name,
          append-present (join (codes "-") (p ∷ ps)) b'.' (codes "slice"),
          named,
          expand_slice-levels p ps hp hs,
        )
        (unfold nested levels in refl))
  where
    slice : Text
    slice = slice_unit (p ∷ ps)

    slice_colon : Lacks b':' (slice_unit (p ∷ ps))
    slice_colon =
        slice_unit-Lacks b':' (p ∷ ps) (ground arith)
          (contains_char-Lacks b':' (codes ".slice") refl) (hp.4, All-map (λ q h. h.4) ps hs)

-- NormalizeCGroupPath of "slice:prefix:name" gives the unit's directory inside the slice: the slices
-- "a.slice", "a-b.slice" and so on of the slice "a-b-c.slice", one in the other, and in the last the
-- unit, which is "prefix-name.scope", or "name.scope" without a prefix, or the name if that is
-- already a slice or a scope. The parts of the slice are not empty and hold no blank, dash, slash or
-- colon, the prefix holds no blank or colon, and the name is not empty and holds no blank.
pub normalize_cgroup_path-systemd_form :
    (p : Text) (ps : List Text) (prefix name : Text)
    → IsPart p
    → All IsPart ps
    → IsSolid prefix × Lacks b':' prefix
    → IsSolid name × (is_empty name ≡ false)
    → normalize_cgroup_path (systemd_form (p ∷ ps) prefix name)
      ≡ nested (levels (p ∷ ps)) ++ b'/' ∷ unit_name prefix name
unfolding normalize_cgroup_path normalize_trimmed nested levels text_eq
normalize_cgroup_path-systemd_form p ps prefix name hp hs hprefix hname =
    rw
      (trim_space-IsSolid path (
        systemd_form-IsSolid (p ∷ ps) prefix name (hp.1, All-map (λ q h. h.1) ps hs) hprefix.0
          hname.0))
      (rw
        (
          append-present (slice_unit (p ∷ ps)) b':' (prefix ++ b':' ∷ name),
          systemd_form-systemd (p ∷ ps) prefix name,
          contains-middle (codes ":") (slice_unit (p ∷ ps)) (prefix ++ b':' ∷ name),
          systemd_cgroup_path-systemd_form p ps prefix name hp hs hprefix hname,
        )
        refl)
  where
    path : Text
    path = systemd_form (p ∷ ps) prefix name
