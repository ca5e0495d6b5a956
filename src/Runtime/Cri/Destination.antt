-- ===== src/Runtime/Cri/Destination.antt =====
-- The comparison of mount destinations.
use c_ray.Prelude.{
  Bool, Bool-cases, [], ap, if◌then◌else◌, inl, inr, refl, sym, true, ◌++◌, ◌↔◌, ◌∷◌, ◌≡◌,
}
use c_ray.Text.Basic.{Text, codes, has_prefix, text_eq, text_eq_iff, trim_prefix}
use c_ray.Text.Path.{clean, is_abs}

-- cleanDest.
unfoldable pub clean_dest : Text → Text
unfolding clean
clean_dest [] = []
clean_dest (c ∷ path) =
    let cleaned = clean (c ∷ path) in if is_abs cleaned then cleaned else b'/' ∷ cleaned

-- normalizeRunAlias, on the cleaned path.
abbrev pub run_alias : Text → Text
run_alias p =
    if text_eq p (codes "/var/run")
    then codes "/run"
    else if has_prefix (codes "/var/run/") p
    then codes "/run/" ++ trim_prefix (codes "/var/run/") p
    else p

-- normalizeRunAlias.
unfoldable pub normalize_run_alias : Text → Text
unfolding clean_dest
normalize_run_alias path = run_alias (clean_dest path)

-- SameDestination.
unfoldable pub same_destination : Text → Text → Bool
unfolding clean_dest normalize_run_alias
same_destination a b =
    if text_eq (clean_dest a) (clean_dest b)
    then true
    else text_eq (normalize_run_alias (clean_dest a)) (normalize_run_alias (clean_dest b))

-- Two destinations are the same exactly if their normal forms are equal.
pub same_destination_iff :
    (a b : Text)
    → (same_destination a b ≡ true)
      ↔ (normalize_run_alias (clean_dest a) ≡ normalize_run_alias (clean_dest b))
unfolding same_destination
same_destination_iff a b = elim (Bool-cases (text_eq (clean_dest a) (clean_dest b))) [
  | inl same ↦ (
    λ h. ap normalize_run_alias ((text_eq_iff (clean_dest a) (clean_dest b)).0 same),
    λ e. rw same refl,
  )
  | inr other ↦ (
    λ h.
        (text_eq_iff (normalize_run_alias (clean_dest a)) (normalize_run_alias (clean_dest b))).0
          (rw other at h),
    λ e. rw other (
        (text_eq_iff (normalize_run_alias (clean_dest a)) (normalize_run_alias (clean_dest b))).1
          e),
  )
]

pub same_destination_refl : (a : Text) → same_destination a a ≡ true
same_destination_refl a = (same_destination_iff a a).1 refl

pub same_destination_sym : (a b : Text) → same_destination a b ≡ true → same_destination b a ≡ true
same_destination_sym a b h = (same_destination_iff b a).1 (sym ((same_destination_iff a b).0 h))
