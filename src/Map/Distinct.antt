-- ===== src/Map/Distinct.antt =====
-- Maps in which no key stands twice, as every Go map.
use c_ray.Map.{Key, insert, lookup, lookup-insert, lookup-prune, prune, prune_values, remove}
use c_ray.Prelude.{
  Bool, Bool-cases, List, Option, [], ap, arith, if◌then◌else◌, inl, inr, none, not, refl, some,
  ◌∙◌, ◌∷◌, ◌≡◌,
}

-- A value that is kept or not.
abbrev pub keep_if {ℓ} : {V : Type ℓ} → (V → Bool) → Option V → Option V
keep_if keep none = none
keep_if keep (some v) = if keep v then some v else none

module _ {ℓ} {K V : Type ℓ} ⦃k : Key K⦄ where
  abbrev pub IsDistinctKeys : List (K × V) → Type ℓ
  IsDistinctKeys [] = Unit
  IsDistinctKeys ((j, v) ∷ m) = (lookup j m ≡ none) × IsDistinctKeys m

  pub lookup-prune_values :
      (key : K) (keep : V → Bool) (m : List (K × V))
      → IsDistinctKeys m
      → lookup key (prune_values keep m) ≡ keep_if keep (lookup key m)
  unfolding lookup prune_values
  lookup-prune_values key keep [] h = refl
  lookup-prune_values key keep ((j, v) ∷ m) (h, hs) =
      ground (arith, k.key_eq_iff j key, lookup-prune_values key keep m)

  pub insert-IsDistinctKeys :
      (key : K) (v : V) (m : List (K × V)) → IsDistinctKeys m → IsDistinctKeys (insert key v m)
  unfolding insert lookup
  insert-IsDistinctKeys key v [] h = (refl, tt)
  insert-IsDistinctKeys key v ((j, w) ∷ m) (h, hs) = elim (Bool-cases (k.key_eq j key)) [
    | inl e ↦ rw (e, insert) (ground (arith, k.key_eq_iff j key), hs)
    | inr e ↦
        rw (e, insert)
          (
            ground (arith, k.key_eq_iff j key, k.key_eq_iff key j, lookup-insert key j v m),
            insert-IsDistinctKeys key v m hs,
          )
  ]

  pub prune-IsDistinctKeys :
      (keep : K → Bool) (m : List (K × V)) → IsDistinctKeys m → IsDistinctKeys (prune keep m)
  unfolding prune
  prune-IsDistinctKeys keep [] h = tt
  prune-IsDistinctKeys keep ((j, v) ∷ m) (h, hs) = elim (Bool-cases (keep j)) [
    | inl e ↦ rw (e, prune) (ground (arith, lookup-prune j keep m), prune-IsDistinctKeys keep m hs)
    | inr e ↦ rw (e, prune) (prune-IsDistinctKeys keep m hs)
  ]

  pub prune_values-IsDistinctKeys :
      (keep : V → Bool) (m : List (K × V)) → IsDistinctKeys m → IsDistinctKeys (prune_values keep m)
  unfolding prune_values
  prune_values-IsDistinctKeys keep [] h = tt
  prune_values-IsDistinctKeys keep ((j, v) ∷ m) (h, hs) = elim (Bool-cases (keep v)) [
    | inl e ↦
        rw (e, prune_values)
          (
            lookup-prune_values j keep m hs ∙ ap (keep_if keep) h,
            prune_values-IsDistinctKeys keep m hs,
          )
    | inr e ↦ rw (e, prune_values) (prune_values-IsDistinctKeys keep m hs)
  ]

  pub remove-IsDistinctKeys :
      (key : K) (m : List (K × V)) → IsDistinctKeys m → IsDistinctKeys (remove key m)
  unfolding remove
  remove-IsDistinctKeys key m h = prune-IsDistinctKeys (λ j. not (k.key_eq j key)) m h
