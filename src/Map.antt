-- ===== src/Map.antt =====
-- Go maps as association lists. A key type is an instance with its Boolean equality.
pub mod Distinct
use c_ray.Prelude.{
  Bool, List, Option, [], arith, false, if◌then◌else◌, none, not, refl, some, true, ◌==◌, ◌||◌, ◌↔◌,
  ◌∷◌, ◌≡◌,
}
use c_ray.Prelude.Int.{negsuc, pos, ℤ}
use c_ray.Text.Basic.{Text, text_eq, text_eq_iff}

pub record Key {ℓ} (K : Type ℓ) : Type ℓ where
  pub key_eq : K → K → Bool
  pub key_eq_iff : (a b : K) → (key_eq a b ≡ true) ↔ (a ≡ b)

instance abbrev pub text_key : Key Text
text_key = record { key_eq = text_eq; key_eq_iff = text_eq_iff }

unfoldable pub int_eq : ℤ → ℤ → Bool
int_eq (pos a) (pos b) = a == b
int_eq (negsuc a) (negsuc b) = a == b
int_eq _ _ = false

pub int_eq_iff : (a b : ℤ) → (int_eq a b ≡ true) ↔ (a ≡ b)
unfolding int_eq
int_eq_iff (pos a) (pos b) = ground arith
int_eq_iff (negsuc a) (negsuc b) = ground arith
int_eq_iff (pos a) (negsuc b) = ground arith
int_eq_iff (negsuc a) (pos b) = ground arith

instance abbrev pub int_key : Key ℤ
int_key = record { key_eq = int_eq; key_eq_iff = int_eq_iff }

module _ {ℓ} {K V : Type ℓ} ⦃k : Key K⦄ where
  -- m[key], with `ok`.
  unfoldable pub lookup : K → List (K × V) → Option V
  lookup key [] = none
  lookup key ((j, v) ∷ m) = if k.key_eq j key then some v else lookup key m

  -- m[key] = v.
  unfoldable pub insert : K → V → List (K × V) → List (K × V)
  insert key v [] = (key, v) ∷ []
  insert key v ((j, w) ∷ m) = if k.key_eq j key then (key, v) ∷ m else (j, w) ∷ insert key v m

  -- The loop that deletes the keys for which `keep` is false.
  unfoldable pub prune : (K → Bool) → List (K × V) → List (K × V)
  prune keep [] = []
  prune keep ((j, v) ∷ m) = elim (keep j) [ true ↦ (j, v) ∷ prune keep m | false ↦ prune keep m ]

  -- The loop that deletes the values for which `keep` is false.
  unfoldable pub prune_values : (V → Bool) → List (K × V) → List (K × V)
  prune_values keep [] = []
  prune_values keep ((j, v) ∷ m) = elim (keep v) [
    | true ↦ (j, v) ∷ prune_values keep m
    | false ↦ prune_values keep m
  ]

  -- delete(m, key).
  unfoldable pub remove : K → List (K × V) → List (K × V)
  unfolding prune
  remove key = prune (λ j. not (k.key_eq j key))

-- A key of a list of keys.
unfoldable pub has_key {ℓ} : {K : Type ℓ} ⦃k : Key K⦄ → K → List K → Bool
has_key key [] = false
has_key ⦃k⦄ key (j ∷ js) = k.key_eq j key || has_key key js

module _ {ℓ} {K V : Type ℓ} ⦃k : Key K⦄ where
  pub lookup-insert :
      (key j : K) (v : V) (m : List (K × V))
      → lookup j (insert key v m) ≡ (if k.key_eq key j then some v else lookup j m)
  unfolding lookup insert
  lookup-insert key j v [] = refl
  lookup-insert key j v ((i, w) ∷ m) =
      ground
        (arith, k.key_eq_iff key j, k.key_eq_iff i key, k.key_eq_iff i j, lookup-insert key j v m)

  pub lookup-prune :
      (key : K) (keep : K → Bool) (m : List (K × V))
      → lookup key (prune keep m) ≡ (if keep key then lookup key m else none)
  unfolding lookup prune
  lookup-prune key keep [] = ground arith
  lookup-prune key keep ((j, v) ∷ m) = ground (arith, k.key_eq_iff j key, lookup-prune key keep m)

  pub lookup-remove :
      (key j : K) (m : List (K × V))
      → lookup j (remove key m) ≡ (if k.key_eq key j then none else lookup j m)
  unfolding remove
  lookup-remove key j m =
      ground (
        arith,
        lookup-prune j (λ i. not (k.key_eq i key)) m,
        k.key_eq_iff key j,
        k.key_eq_iff j key,
      )
