-- ===== src/Sorting.antt =====
-- sort.Slice and sort.SliceStable as insertion sort. It is stable, so it gives the result of SliceStable,
-- and one of the results that Slice may give.
use mathlib.Core.List.{Perm}
use c_ray.Prelude.{Bool, Bool-cases, List, [], arith, false, inl, inr, true, ◌∷◌, ◌≡◌}
use mathlib.Core.List.Perm

module _ {ℓ} {A : Type ℓ} (less : A → A → Bool) where
  -- An element goes in front of the first one that is not less.
  unfoldable pub insert_by : A → List A → List A
  insert_by x [] = x ∷ []
  insert_by x (y ∷ ys) = elim (less y x) [ true ↦ y ∷ insert_by x ys | false ↦ x ∷ y ∷ ys ]

  unfoldable pub sort_by : List A → List A
  unfolding insert_by
  sort_by [] = []
  sort_by (x ∷ xs) = insert_by x (sort_by xs)

  -- No element is less than the one before it.
  abbrev pub IsSortedBy : List A → Type 0
  IsSortedBy [] = Unit
  IsSortedBy (x ∷ []) = Unit
  IsSortedBy (x ∷ y ∷ ys) = (less y x ≡ false) × IsSortedBy (y ∷ ys)

  abbrev pub IsAsymmetric : Type ℓ
  IsAsymmetric = (x y : A) → less x y ≡ true → less y x ≡ false

  insert_by-IsSortedBy :
      IsAsymmetric → (x : A) (ys : List A) → IsSortedBy ys → IsSortedBy (insert_by x ys)
  unfolding insert_by
  insert_by-IsSortedBy asym x [] h = tt
  insert_by-IsSortedBy asym x (y ∷ []) h = ground (arith, asym y x)
  insert_by-IsSortedBy asym x (y ∷ z ∷ ys) (first, h) =
      ground (arith, asym y x, insert_by-IsSortedBy asym x (z ∷ ys))

  pub sort_by-IsSortedBy : IsAsymmetric → (xs : List A) → IsSortedBy (sort_by xs)
  unfolding sort_by
  sort_by-IsSortedBy asym [] = tt
  sort_by-IsSortedBy asym (x ∷ xs) =
      insert_by-IsSortedBy asym x (sort_by xs) (sort_by-IsSortedBy asym xs)

  insert_by-Perm : (x : A) (ys : List A) → Perm (insert_by x ys) (x ∷ ys)
  unfolding insert_by
  insert_by-Perm x [] = Perm.refl _
  insert_by-Perm x (y ∷ ys) = elim (Bool-cases (less y x)) [
    | inl e ↦ rw (e, insert_by) (Perm.trans (Perm.cons y (insert_by-Perm x ys)) (Perm.swap x y ys))
    | inr e ↦ rw (e, insert_by) (Perm.refl _)
  ]

  pub sort_by-Perm : (xs : List A) → Perm (sort_by xs) xs
  unfolding sort_by
  sort_by-Perm [] = Perm.refl _
  sort_by-Perm (x ∷ xs) = Perm.trans (insert_by-Perm x (sort_by xs)) (Perm.cons x (sort_by-Perm xs))
