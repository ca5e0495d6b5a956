-- ===== src/Runtime/Docker/Overlay/Layers.antt =====
-- Which directory belongs to which diff ID.
use mathlib.Core.List.{reverse, reverse-cons}
use c_ray.Prelude.{
  ==_iff, AllPairs, Bool-cases, List, Option, Option-cases, [], ap, arith, false, get_elem?,
  if◌then◌else◌, inl, inr, length, length-append, ltb, none, not, refl, some, subst, suc, sym,
  tests, zero, ℕ, ◌++◌, ◌+◌, ◌-◌, ◌<◌, ◌==◌, ◌||◌, ◌↔◌, ◌∙◌, ◌∷◌, ◌≡◌, ◌≢◌, ◌≤◌,
}
use c_ray.Runtime.Docker.Overlay.{
  DockerLayer, OverlayLayerDir, layer_at, layers_from, layers_of, raw_dirs, resolve_all,
  resolve_overlay2_layer_dirs, resolve_overlay2_layers,
}
use c_ray.Text.Basic.{Text}

not_below : (a b : ℕ) → ltb a b ≡ false → b ≤ a
not_below a b h = ground arith

none≢some : {A : Type 0} {x : A} → none ≢ some x
none≢some h = cc

some-injective : {A : Type 0} {x y : A} → some x ≡ some y → x ≡ y
some-injective h = cc

module _ {ℓ} {A : Type ℓ} where
  get_elem?-append_left :
      (xs ys : List A) (i : ℕ) → i < length xs → get_elem? (xs ++ ys) i ≡ get_elem? xs i
  get_elem?-append_left [] ys i h = absurd (omega arith)
  get_elem?-append_left (x ∷ xs) ys zero h = refl
  get_elem?-append_left (x ∷ xs) ys (suc i) h = get_elem?-append_left xs ys i (omega arith)

  get_elem?-append_next :
      (xs : List A) (y : A) (ys : List A) (n : ℕ)
      → n ≡ length xs
      → get_elem? (xs ++ y ∷ ys) n ≡ some y
  get_elem?-append_next [] y ys zero h = refl
  get_elem?-append_next [] y ys (suc n) h = absurd (omega arith)
  get_elem?-append_next (x ∷ xs) y ys zero h = absurd (omega arith)
  get_elem?-append_next (x ∷ xs) y ys (suc n) h = get_elem?-append_next xs y ys n (omega arith)

  get_elem?-outside : (xs : List A) (i : ℕ) → length xs ≤ i → get_elem? xs i ≡ none
  get_elem?-outside [] i h = refl
  get_elem?-outside (x ∷ xs) zero h = absurd (omega arith)
  get_elem?-outside (x ∷ xs) (suc i) h = get_elem?-outside xs i (omega arith)

  length-reverse : (xs : List A) → length (reverse xs) ≡ length xs
  length-reverse [] = refl
  length-reverse (x ∷ xs) =
      ap length (reverse-cons x xs)
      ∙ length-append (reverse xs) (x ∷ [])
      ∙ omega (arith, length-reverse xs)

  get_elem?-reverse_inside :
      (xs : List A) (i j : ℕ) → i + suc j ≡ length xs → get_elem? (reverse xs) i ≡ get_elem? xs j
  get_elem?-reverse_inside [] i j h = absurd (omega arith)
  get_elem?-reverse_inside (x ∷ xs) i zero h =
      ap (λ l. get_elem? l i) (reverse-cons x xs)
      ∙ get_elem?-append_next (reverse xs) x [] i (omega (arith, length-reverse xs))
  get_elem?-reverse_inside (x ∷ xs) i (suc j) h =
      ap (λ l. get_elem? l i) (reverse-cons x xs)
      ∙ get_elem?-append_left (reverse xs) (x ∷ []) i (omega (arith, length-reverse xs))
      ∙ get_elem?-reverse_inside xs i j (omega arith)

  -- The loop's look-up, guarded by both bounds, counts from the end.
  get_elem?-reverse :
      (xs : List A) (i : ℕ)
      → (if ltb i (length xs) then get_elem? xs (length xs - 1 - i) else none)
        ≡ get_elem? (reverse xs) i
  get_elem?-reverse xs i = elim (Bool-cases (ltb i (length xs))) [
    | inl h ↦ rw (h, get_elem?-reverse_inside xs i (length xs - 1 - i) (omega tests))
    | inr h ↦ rw (
      h,
      get_elem?-outside (reverse xs) i
          (omega (arith, length-reverse xs, not_below i (length xs) h)),
    )
  ]

-- A layer for every diff ID with the directory at its place in the second list.
abbrev pub paired : ℕ → List Text → List OverlayLayerDir → List DockerLayer
paired i [] ds = []
paired i (diff_id ∷ diff_ids) [] = layer_at i diff_id none ∷ paired (i + 1) diff_ids []
paired i (diff_id ∷ diff_ids) (d ∷ ds) = layer_at i diff_id (some d) ∷ paired (i + 1) diff_ids ds

layers_from-paired :
    (dirs rest : List OverlayLayerDir) (i : ℕ) (diff_ids : List Text)
    → ((j k : ℕ) → k ≡ i + j → get_elem? (reverse dirs) k ≡ get_elem? rest j)
    → layers_from dirs i diff_ids ≡ paired i diff_ids rest
unfolding layers_from
layers_from-paired dirs rest i [] h = refl
layers_from-paired dirs [] i (diff_id ∷ diff_ids) h =
    rw
      (
        get_elem?-reverse dirs i,
        h 0 i (omega arith),
        layers_from-paired dirs [] (i + 1) diff_ids (λ j k e. h (suc j) k (omega arith)),
      )
      refl
layers_from-paired dirs (d ∷ rest) i (diff_id ∷ diff_ids) h =
    rw
      (
        get_elem?-reverse dirs i,
        h 0 i (omega arith),
        layers_from-paired dirs rest (i + 1) diff_ids (λ j k e. h (suc j) k (omega arith)),
      )
      refl

-- Every directory is normalized, in order.
abbrev pub IsNormalized :
    (Text → Option OverlayLayerDir) → List Text → List OverlayLayerDir → Type 0
IsNormalized normalize = AllPairs (λ raw d. normalize raw ≡ some d)

resolve_all-some :
    (normalize : Text → Option OverlayLayerDir) (raws : List Text) (dirs : List OverlayLayerDir)
    → IsNormalized normalize raws dirs
    → resolve_all normalize raws ≡ some dirs
unfolding resolve_all
resolve_all-some normalize [] [] h = refl
resolve_all-some normalize [] (d ∷ dirs) h = elim h [ ]
resolve_all-some normalize (r ∷ raws) [] h = elim h [ ]
resolve_all-some normalize (r ∷ raws) (d ∷ dirs) (e, h) =
    rw (e, resolve_all-some normalize raws dirs h)

resolve_all-IsNormalized :
    (normalize : Text → Option OverlayLayerDir) (raws : List Text) (dirs : List OverlayLayerDir)
    → resolve_all normalize raws ≡ some dirs
    → IsNormalized normalize raws dirs
unfolding resolve_all
resolve_all-IsNormalized normalize [] [] h = tt
resolve_all-IsNormalized normalize [] (d ∷ dirs) h = absurd (cons≢nil (some-injective h))
  where
    cons≢nil : [] ≢ d ∷ dirs
    cons≢nil h = cc
resolve_all-IsNormalized normalize (r ∷ raws) dirs h = elim (Option-cases (normalize r)) [
  | inl e ↦ absurd (none≢some (sym (rw e) ∙ h))
  | inr (d, e) ↦ elim (Option-cases (resolve_all normalize raws)) [
    | inl e' ↦ absurd (none≢some (sym (rw (e, e')) ∙ h))
    | inr (ds, e') ↦
        let rest = resolve_all-IsNormalized normalize raws ds e' in
        subst (IsNormalized normalize (r ∷ raws))
          (some-injective (sym (resolve_all-some normalize (r ∷ raws) (d ∷ ds) (e, rest)) ∙ h))
          (e, rest)
  ]
]

-- The guard of the directories.
module _ (count want : ℕ) (resolved : Option (List OverlayLayerDir)) where
  guarded :
      count ≡ want
      → 0 < want
      → (if count == 0 || not (count == want) then none else resolved) ≡ resolved
  guarded same some_id = ground arith

  positive : (count == 0) ≡ false → count ≡ want → 0 < want
  positive z same = ground arith

  guarded_some :
      (dirs : List OverlayLayerDir)
      → (if count == 0 || not (count == want) then none else resolved) ≡ some dirs
      → (count ≡ want) × (0 < want) × (resolved ≡ some dirs)
  guarded_some dirs h = elim (Bool-cases (count == 0)) [
    | inl z ↦ absurd (none≢some (sym (rw z refl) ∙ h))
    | inr z ↦ elim (Bool-cases (count == want)) [
      | inl e ↦
          ((==_iff count want).0 e, positive z ((==_iff count want).0 e), sym (rw (z, e) refl) ∙ h)
      | inr e ↦ absurd (none≢some (sym (rw (z, e) refl) ∙ h))
    ]
  ]

layers_of-some :
    (diff_ids : List Text) (dirs : Option (List OverlayLayerDir)) (layers : List DockerLayer)
    → layers_of diff_ids dirs ≡ some layers
    → (ds : List OverlayLayerDir) × (dirs ≡ some ds) × (layers ≡ layers_from ds 0 diff_ids)
layers_of-some diff_ids none layers h = absurd (none≢some h)
layers_of-some diff_ids (some ds) layers h = (ds, refl, sym (some-injective h))

layers_from-paired_all :
    (dirs : List OverlayLayerDir) (diff_ids : List Text)
    → layers_from dirs 0 diff_ids ≡ paired 0 diff_ids (reverse dirs)
layers_from-paired_all dirs diff_ids =
    layers_from-paired dirs (reverse dirs) 0 diff_ids
      (λ j k e. ap (get_elem? (reverse dirs)) (omega arith))

-- resolveOverlay2Layers gives layers exactly if the driver names as many directories as there are diff
-- IDs, at least one, and every one of them can be normalized; LowerDir names the upper layers first, so
-- the i-th diff ID then gets the i-th directory from the end.
pub resolve_overlay2_layers-paired :
    (normalize : Text → Option OverlayLayerDir) (upper lower : Text) (diff_ids : List Text)
    (layers : List DockerLayer)
    → (resolve_overlay2_layers normalize upper lower diff_ids ≡ some layers) ↔ (
        (dirs : List OverlayLayerDir) × IsNormalized normalize (raw_dirs upper lower) dirs
        × (length (raw_dirs upper lower) ≡ length diff_ids)
        × (0 < length diff_ids)
        × (layers ≡ paired 0 diff_ids (reverse dirs)))
unfolding resolve_overlay2_layers resolve_overlay2_layer_dirs
resolve_overlay2_layers-paired normalize upper lower diff_ids layers =
    let raws = raw_dirs upper lower in
    let resolved = resolve_all normalize raws in
    (
      λ h.
          let (dirs, e, same) = layers_of-some diff_ids _ layers h in
          let (count, some_id, all) =
            guarded_some (length raws) (length diff_ids) resolved dirs e in
          (
            dirs,
            resolve_all-IsNormalized normalize raws dirs all,
            count,
            some_id,
            same ∙ layers_from-paired_all dirs diff_ids,
          ),
      λ (dirs, normalized, count, some_id, same).
          ap (layers_of diff_ids) (
            guarded (length raws) (length diff_ids) resolved count some_id
            ∙ resolve_all-some normalize raws dirs normalized)
          ∙ ap some (layers_from-paired_all dirs diff_ids ∙ sym same),
    )
