-- ===== src/Runtime/Crio/Linking/Indexed.antt =====
-- What the two maps of linkManifestConfigs hold.
use mathlib.Core.Path.{ap₂}
use c_ray.Map.{lookup, lookup-insert, text_key}
use c_ray.Prelude.{
  All, Bool, Bool-cases, List, Option, Option-cases, [], ap, false, if◌then◌else◌, inl, inr, none,
  refl, some, sym, ℕ, ◌+◌, ◌∙◌, ◌∷◌, ◌≡◌,
}
use c_ray.Runtime.Crio.Linking.{
  ConfigInfo, ManifestInfo, by_digest_or, by_name_or, candidate_config_names, digest_key,
  first_named, index_by, match_of, name_key, normalize_digest, put_new, with_suffix,
}
use c_ray.Text.Basic.{Text, codes, has_prefix, is_empty, text_eq, text_eq_iff, trim_prefix}

-- The first config of a key.
abbrev pub first_from : ℕ → (ConfigInfo → Bool) → List ConfigInfo → Option ℕ
first_from i p [] = none
first_from i p (c ∷ cs) = if p c then some i else first_from (i + 1) p cs

abbrev pub first_or : Option ℕ → Option ℕ → Option ℕ
first_or none later = later
first_or (some i) later = some i

put_new_same :
    (k : Text) (i : ℕ) (m : List (Text × ℕ))
    → is_empty k ≡ false
    → lookup k (put_new k i m) ≡ first_or (lookup k m) (some i)
put_new_same k i m h = elim (Option-cases (lookup k m)) [
  | inl e ↦ rw (h, e) (lookup-insert k k i m ∙ rw ((text_eq_iff k k).1 refl) refl)
  | inr (j, e) ↦ rw (h, e) e
]

put_new_other :
    (key k : Text) (i : ℕ) (m : List (Text × ℕ))
    → text_eq key k ≡ false
    → lookup k (put_new key i m) ≡ lookup k m
put_new_other key k i m h = elim (Bool-cases (is_empty key)) [
  | inl e ↦ rw e refl
  | inr e ↦ elim (Option-cases (lookup key m)) [
    | inl none_yet ↦ rw (e, none_yet) (lookup-insert key k i m ∙ rw h refl)
    | inr (j, found) ↦ rw (e, found) refl
  ]
]

first_or-none : (o : Option ℕ) → first_or o none ≡ o
first_or-none none = refl
first_or-none (some i) = refl

first_or-first_or :
    (o : Option ℕ) (i : ℕ) (later : Option ℕ)
    → first_or (first_or o (some i)) later ≡ first_or o (some i)
first_or-first_or none i later = refl
first_or-first_or (some j) i later = refl

-- What the loop holds of a key that is not empty: what it held before, or the first config of the key.
lookup-index_by :
    (key : ConfigInfo → Text) (k : Text) (i : ℕ) (cs : List ConfigInfo) (m : List (Text × ℕ))
    → is_empty k ≡ false
    → lookup k (index_by key i cs m)
      ≡ first_or (lookup k m) (first_from i (λ c. text_eq (key c) k) cs)
unfolding index_by
lookup-index_by key k i [] m h = sym (first_or-none (lookup k m))
lookup-index_by key k i (c ∷ cs) m h =
    lookup-index_by key k (i + 1) cs (put_new (key c) i m) h
    ∙ elim (Bool-cases (text_eq (key c) k)) [
      | inl e ↦
          let same = (text_eq_iff (key c) k).0 e in
          rw e (
            ap (λ o. first_or o (first_from (i + 1) (λ d. text_eq (key d) k) cs))
              (ap (λ x. lookup k (put_new x i m)) same ∙ put_new_same k i m h)
            ∙ first_or-first_or (lookup k m) i _)
      | inr e ↦ rw e (
          ap (λ o. first_or o (first_from (i + 1) (λ d. text_eq (key d) k) cs))
            (put_new_other (key c) k i m e))
    ]

-- The first config of a digest, of a name.
abbrev pub first_of_digest : List ConfigInfo → Text → Option ℕ
first_of_digest cs digest = first_from 0 (λ c. text_eq (normalize_digest c.digest) digest) cs

abbrev pub first_of_name : List ConfigInfo → Text → Option ℕ
first_of_name cs name = first_from 0 (λ c. text_eq c.name name) cs

-- The config of a manifest, and what it is found by.
abbrev pub matched_config : List ConfigInfo → ManifestInfo → Option (ℕ × Text)
matched_config cs = match_of (first_of_digest cs) (first_of_name cs)

abbrev AllNonEmpty : List Text → Type 0
AllNonEmpty = All (λ (name : Text). is_empty name ≡ false)

candidate_config_names-AllNonEmpty : (name : Text) → AllNonEmpty (candidate_config_names name)
unfolding candidate_config_names
candidate_config_names-AllNonEmpty name = elim (Bool-cases (is_empty name)) [
  | inl e ↦ rw e tt
  | inr e ↦ elim (Bool-cases (text_eq name (codes "manifest"))) [
    | inl e' ↦ rw (e, e') (refl, tt)
    | inr e' ↦ elim (Bool-cases (has_prefix (codes "manifest-") name)) [
      | inl p ↦ rw (e, e', p) (go (trim_prefix (codes "manifest-") name))
      | inr p ↦ rw (e, e', p) tt
    ]
  ]
]
  where
    go : (suffix : Text) → AllNonEmpty (with_suffix suffix)
    go [] = tt
    go (c ∷ suffix) = (refl, (refl, tt))

first_named-same :
    (f g : Text → Option ℕ) (names : List Text)
    → ((name : Text) → is_empty name ≡ false → f name ≡ g name)
    → AllNonEmpty names
    → first_named f names ≡ first_named g names
unfolding first_named
first_named-same f g [] same h = refl
first_named-same f g (name ∷ names) same (h, hs) =
    ap₂ by_name_or (first_named-same f g names same hs) (same name h)

match_of-same :
    (d d' n n' : Text → Option ℕ) (m : ManifestInfo)
    → ((key : Text) → is_empty key ≡ false → d key ≡ d' key)
    → ((key : Text) → is_empty key ≡ false → n key ≡ n' key)
    → match_of d n m ≡ match_of d' n' m
unfolding match_of
match_of-same d d' n n' m same_digest same_name = go m.config
  where
    names :
        first_named n (candidate_config_names m.name)
        ≡ first_named n' (candidate_config_names m.name)
    names =
        first_named-same n n' (candidate_config_names m.name) same_name
          (candidate_config_names-AllNonEmpty m.name)

    digest_same :
        (key : Text)
        → (if is_empty key then none else d key) ≡ (if is_empty key then none else d' key)
    digest_same key = elim (Bool-cases (is_empty key)) [
      | inl e ↦ rw e refl
      | inr e ↦ rw e (same_digest key e)
    ]

    go :
        (config : Option Text)
        → elim config [
          | none ↦ none
          | some digest ↦
              by_digest_or
                (first_named n (candidate_config_names m.name))
                (if is_empty (normalize_digest digest) then none else d (normalize_digest digest))
        ]
          ≡ elim config [
            | none ↦ none
            | some digest ↦
                by_digest_or (first_named n' (candidate_config_names m.name)) (
                  if is_empty (normalize_digest digest) then none else d' (normalize_digest digest))
          ]
    go none = refl
    go (some digest) = ap₂ by_digest_or names (digest_same (normalize_digest digest))

-- With the maps that the loop fills, a manifest is found the first config of its digest or its name.
pub match_of-index_by :
    (cs : List ConfigInfo) (m : ManifestInfo)
    → match_of
        (λ key. lookup key (index_by digest_key 0 cs []))
        (λ key. lookup key (index_by name_key 0 cs []))
        m
      ≡ matched_config cs m
unfolding lookup
match_of-index_by cs m =
    match_of-same _ _ _ _ m (λ key h. lookup-index_by digest_key key 0 cs [] h)
      (λ key h. lookup-index_by name_key key 0 cs [] h)
