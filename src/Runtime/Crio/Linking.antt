-- ===== src/Runtime/Crio/Linking.antt =====
-- linkManifestConfigs of pkg/runtime/crio/introspection.go, on the fields of manifests and configs that
-- it reads and writes. Of the descriptor of a config only the digest is read.
pub mod Indexed
pub mod References
use c_ray.Map.{insert, lookup, text_key}
use c_ray.Prelude.{
  Bool, List, Option, [], if◌then◌else◌, map, none, not, some, suc, zero, ℕ, ◌++◌, ◌+◌, ◌∷◌,
}
use c_ray.Sorting.{sort_by}
use c_ray.Text.Basic.{Text, codes, has_prefix, is_empty, text_eq, trim_prefix}
use c_ray.Text.Letters.{to_lower}
use c_ray.Text.Order.{text_ltb}
use c_ray.Text.Trim.{trim_space}

pub record ManifestInfo : Type 0 where
  pub name : Text
  pub digest : Text
  pub config : Option Text
  pub linked_config : Text
  pub config_match : Text

pub record ManifestRefInfo : Type 0 where
  pub name : Text
  pub digest : Text

pub record ConfigInfo : Type 0 where
  pub name : Text
  pub digest : Text
  pub referenced_by : List ManifestRefInfo

-- normalizeDigest.
unfoldable pub normalize_digest : Text → Text
unfolding trim_space to_lower
normalize_digest value = trim_space (to_lower value)

abbrev pub with_suffix : Text → List Text
with_suffix [] = []
with_suffix (c ∷ suffix) = (codes "config-" ++ c ∷ suffix) ∷ (c ∷ suffix) ∷ []

-- candidateConfigNames.
unfoldable pub candidate_config_names : Text → List Text
candidate_config_names name =
    if is_empty name
    then []
    else if text_eq name (codes "manifest")
    then codes "config" ∷ []
    else if has_prefix (codes "manifest-") name
    then with_suffix (trim_prefix (codes "manifest-") name)
    else []

-- The entry of a map that is made for the first config of a key.
abbrev pub put_new : Text → ℕ → List (Text × ℕ) → List (Text × ℕ)
put_new key i m =
    if is_empty key then m else elim (lookup key m) [ none ↦ insert key i m | some _ ↦ m ]

-- The loop that fills configByDigest and configByName, for one of them.
unfoldable pub index_by :
    (ConfigInfo → Text) → ℕ → List ConfigInfo → List (Text × ℕ) → List (Text × ℕ)
index_by key i [] m = m
index_by key i (c ∷ cs) m = index_by key (i + 1) cs (put_new (key c) i m)

abbrev pub digest_key : ConfigInfo → Text
digest_key c = normalize_digest c.digest

abbrev pub name_key : ConfigInfo → Text
name_key c = c.name

abbrev pub by_name_or : Option (ℕ × Text) → Option ℕ → Option (ℕ × Text)
by_name_or later none = later
by_name_or later (some i) = some (i, codes "name")

-- The loop over the candidates.
unfoldable pub first_named : (Text → Option ℕ) → List Text → Option (ℕ × Text)
first_named by_name [] = none
first_named by_name (candidate ∷ candidates) =
    by_name_or (first_named by_name candidates) (by_name candidate)

abbrev pub by_digest_or : Option (ℕ × Text) → Option ℕ → Option (ℕ × Text)
by_digest_or named none = named
by_digest_or named (some i) = some (i, codes "digest")

-- matchIndex and matchType, with what the two maps hold of a key; no match is none.
unfoldable pub match_of : (Text → Option ℕ) → (Text → Option ℕ) → ManifestInfo → Option (ℕ × Text)
unfolding first_named normalize_digest candidate_config_names
match_of by_digest by_name m = elim (m.config) [
  | none ↦ none
  | some digest ↦
      by_digest_or (first_named by_name (candidate_config_names m.name))
        (if is_empty (normalize_digest digest) then none else by_digest (normalize_digest digest))
]

-- configs[i].Name; an index that a map holds is in range.
abbrev pub name_at : ℕ → List ConfigInfo → Text
name_at i [] = []
name_at zero (c ∷ cs) = c.name
name_at (suc i) (c ∷ cs) = name_at i cs

abbrev pub add_ref_at : ℕ → ManifestRefInfo → List ConfigInfo → List ConfigInfo
add_ref_at i r [] = []
add_ref_at zero r (c ∷ cs) = record c { referenced_by = c.referenced_by ++ r ∷ [] } ∷ cs
add_ref_at (suc i) r (c ∷ cs) = c ∷ add_ref_at i r cs

abbrev pub ref_of : ManifestInfo → ManifestRefInfo
ref_of m = record { name = m.name; digest = m.digest }

abbrev pub set_link : Option (ℕ × Text) → List ConfigInfo → ManifestInfo → ManifestInfo
set_link none cs m = m
set_link (some (i, kind)) cs m = record m { linked_config = name_at i cs; config_match = kind }

abbrev pub add_ref : Option (ℕ × Text) → ManifestInfo → List ConfigInfo → List ConfigInfo
add_ref none m cs = cs
add_ref (some (i, kind)) m cs = add_ref_at i (ref_of m) cs

-- The loop over the manifests.
unfoldable pub link_manifests :
    (ManifestInfo → Option (ℕ × Text))
    → List ManifestInfo
    → List ConfigInfo
    → List ManifestInfo × List ConfigInfo
link_manifests find [] cs = ([], cs)
link_manifests find (m ∷ ms) cs =
    let (ms', cs') = link_manifests find ms (add_ref (find m) m cs) in
    (set_link (find m) cs m ∷ ms', cs')

abbrev pub ref_less : ManifestRefInfo → ManifestRefInfo → Bool
ref_less a b =
    if not (text_eq a.name b.name) then text_ltb a.name b.name else text_ltb a.digest b.digest

unfoldable pub sort_refs : ConfigInfo → ConfigInfo
unfolding sort_by
sort_refs c = record c { referenced_by = sort_by ref_less c.referenced_by }

abbrev pub linked_with :
    (ManifestInfo → Option (ℕ × Text))
    → List ManifestInfo
    → List ConfigInfo
    → List ManifestInfo × List ConfigInfo
linked_with find ms cs = let (ms', cs') = link_manifests find ms cs in (ms', map sort_refs cs')

-- linkManifestConfigs.
unfoldable pub link_manifest_configs :
    List ManifestInfo → List ConfigInfo → List ManifestInfo × List ConfigInfo
unfolding index_by match_of link_manifests sort_refs lookup
link_manifest_configs [] cs = ([], cs)
link_manifest_configs (m ∷ ms) [] = (m ∷ ms, [])
link_manifest_configs (m ∷ ms) (c ∷ cs) =
    let by_digest = index_by digest_key 0 (c ∷ cs) [] in
    let by_name = index_by name_key 0 (c ∷ cs) [] in
    linked_with (match_of (λ key. lookup key by_digest) (λ key. lookup key by_name)) (m ∷ ms)
      (c ∷ cs)
