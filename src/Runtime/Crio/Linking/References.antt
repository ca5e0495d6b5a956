-- ===== src/Runtime/Crio/Linking/References.antt =====
-- Which config a manifest is linked to, and what a config is referenced by.
use mathlib.Core.List.{Perm}
use mathlib.Core.Path.{ap₂, fun_ext}
use c_ray.Map.{text_key}
use c_ray.Prelude.{
  All, AllPairs, Bool, List, Option, Option-cases, [], ap, append-nil, append_assoc, arith, false,
  if◌then◌else◌, inl, inr, map, none, refl, some, subst, suc, sym, true, zero, ℕ, ◌++◌, ◌∙◌, ◌∷◌,
  ◌≡◌,
}
use c_ray.Runtime.Crio.Linking.{
  ConfigInfo, ManifestInfo, ManifestRefInfo, add_ref, add_ref_at, by_digest_or,
  candidate_config_names, first_named, link_manifest_configs, link_manifests, linked_with, match_of,
  name_at, normalize_digest, ref_less, ref_of, set_link, sort_refs,
}
use c_ray.Runtime.Crio.Linking.Indexed.{match_of-index_by, matched_config}
use c_ray.Sorting.{IsAsymmetric, IsSortedBy, sort_by-IsSortedBy, sort_by-Perm}
use c_ray.Text.Basic.{Text, is_empty, text_eq_iff}
use c_ray.Text.Order.{text_ltb-asymmetric}
use mathlib.Core.List.Perm
use mathlib.Core.List.Perm

-- A reference at its place.
abbrev pub only_at : ℕ → ManifestRefInfo → ℕ → List ManifestRefInfo
only_at zero r zero = r ∷ []
only_at zero r (suc k) = []
only_at (suc i) r zero = []
only_at (suc i) r (suc k) = only_at i r k

abbrev pub ref_at : Option (ℕ × Text) → ManifestInfo → ℕ → List ManifestRefInfo
ref_at none m k = []
ref_at (some (i, kind)) m k = only_at i (ref_of m) k

-- The references to the config at a place: one for every manifest that is linked to it.
abbrev pub refs_to :
    (ManifestInfo → Option (ℕ × Text)) → List ManifestInfo → ℕ → List ManifestRefInfo
refs_to find [] k = []
refs_to find (m ∷ ms) k = ref_at (find m) m k ++ refs_to find ms k

-- The configs with further references, given by their places.
abbrev pub with_refs : (ℕ → List ManifestRefInfo) → List ConfigInfo → List ConfigInfo
with_refs f [] = []
with_refs f (c ∷ cs) =
    record c { referenced_by = c.referenced_by ++ f 0 } ∷ with_refs (λ k. f (suc k)) cs

with_refs-none : (cs : List ConfigInfo) → with_refs (λ k. []) cs ≡ cs
with_refs-none [] = refl
with_refs-none (c ∷ cs) = simp (append-nil, with_refs-none cs) refl

with_refs-add_ref_at :
    (i : ℕ) (r : ManifestRefInfo) (f : ℕ → List ManifestRefInfo) (cs : List ConfigInfo)
    → with_refs f (add_ref_at i r cs) ≡ with_refs (λ k. only_at i r k ++ f k) cs
with_refs-add_ref_at i r f [] = refl
with_refs-add_ref_at zero r f (c ∷ cs) = simp append_assoc refl
with_refs-add_ref_at (suc i) r f (c ∷ cs) =
    ap (λ cs'. record c { referenced_by = c.referenced_by ++ f 0 } ∷ cs')
      (with_refs-add_ref_at i r (λ k. f (suc k)) cs)

with_refs-add_ref :
    (o : Option (ℕ × Text)) (m : ManifestInfo) (f : ℕ → List ManifestRefInfo) (cs : List ConfigInfo)
    → with_refs f (add_ref o m cs) ≡ with_refs (λ k. ref_at o m k ++ f k) cs
with_refs-add_ref none m f cs = refl
with_refs-add_ref (some (i, kind)) m f cs = with_refs-add_ref_at i (ref_of m) f cs

name_at-add_ref_at :
    (j i : ℕ) (r : ManifestRefInfo) (cs : List ConfigInfo)
    → name_at j (add_ref_at i r cs) ≡ name_at j cs
name_at-add_ref_at j i r [] = refl
name_at-add_ref_at zero zero r (c ∷ cs) = refl
name_at-add_ref_at (suc j) zero r (c ∷ cs) = refl
name_at-add_ref_at zero (suc i) r (c ∷ cs) = refl
name_at-add_ref_at (suc j) (suc i) r (c ∷ cs) = name_at-add_ref_at j i r cs

set_link-add_ref :
    (o o' : Option (ℕ × Text)) (m n : ManifestInfo) (cs : List ConfigInfo)
    → set_link o (add_ref o' n cs) m ≡ set_link o cs m
set_link-add_ref none o' m n cs = refl
set_link-add_ref (some l) none m n cs = refl
set_link-add_ref (some (j, kind)) (some (i, _)) m n cs =
    ap (λ name. record m { linked_config = name; config_match = kind })
      (name_at-add_ref_at j i (ref_of n) cs)

map-set_link :
    (find : ManifestInfo → Option (ℕ × Text)) (o : Option (ℕ × Text)) (n : ManifestInfo)
    (ms : List ManifestInfo) (cs : List ConfigInfo)
    → map (λ m. set_link (find m) (add_ref o n cs) m) ms ≡ map (λ m. set_link (find m) cs m) ms
map-set_link find o n [] cs = refl
map-set_link find o n (m ∷ ms) cs =
    ap₂ (λ x xs. x ∷ xs) (set_link-add_ref (find m) o m n cs) (map-set_link find o n ms cs)

link_manifests_lem :
    (find : ManifestInfo → Option (ℕ × Text)) (ms : List ManifestInfo) (cs : List ConfigInfo)
    → link_manifests find ms cs
      ≡ (map (λ m. set_link (find m) cs m) ms, with_refs (refs_to find ms) cs)
unfolding link_manifests
link_manifests_lem find [] cs = ap (λ x. ([], x)) (sym (with_refs-none cs))
link_manifests_lem find (m ∷ ms) cs =
    let e = link_manifests_lem find ms (add_ref (find m) m cs) in
    ap (λ p. (set_link (find m) cs m ∷ p.0, p.1)) e
    ∙ ap₂ (λ x y. (set_link (find m) cs m ∷ x, y)) (map-set_link find (find m) m ms cs)
        (with_refs-add_ref (find m) m (refs_to find ms) cs)

-- The same config with its references sorted.
abbrev pub IsSortedConfig : ConfigInfo → ConfigInfo → Type 0
IsSortedConfig c sorted =
    (sorted.name ≡ c.name)
    × (sorted.digest ≡ c.digest)
    × IsSortedBy ref_less sorted.referenced_by
    × Perm sorted.referenced_by c.referenced_by

ref_less-asymmetric : IsAsymmetric ref_less
ref_less-asymmetric a b h = ground (
  arith,
  text_eq_iff a.name b.name,
  text_eq_iff b.name a.name,
  text_ltb-asymmetric a.name b.name,
  text_ltb-asymmetric a.digest b.digest,
)

map-sort_refs : (cs : List ConfigInfo) → AllPairs IsSortedConfig cs (map sort_refs cs)
unfolding sort_refs
map-sort_refs [] = tt
map-sort_refs (c ∷ cs) = (
  (
    refl,
    refl,
    sort_by-IsSortedBy ref_less ref_less-asymmetric c.referenced_by,
    sort_by-Perm ref_less c.referenced_by,
  ),
  map-sort_refs cs,
)

abbrev pub IsUnreferenced : ConfigInfo → Type 0
IsUnreferenced c = c.referenced_by ≡ []

unreferenced-IsSortedConfig :
    (cs : List ConfigInfo) → All IsUnreferenced cs → AllPairs IsSortedConfig cs cs
unreferenced-IsSortedConfig [] h = tt
unreferenced-IsSortedConfig (c ∷ cs) (e, h) = (
  (refl, refl, subst (IsSortedBy ref_less) (sym e) tt, Perm.refl _),
  unreferenced-IsSortedConfig cs h,
)

first_named-nothing : (names : List Text) → first_named (λ name. none) names ≡ none
unfolding first_named
first_named-nothing [] = refl
first_named-nothing (name ∷ names) = first_named-nothing names

if_none : {A : Type 0} (b : Bool) (o : Option A) → o ≡ none → (if b then none else o) ≡ none
if_none true o e = refl
if_none false o e = e

match_of-nothing : (m : ManifestInfo) → match_of (λ digest. none) (λ name. none) m ≡ none
unfolding match_of
match_of-nothing m = elim (Option-cases m.config) [
  | inl e ↦ rw e refl
  | inr (digest, e) ↦ rw e (
      ap₂ by_digest_or (first_named-nothing (candidate_config_names m.name))
        (if_none (is_empty (normalize_digest digest)) none refl))
]

matched_config-nil : (m : ManifestInfo) → set_link (matched_config [] m) [] m ≡ m
matched_config-nil m = ap (λ o. set_link o [] m) (match_of-nothing m)

map-unlinked : (ms : List ManifestInfo) → map (λ m. set_link (matched_config [] m) [] m) ms ≡ ms
map-unlinked [] = refl
map-unlinked (m ∷ ms) = ap₂ (λ x xs. x ∷ xs) (matched_config-nil m) (map-unlinked ms)

linked_with-IsLinked :
    (find : ManifestInfo → Option (ℕ × Text)) (ms : List ManifestInfo) (cs : List ConfigInfo)
    → ((linked_with find ms cs).0 ≡ map (λ m. set_link (find m) cs m) ms)
      × AllPairs IsSortedConfig (with_refs (refs_to find ms) cs) (linked_with find ms cs).1
linked_with-IsLinked find ms cs =
    let e = link_manifests_lem find ms cs in
    (
      ap (λ p. p.0) e,
      subst (λ p. AllPairs IsSortedConfig (with_refs (refs_to find ms) cs) (map sort_refs p.1))
          (sym e) (map-sort_refs (with_refs (refs_to find ms) cs)),
    )

abbrev pub IsLinked :
    List ManifestInfo → List ConfigInfo → List ManifestInfo × List ConfigInfo → Type 0
IsLinked ms cs result =
    (result.0 ≡ map (λ m. set_link (matched_config cs m) cs m) ms)
    × AllPairs IsSortedConfig (with_refs (refs_to (matched_config cs) ms) cs) result.1

-- linkManifestConfigs links every manifest with a config to the first config of its digest, without
-- case and blanks, or else to the first one that has the first candidate name that any has; it records
-- the name of that config and what it was found by, and leaves the other manifests alone. Every config
-- then is referenced by exactly the manifests that are linked to it, once each, in the order of their
-- names and digests. No config is referenced before.
pub link_manifest_configs-IsLinked :
    (ms : List ManifestInfo) (cs : List ConfigInfo)
    → All IsUnreferenced cs
    → IsLinked ms cs (link_manifest_configs ms cs)
unfolding link_manifest_configs
link_manifest_configs-IsLinked [] cs h = (
  refl,
  subst (λ cs'. AllPairs IsSortedConfig cs' cs) (sym (with_refs-none cs))
      (unreferenced-IsSortedConfig cs h),
)
link_manifest_configs-IsLinked (m ∷ ms) [] h = (sym (map-unlinked (m ∷ ms)), tt)
link_manifest_configs-IsLinked (m ∷ ms) (c ∷ cs) h =
    subst (λ find. IsLinked (m ∷ ms) (c ∷ cs) (linked_with find (m ∷ ms) (c ∷ cs)))
      (sym (fun_ext (match_of-index_by (c ∷ cs))))
      ((linked_with-IsLinked (matched_config (c ∷ cs)) (m ∷ ms) (c ∷ cs)))
