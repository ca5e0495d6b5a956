-- ===== src/Tests/Crio.antt =====
-- The manifests and configs of an image of CRI-O.
use c_ray.Map.{insert}
use c_ray.Prelude.{List, [], map, refl, some, ◌∷◌, ◌≡◌}
use c_ray.Runtime.Crio.Linking.{ConfigInfo, ManifestInfo, link_manifest_configs}
use c_ray.Runtime.Crio.Linking.References.{IsLinked, link_manifest_configs-IsLinked}
use c_ray.Text.Basic.{Text, codes, has_prefix, text_eq, trim_prefix}
use c_ray.Text.Trim.{is_space}

abbrev manifest : Text → Text → ManifestInfo
manifest name digest = record {
  name = name;
  digest = codes "sha256:m";
  config = some digest;
  linked_config = [];
  config_match = [];
}

abbrev config : Text → Text → ConfigInfo
config name digest = record { name = name; digest = digest; referenced_by = [] }

abbrev two_manifests : List ManifestInfo
two_manifests =
    manifest (codes "manifest-b") (codes "sha256:x")
    ∷ manifest (codes "manifest") (codes " SHA256:AA")
    ∷ []

abbrev two_configs : List ConfigInfo
two_configs =
    config (codes "config-b") (codes "sha256:bb") ∷ config (codes "c") (codes "sha256:aa") ∷ []

-- The first one is found by its name, the second one by its digest.
linked_test :
    map (λ (m : ManifestInfo). m.linked_config) (link_manifest_configs two_manifests two_configs).0
    ≡ codes "config-b" ∷ codes "c" ∷ []
unfolding link_manifest_configs is_space insert text_eq has_prefix trim_prefix
linked_test = refl

link_manifest_configs-IsLinked_example :
    IsLinked two_manifests two_configs (link_manifest_configs two_manifests two_configs)
link_manifest_configs-IsLinked_example =
    link_manifest_configs-IsLinked two_manifests two_configs (refl, (refl, tt))
