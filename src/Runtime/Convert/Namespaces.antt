-- ===== src/Runtime/Convert/Namespaces.antt =====
-- The two readings of the namespaces of a spec.
-- No namespace of the list is of the type.
use c_ray.Map.{insert, lookup, lookup-insert, text_key}
use c_ray.Prelude.{
  All, Bool-cases, List, Option, [], arith, false, inl, inr, none, refl, some, subst, ◌∷◌, ◌≡◌,
}
use c_ray.Runtime.Convert.{
  build_namespace_map, namespace_loop, namespace_map_of_linux, ns_path, ns_path_from_spec,
  ns_path_of_linux,
}
use c_ray.Runtime.Spec.{Linux, LinuxNamespace, Spec}
use c_ray.Text.Basic.{Text, text_eq, text_eq_iff}

abbrev pub LacksType : Text → List LinuxNamespace → Type 0
LacksType t = All (λ n. text_eq n.ns_type t ≡ false)

-- The types are distinct.
abbrev pub IsDistinctTypes : List LinuxNamespace → Type 0
IsDistinctTypes [] = Unit
IsDistinctTypes (n ∷ ns) = LacksType n.ns_type ns × IsDistinctTypes ns

abbrev pub namespaces_of_linux : Option Linux → List LinuxNamespace
namespaces_of_linux none = []
namespaces_of_linux (some l) = l.namespaces

abbrev pub namespaces_of : Option Spec → List LinuxNamespace
namespaces_of none = []
namespaces_of (some spec) = namespaces_of_linux spec.linux

-- m[key] of a map of texts, which is empty for a key that is missing.
abbrev pub text_at : Option Text → Text
text_at none = []
text_at (some v) = v

namespace_loop-LacksType :
    (t : Text) (ns : List LinuxNamespace) (m : List (Text × Text))
    → LacksType t ns
    → lookup t (namespace_loop ns m) ≡ lookup t m
unfolding namespace_loop
namespace_loop-LacksType t [] m _ = refl
namespace_loop-LacksType t (n ∷ ns) m (h, hs) =
    rw (namespace_loop-LacksType t ns (insert n.ns_type n.path m) hs)
      (rw (lookup-insert n.ns_type t n.path m) (rw h refl))

lookup-namespace_loop :
    (t : Text) (ns : List LinuxNamespace) (m : List (Text × Text))
    → IsDistinctTypes ns
    → lookup t m ≡ none
    → text_at (lookup t (namespace_loop ns m)) ≡ ns_path t ns
unfolding namespace_loop ns_path
lookup-namespace_loop t [] m _ h = rw h refl
lookup-namespace_loop t (n ∷ ns) m (hn, hns) h = elim (Bool-cases (text_eq n.ns_type t)) [
  | inl e ↦ ground (
    arith,
    namespace_loop-LacksType t ns (insert n.ns_type n.path m)
        (subst (λ x. LacksType x ns) ((text_eq_iff n.ns_type t).0 e) hn),
    lookup-insert n.ns_type t n.path m,
  )
  | inr e ↦ rw e (
      lookup-namespace_loop t ns (insert n.ns_type n.path m) hns ground
        (arith, lookup-insert n.ns_type t n.path m))
]

namespace_map_of_linux-ns_path :
    (l : Option Linux) (t : Text)
    → IsDistinctTypes (namespaces_of_linux l)
    → text_at (lookup t (namespace_map_of_linux l)) ≡ ns_path_of_linux t l
unfolding lookup
namespace_map_of_linux-ns_path none t _ = refl
namespace_map_of_linux-ns_path (some l) t h = lookup-namespace_loop t l.namespaces [] h refl

-- The map of BuildNamespaceMap holds for every type the path that NsPathFromSpec finds, where no two
-- namespaces of the spec are of one type. A missing type and a missing spec give the empty path.
pub build_namespace_map-ns_path :
    (spec : Option Spec) (t : Text)
    → IsDistinctTypes (namespaces_of spec)
    → text_at (lookup t (build_namespace_map spec)) ≡ ns_path_from_spec spec t
unfolding build_namespace_map ns_path_from_spec lookup
build_namespace_map-ns_path none t _ = refl
build_namespace_map-ns_path (some spec) t h = namespace_map_of_linux-ns_path spec.linux t h
