-- ===== src/Tests/Runtime.antt =====
-- Cgroup paths and conmon command lines.
use c_ray.Prelude.{Option, [], false, refl, some, ℕ, ◌++◌, ◌∷◌, ◌≡◌}
use c_ray.Runtime.CGroupPath.{
  expand_systemd_slice_path, infer_cgroup_driver, normalize_absolute_cgroup_path,
  normalize_cgroup_path, slice_loop, systemd_cgroup_path, unit_name,
}
use c_ray.Runtime.CGroupPath.Slice.{
  IsPart, levels, nested, normalize_cgroup_path-systemd_form, systemd_form,
}
use c_ray.Tests.Words.{is_solid, test-IsSolid}
use c_ray.Text.Basic.{
  Text, codes, contains, contains_char, has_suffix, text_eq, trim_prefix, trim_suffix,
}
use c_ray.Text.Split.{cut, join, split, split_3}
use c_ray.Text.Suffix.{contains_char-Lacks}
use c_ray.Text.Trim.{IsSolid, is_space, trim_space}

normalize_test :
    (normalize_cgroup_path (codes "kubepods/pod1") ≡ codes "/kubepods/pod1")
    × (normalize_cgroup_path (codes "system.slice:crio:abc") ≡ codes "/system.slice/crio-abc.scope")
    × (normalize_cgroup_path (codes "-.slice:crio:abc") ≡ codes "//crio-abc.scope")
unfolding normalize_cgroup_path systemd_cgroup_path trim_space is_space text_eq infer_cgroup_driver
    contains normalize_absolute_cgroup_path trim_prefix split_3 cut expand_systemd_slice_path
    has_suffix trim_suffix slice_loop split join unit_name
normalize_test = (refl, refl, refl)

abbrev live_path : ℕ → Option Text
live_path pid = some (codes "/live")

part :
    (c : ℕ) (s : Text)
    → IsSolid (c ∷ s)
    → contains_char b'-' (c ∷ s) ≡ false
    → contains_char b'/' (c ∷ s) ≡ false
    → contains_char b':' (c ∷ s) ≡ false
    → IsPart (c ∷ s)
part c s h d l k = (
  refl,
  h,
  contains_char-Lacks b'-' (c ∷ s) d,
  contains_char-Lacks b'/' (c ∷ s) l,
  contains_char-Lacks b':' (c ∷ s) k,
)

normalize_cgroup_path-systemd_form_example :
    normalize_cgroup_path
      (systemd_form (codes "user" ∷ codes "7" ∷ []) (codes "crio") (codes "abc"))
    ≡ nested (levels (codes "user" ∷ codes "7" ∷ []))
      ++ b'/' ∷ unit_name (codes "crio") (codes "abc")
unfolding is_solid is_space contains_char
normalize_cgroup_path-systemd_form_example =
    normalize_cgroup_path-systemd_form (codes "user") (codes "7" ∷ []) (codes "crio") (codes "abc")
      (part b'u' (codes "ser") (test-IsSolid (codes "user") refl) refl refl refl)
      (part b'7' [] (test-IsSolid (codes "7") refl) refl refl refl, tt)
      (test-IsSolid (codes "crio") refl, contains_char-Lacks b':' (codes "crio") refl)
      (test-IsSolid (codes "abc") refl, refl)
