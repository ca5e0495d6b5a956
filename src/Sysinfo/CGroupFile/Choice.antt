-- ===== src/Sysinfo/CGroupFile/Choice.antt =====
-- Which line of /proc/[pid]/cgroup ReadCGroupPath takes.
use c_ray.Prelude.{
  Bool, List, Option, Option-cases, [], arith, false, if◌then◌else◌, inl, inr, none, refl, some,
  true, ◌||◌, ◌∷◌, ◌≡◌,
}
use c_ray.Sysinfo.CGroupFile.{cgroup_entry, cgroup_path, is_unified, read_cgroup_path}
use c_ray.Text.Basic.{Text, codes, contains, is_empty}
use c_ray.Text.Split.{split}

-- The entries of the lines that have one.
abbrev pub entries : List Text → List (Text × Text × Text)
entries [] = []
entries (line ∷ lines) = elim (cgroup_entry line) [
  | none ↦ entries lines
  | some e ↦ e ∷ entries lines
]

-- A unified entry, or one of the memory controller.
abbrev pub is_preferred : Text × Text × Text → Bool
is_preferred (id, controllers, path) =
    is_unified id controllers || contains (codes "memory") controllers

-- The path of the first entry that is preferred.
abbrev pub first_preferred : List (Text × Text × Text) → Option Text
first_preferred [] = none
first_preferred (e ∷ es) = if is_preferred e then some e.2 else first_preferred es

abbrev pub first_path : List (Text × Text × Text) → Option Text
first_path [] = none
first_path (e ∷ es) = some e.2

abbrev pub or_else : Option Text → Option Text → Option Text
or_else none b = b
or_else (some a) b = some a

-- The path to fall back on: the one noted so far, or the first path of the entries to come.
abbrev fallback_or : Text → List (Text × Text × Text) → Option Text
fallback_or [] es = first_path es
fallback_or (c ∷ fallback) es = some (c ∷ fallback)

cgroup_entry-path :
    (line : Text) {e : Text × Text × Text} → cgroup_entry line ≡ some e → is_empty e.2 ≡ false
unfolding cgroup_entry
cgroup_entry-path line h = ground arith

-- One line that has an entry, against the rest of the loop.
choice_step :
    (unified memory : Bool) (id controllers path fallback : Text) (rest : Text → Option Text)
    (preferred : Option Text) (es : List (Text × Text × Text))
    → is_empty path ≡ false
    → ((f : Text) → rest f ≡ or_else preferred (fallback_or f es))
    → (if unified
        then some path
        else if memory
        then some path
        else rest (if is_empty fallback then path else fallback))
      ≡ or_else
          (if unified || memory then some path else preferred)
          (fallback_or fallback ((id, controllers, path) ∷ es))
choice_step true memory id controllers path fallback rest preferred es h ih = refl
choice_step false true id controllers path fallback rest preferred es h ih = refl
choice_step false false id controllers [] fallback rest preferred es h ih = cc
choice_step false false id controllers (c ∷ path) [] rest preferred es h ih = ih (c ∷ path)
choice_step false false id controllers (c ∷ path) (d ∷ fallback) rest preferred es h ih =
    ih (d ∷ fallback)

cgroup_path-choice :
    (lines : List Text) (fallback : Text)
    → cgroup_path fallback lines
      ≡ or_else (first_preferred (entries lines)) (fallback_or fallback (entries lines))
unfolding cgroup_path
cgroup_path-choice [] [] = refl
cgroup_path-choice [] (c ∷ fallback) = refl
cgroup_path-choice (line ∷ lines) fallback = elim (Option-cases (cgroup_entry line)) [
  | inl e ↦ rw (e, cgroup_path, entries) (cgroup_path-choice lines fallback)
  | inr ((id, controllers, path), e) ↦
      rw (e, cgroup_path, entries)
        (choice_step (is_unified id controllers) (contains (codes "memory") controllers) id
          controllers path fallback (λ f. cgroup_path f lines) (first_preferred (entries lines))
          (entries lines) (cgroup_entry-path line e) (cgroup_path-choice lines))
]

-- ReadCGroupPath takes the path of the first line that is unified or has the memory controller, and
-- if there is none the path of the first line that has a path.
pub read_cgroup_path-choice :
    (content : Text)
    → read_cgroup_path content
      ≡ or_else
          (first_preferred (entries (split b'\n' content)))
          (first_path (entries (split b'\n' content)))
unfolding read_cgroup_path
read_cgroup_path-choice content = cgroup_path-choice (split b'\n' content) []
