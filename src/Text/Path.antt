-- ===== src/Text/Path.antt =====
-- The package path/filepath on Unix: Clean, Join and Base. Clean works on the components between
-- slashes; the components that are kept stand in reverse order.
use mathlib.Core.List.{reverse}
use c_ray.Prelude.{
  Bool, List, Option, [], false, if◌then◌else◌, none, some, true, ◌&&◌, ◌++◌, ◌==◌, ◌||◌, ◌∷◌, ◌≡◌,
}
use c_ray.Text.Basic.{Text, after_last, codes, is_empty, text_eq}
use c_ray.Text.Search.{split_last}
use c_ray.Text.Split.{join, split}

-- ".." takes back the last component, unless that is ".." itself; above the root there is nothing.
abbrev pub clean_back : Bool → List Text → List Text
clean_back true [] = []
clean_back false [] = codes ".." ∷ []
clean_back rooted (d ∷ out) = if text_eq d (codes "..") then codes ".." ∷ d ∷ out else out

-- One component: an empty one and "." are dropped.
unfoldable pub clean_step : Bool → List Text → Text → List Text
clean_step rooted out c =
    if is_empty c || text_eq c (codes ".")
    then out
    else if text_eq c (codes "..")
    then clean_back rooted out
    else c ∷ out

unfoldable pub clean_onto : Bool → List Text → List Text → List Text
clean_onto rooted out [] = out
clean_onto rooted out (c ∷ cs) = clean_onto rooted (clean_step rooted out c) cs

-- The text of the components kept.
abbrev pub unclean : Bool → List Text → Text
unclean true out = b'/' ∷ join (codes "/") (reverse out)
unclean false [] = codes "."
unclean false (c ∷ out) = join (codes "/") (reverse (c ∷ out))

abbrev pub is_abs : Text → Bool
is_abs [] = false
is_abs (c ∷ s) = c == b'/'

-- filepath.Clean(path).
unfoldable pub clean : Text → Text
unfolding clean_onto clean_step split join text_eq
clean path = let rooted = is_abs path in unclean rooted (clean_onto rooted [] (split b'/' path))

-- filepath.Join(elem...): empty elements in front are ignored.
unfoldable pub join_path : List Text → Text
unfolding clean join
join_path [] = []
join_path (e ∷ es) =
    let rest = join_path es in if is_empty e then rest else clean (join (codes "/") (e ∷ es))

-- The text with the slashes at its end gone.
unfoldable pub trim_slashes : Text → Text
trim_slashes [] = []
trim_slashes (c ∷ s) = let t = trim_slashes s in if is_empty t && c == b'/' then [] else c ∷ t

-- filepath.Base(path).
unfoldable pub base : Text → Text
unfolding trim_slashes after_last
base [] = codes "."
base (c ∷ s) =
    let t = trim_slashes (c ∷ s) in
    if is_empty t then codes "/" else elim (after_last b'/' t) [ none ↦ t | some r ↦ r ]

-- The text up to its last slash.
abbrev pub up_to_slash : Option (Text × Text) → Text
up_to_slash none = []
up_to_slash (some (x, y)) = x ++ b'/' ∷ []

-- filepath.Dir(path).
unfoldable pub dir : Text → Text
unfolding clean split_last
dir path = clean (up_to_slash (split_last b'/' path))

-- A cleaned absolute path begins with a slash, and so does the path that is joined onto a root.
pub clean-is_abs : (p : Text) → is_abs p ≡ true → is_abs (clean p) ≡ true
unfolding clean
clean-is_abs p h = rw h
