-- ===== src/Tests/Words.antt =====
-- Words for the tests, and a file system and numbers to run them on.
use c_ray.Files.{Files}
use c_ray.Float.{Float}
use c_ray.Prelude.{
  Bool, List, Option, [], arith, false, if◌then◌else◌, leb, ltb, none, not, some, true, ℕ, ◌&&◌,
  ◌*◌, ◌+◌, ◌/◌, ◌∷◌, ◌≡◌,
}
use c_ray.Prelude.Int.{negsuc, pos}
use c_ray.Text.Basic.{Text, text_eq}
use c_ray.Text.Fields.{IsWord}
use c_ray.Text.Trim.{IsSolid, is_space}

unfoldable pub is_solid : Text → Bool
is_solid [] = true
is_solid (c ∷ s) = not (is_space c) && is_solid s

pub test-IsSolid : (s : Text) → is_solid s ≡ true → IsSolid s
unfolding is_solid
test-IsSolid [] h = tt
test-IsSolid (c ∷ s) h = (ground arith, test-IsSolid s (ground arith))

pub test-IsWord : (c : ℕ) (s : Text) → is_solid (c ∷ s) ≡ true → IsWord (c ∷ s)
test-IsWord c s h = ((λ e. cc), test-IsSolid (c ∷ s) h)

-- A file system with these files and nothing else.
abbrev pub file_in : List (Text × Text) → Text → Option Text
file_in [] path = none
file_in ((name, content) ∷ files) path =
    if text_eq name path then some content else file_in files path

abbrev pub files_of : List (Text × Text) → Files
files_of files = record {
  read_file = file_in files;
  read_link = λ path. none;
  read_dir = λ path. none;
  exists = λ path. false;
}

-- Natural numbers in the place of floats.
abbrev pub nat_float : Float
nat_float = record {
  Value = ℕ;
  ratio = λ m n. m / n;
  of_uint = λ n. n;
  of_int = λ z. elim z [ pos n ↦ n | negsuc n ↦ 0 ];
  add = λ a b. a + b;
  mul = λ a b. a * b;
  div = λ a b. a / b;
  gt = λ a b. ltb b a;
  ge = λ a b. leb b a;
}
