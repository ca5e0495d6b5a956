-- ===== src/Tests/Mounts.antt =====
-- Mounts.
use mathlib.Core.Bool.{false≢true}
use c_ray.Prelude.{List, [], arith, refl, ◌∷◌, ◌≡◌, ◌≢◌}
use c_ray.Prelude.Int.{pos}
use c_ray.Result.{ok}
use c_ray.Sysinfo.Mounts.{parse_mount_info_line}
use c_ray.Sysinfo.Mounts.Line.{IsMountLine, mount_words, parse_mount_info_line-mount_words}
use c_ray.Sysinfo.Mounts.Overlay.{option_key}
use c_ray.Sysinfo.Types.{Mount}
use c_ray.Tests.Words.{is_solid, test-IsWord}
use c_ray.Text.Basic.{Text, codes, text_eq, text_eq_iff}
use c_ray.Text.Split.{cut, join, split}
use c_ray.Text.Trim.{is_space}

abbrev line_words : List Text
line_words =
    mount_words 36 35 98 0 (codes "/mnt1") (codes "/mnt2") (codes "rw" ∷ codes "noatime" ∷ [])
      (codes "master:1" ∷ []) (codes "ext3") (codes "/dev/root") (codes "rw" ∷ [])

line_shape :
    IsMountLine
      (codes "/mnt1")
      (codes "/mnt2")
      (codes "rw" ∷ codes "noatime" ∷ [])
      (codes "master:1" ∷ [])
      (codes "ext3")
      (codes "/dev/root")
      (codes "rw" ∷ [])
unfolding is_solid is_space join split
line_shape = record {
  root_word = test-IsWord b'/' (codes "mnt1") refl;
  point_word = test-IsWord b'/' (codes "mnt2") refl;
  opts_word = test-IsWord b'r' (codes "w,noatime") refl;
  optional_words = (test-IsWord b'm' (codes "aster:1") refl, tt);
  optional_ne = ((λ e. ground arith), tt);
  type_word = test-IsWord b'e' (codes "xt3") refl;
  source_word = test-IsWord b'/' (codes "dev/root") refl;
  supers_word = test-IsWord b'r' (codes "w") refl;
  opts_split = refl;
  supers_split = refl;
}

parse_mount_info_line-mount_words_example :
    parse_mount_info_line (join (codes " ") line_words)
    ≡ ok (record {
      mount_id = pos 36;
      parent_id = pos 35;
      major = pos 98;
      minor = pos 0;
      root = codes "/mnt1";
      mount_point = codes "/mnt2";
      mount_options = codes "rw" ∷ codes "noatime" ∷ [];
      optional_fields = codes "master:1" ∷ [];
      fs_type = codes "ext3";
      mount_source = codes "/dev/root";
      super_options = codes "rw" ∷ [];
    })
parse_mount_info_line-mount_words_example =
    parse_mount_info_line-mount_words 36 35 98 0 (codes "/mnt1") (codes "/mnt2")
      (codes "rw" ∷ codes "noatime" ∷ []) (codes "master:1" ∷ []) (codes "ext3") (codes "/dev/root")
      (codes "rw" ∷ []) line_shape (omega arith) (omega arith) (omega arith) (omega arith)

abbrev overlay : Mount
overlay = record {
  source = codes "overlay";
  destination = codes "/";
  fs_type = codes "overlay";
  options = codes "rw" ∷ codes "lowerdir=/l/1:/l/2" ∷ codes "upperdir=/u" ∷ [];
}

upper_key : option_key (codes "upperdir=/u") ≢ codes "lowerdir"
unfolding cut text_eq
upper_key e = false≢true ((text_eq_iff (option_key (codes "upperdir=/u")) (codes "lowerdir")).1 e)
