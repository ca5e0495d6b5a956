-- ===== src/Sysinfo/Mounts/Line.antt =====
-- A line of /proc/[pid]/mountinfo as the kernel prints it is read back.
use mathlib.Core.Path.{ap₂}
use c_ray.Prelude.{
  All, All-append, List, [], ap, arith, false, inr, length, length-append, ltb, refl, some, ℕ, ◌++◌,
  ◌<◌, ◌^◌, ◌∙◌, ◌∷◌, ◌≡◌, ◌≢◌,
}
use c_ray.Prelude.Int.{pos, ℤ}
use c_ray.Result.{ok}
use c_ray.Sysinfo.Mounts.{
  device_numbers, find_separator, mount_info_fields, parse_mount_info_line, with_separator,
}
use c_ray.Text.Basic.{Text, codes, text_eq_iff, text_eq_refl}
use c_ray.Text.Fields.{IsWord, fields-join}
use c_ray.Text.Number.{itoa, value_of}
use c_ray.Text.Number.RoundTrip.{itoa-IsSolid, itoa-IsWord, itoa-Lacks, parse_int-itoa}
use c_ray.Text.Split.{join, split, split-Lacks, split-append}
use c_ray.Text.Trim.{IsSolid-append, is_space}

-- The fields of a line: the fixed ones, the optional ones, the separator, the file system, the
-- source and the options of the super block.
abbrev pub mount_words :
    ℕ → ℕ → ℕ → ℕ → Text → Text → List Text → List Text → Text → Text → List Text → List Text
mount_words id parent major minor root point opts optional fs_type source supers =
    itoa id
    ∷ itoa parent
    ∷ (itoa major ++ b':' ∷ itoa minor)
    ∷ root
    ∷ point
    ∷ join (codes ",") opts
    ∷ (optional ++ codes "-" ∷ fs_type ∷ source ∷ join (codes ",") supers ∷ [])

find_separator-append :
    (optional behind : List Text)
    → All (λ f. f ≢ codes "-") optional
    → find_separator (optional ++ codes "-" ∷ behind) ≡ some (optional, behind)
unfolding find_separator
find_separator-append [] behind h = rw (text_eq_refl (codes "-"), find_separator)
find_separator-append (f ∷ optional) behind (h, hs) =
    ground (arith, text_eq_iff f (codes "-"), find_separator-append optional behind hs)

device-itoa :
    (major minor : ℕ)
    → major < 2 ^ 63
    → minor < 2 ^ 63
    → device_numbers (split b':' (itoa major ++ b':' ∷ itoa minor)) ≡ (pos major, pos minor)
device-itoa major minor ha hi =
    ap device_numbers (
      split-append b':' (itoa major) (itoa minor) (itoa-Lacks b':' major (inr (omega arith)))
      ∙ ap (◌∷◌ (itoa major))
          (split-Lacks b':' (itoa minor) (itoa-Lacks b':' minor (inr (omega arith)))))
    ∙ ap₂ (λ (a b : ℤ). (a, b)) (ap (value_of (pos 0)) (parse_int-itoa major ha))
        (ap (value_of (pos 0)) (parse_int-itoa minor hi))

device-IsWord : (major minor : ℕ) → IsWord (itoa major ++ b':' ∷ itoa minor)
device-IsWord major minor = (
  ne (itoa major) (itoa minor),
  IsSolid-append (itoa major) (b':' ∷ itoa minor) (itoa-IsSolid major)
      (unfold is_space in refl, itoa-IsSolid minor),
)
  where
    ne : (s r : Text) → s ++ b':' ∷ r ≢ []
    ne [] r e = cc
    ne (c ∷ s) r e = cc

-- What the texts and lists of a line must be for the line to have them as its fields.
pub record IsMountLine (root point : Text) (opts optional : List Text) (fs_type source : Text)
    (supers : List Text) : Type 0 where
  pub root_word : IsWord root
  pub point_word : IsWord point
  pub opts_word : IsWord (join (codes ",") opts)
  pub optional_words : All IsWord optional
  pub optional_ne : All (λ f. f ≢ codes "-") optional
  pub type_word : IsWord fs_type
  pub source_word : IsWord source
  pub supers_word : IsWord (join (codes ",") supers)
  pub opts_split : split b',' (join (codes ",") opts) ≡ opts
  pub supers_split : split b',' (join (codes ",") supers) ≡ supers

module _ (id parent major minor : ℕ) (root point : Text) (opts optional : List Text)
    (fs_type source : Text) (supers : List Text)
    (shape : IsMountLine root point opts optional fs_type source supers) (hid : id < 2 ^ 63)
    (hparent : parent < 2 ^ 63) (hmajor : major < 2 ^ 63) (hminor : minor < 2 ^ 63) where
  abbrev words : List Text
  words = mount_words id parent major minor root point opts optional fs_type source supers

  mount_words-IsWord : All IsWord words
  mount_words-IsWord = (
    itoa-IsWord id,
    (
      itoa-IsWord parent,
      (
        device-IsWord major minor,
        (
          shape.root_word,
          (
            shape.point_word,
            (
              shape.opts_word,
              All-append IsWord optional
                  (codes "-" ∷ fs_type ∷ source ∷ join (codes ",") supers ∷ []) shape.optional_words
                  (dash, (shape.type_word, (shape.source_word, (shape.supers_word, tt)))),
            ),
          ),
        ),
      ),
    ),
  )
    where
      dash : IsWord (codes "-")
      dash = ((λ e. cc), (unfold is_space in refl, tt))

  mount_words-length : ltb (length words) 10 ≡ false
  mount_words-length =
      ground (
        arith,
        length-append optional (codes "-" ∷ fs_type ∷ source ∷ join (codes ",") supers ∷ []),
      )

  mount_info_fields-words :
      mount_info_fields words
      ≡ ok (record {
        mount_id = pos id;
        parent_id = pos parent;
        major = pos major;
        minor = pos minor;
        root = root;
        mount_point = point;
        mount_options = opts;
        optional_fields = optional;
        fs_type = fs_type;
        mount_source = source;
        super_options = supers;
      })
  mount_info_fields-words =
      rw (parse_int-itoa id hid, parse_int-itoa parent hparent)
        (rw
          (
            find_separator-append optional (fs_type ∷ source ∷ join (codes ",") supers ∷ [])
                shape.optional_ne,
            with_separator,
          )
          (rw (device-itoa major minor hmajor hminor, shape.opts_split, shape.supers_split)))

  -- Every field of the line is read back, with any number of optional fields, and the numbers. The
  -- numbers are below 2^63, every text is a word without blanks, no optional field is the
  -- separator, and both lists of options are what their text splits into at the commas.
  pub parse_mount_info_line-mount_words :
      parse_mount_info_line (join (codes " ") words)
      ≡ ok (record {
        mount_id = pos id;
        parent_id = pos parent;
        major = pos major;
        minor = pos minor;
        root = root;
        mount_point = point;
        mount_options = opts;
        optional_fields = optional;
        fs_type = fs_type;
        mount_source = source;
        super_options = supers;
      })
  unfolding parse_mount_info_line
  parse_mount_info_line-mount_words =
      rw (fields-join b' ' words (unfold is_space in refl) mount_words-IsWord, mount_words-length)
        mount_info_fields-words
