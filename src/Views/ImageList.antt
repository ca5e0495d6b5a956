-- ===== src/Views/ImageList.antt =====
-- The list of images of pkg/ui/views/image_list.go. The texts of a size and of a time are parameters.
pub mod Names
pub mod Rows
use c_ray.Prelude.{
  Bool, List, Option, [], false, get_elem?, if◌then◌else◌, length, map, none, not, select, some,
  suc, take, zero, ℕ, ◌&&◌, ◌++◌, ◌+◌, ◌||◌, ◌∷◌,
}
use c_ray.Prelude.Int.{ℤ}
use c_ray.Text.Basic.{Text, codes, has_prefix, is_empty, text_eq, trim_prefix}
use c_ray.Text.Number.{itoa}
use c_ray.Text.Search.{after_first, split_last}

pub record ImageInfo : Type 0 where
  pub names : List Text
  pub digest : Text
  pub size : ℤ
  pub created_at : ℕ

abbrev pub sha256_prefix : Text
sha256_prefix = codes "sha256:"

-- A name that is hidden: a digest, or a name with the digest of this image.
unfoldable pub is_hidden : Text → Text → Bool
is_hidden digest_hash name =
    has_prefix sha256_prefix name || elim (after_first (codes "@sha256:") name) [
      | none ↦ false
      | some hash ↦ text_eq hash digest_hash
    ]

-- imageVisibleNames.
unfoldable pub image_visible_names : ImageInfo → List Text
unfolding is_hidden
image_visible_names img =
    select (λ name. not (is_hidden (trim_prefix sha256_prefix img.digest) name)) img.names

-- The tag behind the last colon, in the part behind the last slash.
abbrev pub with_tag : Text → Text → Option (Text × Text) → Text × Text
with_tag dir part none = (dir ++ part, codes "<none>")
with_tag dir part (some (image, tag)) = (dir ++ image, tag)

-- splitImageName.
unfoldable pub split_image_name : Text → Text × Text
unfolding split_last
split_image_name name = elim (split_last b'/' name) [
  | none ↦ with_tag [] name (split_last b':' name)
  | some (dir, part) ↦ with_tag (dir ++ b'/' ∷ []) part (split_last b':' part)
]

-- shortDigest, for a digest in ASCII.
abbrev pub short_digest : Text → ℕ → Text
short_digest digest max_len = take max_len digest

-- A row of the table.
pub record Row : Type 0 where
  pub image : Text
  pub tag : Text
  pub alias_count : Text
  pub digest : Text
  pub size : Text
  pub created : Text

-- The rows of the table, rowMap and entryPrimaryRow.
pub record Flat : Type 0 where
  pub rows : List Row
  pub row_map : List ℕ
  pub entry_primary_row : List ℕ

module _ (format_size : ℤ → Text) (format_time : ℕ → Text) where
  abbrev pub named_row : ImageInfo → Text → Text → Text × Text → Row
  named_row img count digest (image, tag) = record {
    image = image;
    tag = tag;
    alias_count = count;
    digest = digest;
    size = format_size img.size;
    created = format_time img.created_at;
  }

  -- The rows of an image: one for every visible name, or one without a name.
  unfoldable pub rows_of_names : ImageInfo → List Text → List Row
  unfolding split_image_name
  rows_of_names img [] = named_row img [] (short_digest img.digest 19) (codes "-", []) ∷ []
  rows_of_names img (name ∷ names) =
      map
        (λ n.
          named_row img (itoa (length (name ∷ names))) (short_digest img.digest 19)
            (split_image_name n))
        (name ∷ names)

  unfoldable pub image_rows : ImageInfo → List Row
  unfolding rows_of_names image_visible_names
  image_rows img = rows_of_names img (image_visible_names img)

  -- The loop of renderFlat, from an entry and a row of the table on.
  unfoldable pub flat_from : ℕ → ℕ → List ImageInfo → Flat
  unfolding image_rows
  flat_from idx table_row [] = record { rows = []; row_map = []; entry_primary_row = [] }
  flat_from idx table_row (e ∷ es) =
      let block = image_rows e in
      let rest = flat_from (idx + 1) (table_row + length block) es in
      record {
        rows = block ++ rest.rows;
        row_map = map (λ r. idx) block ++ rest.row_map;
        entry_primary_row = table_row ∷ rest.entry_primary_row;
      }

  -- renderFlat.
  unfoldable pub render_flat : List ImageInfo → Flat
  unfolding flat_from
  render_flat entries = flat_from 0 1 entries

abbrev pub entry_at : List ImageInfo → Option ℕ → Option ImageInfo
entry_at entries none = none
entry_at entries (some idx) = get_elem? entries idx

-- entryForTableRow: row 0 is the header.
unfoldable pub entry_for_table_row : Flat → List ImageInfo → ℕ → Option ImageInfo
entry_for_table_row v entries zero = none
entry_for_table_row v entries (suc row) = entry_at entries (get_elem? v.row_map row)

-- imageSelection.
pub record ImageSelection : Type 0 where
  pub digest : Text
  pub name : Text

abbrev pub head_or_empty : List Text → Text
head_or_empty [] = []
head_or_empty (name ∷ names) = name

-- primaryImageName.
abbrev pub first_of : List Text → List Text → Text
first_of [] names = head_or_empty names
first_of (name ∷ visible) names = name

unfoldable pub primary_image_name : ImageInfo → Text
unfolding image_visible_names
primary_image_name img = first_of (image_visible_names img) img.names

-- imageHasName.
abbrev pub is_among : Text → List Text → Bool
is_among name [] = false
is_among name (n ∷ ns) = text_eq n name || is_among name ns

abbrev pub image_has_name : ImageInfo → Text → Bool
image_has_name img name = not (is_empty name) && is_among name img.names

abbrev pub selection_of : Option ImageInfo → ImageSelection
selection_of none = record { digest = []; name = [] }
selection_of (some img) = record { digest = img.digest; name = primary_image_name img }

-- getSelection.
unfoldable pub get_selection : Flat → List ImageInfo → ℕ → ImageSelection
unfolding entry_for_table_row primary_image_name
get_selection v entries row = selection_of (entry_for_table_row v entries row)

abbrev pub is_selected : ImageSelection → ImageInfo → Bool
is_selected saved img =
    not (is_empty saved.digest) && text_eq img.digest saved.digest
    || is_empty saved.digest && not (is_empty saved.name) && image_has_name img saved.name

-- The loop of restoreSelection.
unfoldable pub restore_loop : ImageSelection → List ImageInfo → List ℕ → ℕ → ℕ
restore_loop saved (e ∷ es) (row ∷ rows) fallback =
    let later = restore_loop saved es rows fallback in if is_selected saved e then row else later
restore_loop saved _ _ fallback = fallback

-- restoreSelection: the row that is selected; none if the table has no rows.
abbrev pub restore_in : ImageSelection → List ImageInfo → List ℕ → Option ℕ
restore_in saved entries [] = none
restore_in saved entries (row ∷ rows) = some (restore_loop saved entries (row ∷ rows) row)

unfoldable pub restore_selection : ImageSelection → Flat → List ImageInfo → Option ℕ
unfolding restore_loop
restore_selection saved v entries = restore_in saved entries v.entry_primary_row
