-- ===== src/Views/ImageList/Rows.antt =====
-- The rows of the table and the entries that they stand for.
use c_ray.Prelude.{
  Bool, Bool-cases, List, [], ap, arith, false, get_elem?, inl, inr, length, map, refl, some, suc,
  true, zero, ℕ, ◌++◌, ◌+◌, ◌<◌, ◌||◌, ◌∙◌, ◌∷◌, ◌≡◌,
}
use c_ray.Prelude.Int.{ℤ}
use c_ray.Text.Basic.{Text}
use c_ray.Views.ImageList.{
  ImageInfo, ImageSelection, Row, entry_for_table_row, flat_from, image_rows, image_visible_names,
  is_selected, render_flat, restore_in, restore_loop, restore_selection, rows_of_names,
}
use c_ray.Views.Top.Shown.{chosen}

module _ (format_size : ℤ → Text) (format_time : ℕ → Text) where
  -- What a row of the table stands for, counted from `table_row` on.
  rows_of_names-pos :
      (img : ImageInfo) (names : List Text)
      → 0 < length (rows_of_names format_size format_time img names)
  unfolding rows_of_names
  rows_of_names-pos img [] = omega arith
  rows_of_names-pos img (name ∷ names) = omega arith

  get_elem?-block :
      (idx : ℕ) (block : List Row) (rest : List ℕ)
      → 0 < length block
      → get_elem? (map (λ r. idx) block ++ rest) 0 ≡ some idx
  get_elem?-block idx [] rest h = absurd (omega arith)
  get_elem?-block idx (r ∷ block) rest h = refl

  get_elem?-behind :
      (idx : ℕ) (block : List Row) (rest : List ℕ) (i : ℕ)
      → get_elem? (map (λ r. idx) block ++ rest) (length block + i) ≡ get_elem? rest i
  get_elem?-behind idx [] rest i = let e : 0 + i ≡ i = omega arith in rw e refl
  get_elem?-behind idx (r ∷ block) rest i =
      let e : suc (length block) + i ≡ suc (length block + i) = omega arith in
      rw e (get_elem?-behind idx block rest i)

  -- The row of an entry stands for it.
  row_map-primary :
      (idx table_row : ℕ) (es : List ImageInfo) (i row : ℕ)
      → get_elem? (flat_from format_size format_time idx table_row es).entry_primary_row i
        ≡ some row
      → (k : ℕ) × (row ≡ table_row + k)
        × (get_elem? (flat_from format_size format_time idx table_row es).row_map k
            ≡ some (idx + i))
  unfolding flat_from
  row_map-primary idx table_row [] i row h = cc
  row_map-primary idx table_row (e ∷ es) zero row h = (
    0,
    ground arith,
    get_elem?-block idx (image_rows format_size format_time e) _
          (unfold image_rows in rows_of_names-pos e (image_visible_names e))
        ∙ ap some (omega arith),
  )
  row_map-primary idx table_row (e ∷ es) (suc i) row h =
      let block = image_rows format_size format_time e in
      let (k, at, same) = row_map-primary (idx + 1) (table_row + length block) es i row h in
      (length block + k, omega arith, get_elem?-behind idx block _ k ∙ same ∙ ap some (omega arith))

  -- entryForTableRow gives for the row of an entry that entry.
  pub entry_for_table_row-primary :
      (entries : List ImageInfo) (i row : ℕ)
      → get_elem? (render_flat format_size format_time entries).entry_primary_row i ≡ some row
      → entry_for_table_row (render_flat format_size format_time entries) entries row
        ≡ get_elem? entries i
  unfolding render_flat
  entry_for_table_row-primary entries i row h =
      let (k, at, same) = row_map-primary 0 1 entries i row h in
      let at' : row ≡ suc k = omega arith in
      let i' : 0 + i ≡ i = omega arith in
      rw at' (unfold entry_for_table_row in rw same (ap (get_elem? entries) i'))

  length-primary :
      (idx table_row : ℕ) (es : List ImageInfo)
      → length (flat_from format_size format_time idx table_row es).entry_primary_row ≡ length es
  unfolding flat_from
  length-primary idx table_row [] = refl
  length-primary idx table_row (e ∷ es) =
      ap suc
        (length-primary (idx + 1) (table_row + length (image_rows format_size format_time e)) es)

abbrev pub any_selected : ImageSelection → List ImageInfo → Bool
any_selected saved [] = false
any_selected saved (e ∷ es) = is_selected saved e || any_selected saved es

-- What the loop selects is the row of an image that was selected.
restore_loop-selected :
    (saved : ImageSelection) (es : List ImageInfo) (rows : List ℕ) (fallback : ℕ)
    → length rows ≡ length es
    → any_selected saved es ≡ true
    → (i : ℕ) × (e : ImageInfo) × (get_elem? rows i ≡ some (restore_loop saved es rows fallback))
      × (get_elem? es i ≡ some e)
      × (is_selected saved e ≡ true)
unfolding restore_loop
restore_loop-selected saved [] rows fallback l h = cc
restore_loop-selected saved (e ∷ es) [] fallback l h = absurd (omega arith)
restore_loop-selected saved (e ∷ es) (row ∷ rows) fallback l h =
    elim (Bool-cases (is_selected saved e)) [
      | inl hit ↦ (0, e, rw hit refl, refl, hit)
      | inr miss ↦
          let (i, e', at, there, chosen) =
            restore_loop-selected saved es rows fallback (omega arith) (rw miss at h) in
          (suc i, e', rw miss at, there, chosen)
    ]

restore_in-selected :
    (saved : ImageSelection) (es : List ImageInfo) (rows : List ℕ)
    → length rows ≡ length es
    → any_selected saved es ≡ true
    → (row : ℕ) × (i : ℕ) × (e : ImageInfo) × (restore_in saved es rows ≡ some row)
      × (get_elem? rows i ≡ some row)
      × (get_elem? es i ≡ some e)
      × (is_selected saved e ≡ true)
restore_in-selected saved [] rows l h = cc
restore_in-selected saved (e ∷ es) [] l h = absurd (omega arith)
restore_in-selected saved (e ∷ es) (row ∷ rows) l h =
    let (i, e', at, there, chosen) = restore_loop-selected saved (e ∷ es) (row ∷ rows) row l h in
    (restore_loop saved (e ∷ es) (row ∷ rows) row, i, e', refl, at, there, chosen)

-- restoreSelection after a new rendering selects the row of an image that the saved selection means,
-- by its digest or, where that is empty, by a name, if there is such an image: entryForTableRow of the
-- row is that image.
pub restore_selection-selected :
    (format_size : ℤ → Text) (format_time : ℕ → Text) (saved : ImageSelection)
    (entries : List ImageInfo)
    → any_selected saved entries ≡ true
    → (row : ℕ) × (e : ImageInfo) × (restore_selection saved
          (render_flat format_size format_time entries)
          entries
        ≡ some row)
      × (entry_for_table_row (render_flat format_size format_time entries) entries row ≡ some e)
      × (is_selected saved e ≡ true)
unfolding restore_selection
restore_selection-selected format_size format_time saved entries h =
    let v = render_flat format_size format_time entries in
    let (row, i, e, restored, at, there, chosen) =
      restore_in-selected saved entries v.entry_primary_row
        (unfold render_flat in length-primary format_size format_time 0 1 entries) h in
    (
      row,
      e,
      restored,
      entry_for_table_row-primary format_size format_time entries i row at ∙ there,
      chosen,
    )
