-- ===== src/Runtime/Cri/Merge/Sorted.antt =====
-- The rows are sorted, and sorting only reorders them.
use c_ray.Prelude.{
  Any, Bool-cases, List, [], arith, false, inl, inr, length, refl, suc, true, ◌∷◌, ◌≡◌, ◌⊎◌,
}
use c_ray.Runtime.Cri.{RuntimeMount}
use c_ray.Runtime.Cri.Merge.{insert_row, mount_less, sort_rows}
use c_ray.Text.Basic.{text_eq_iff}
use c_ray.Text.Order.{text_ltb-asymmetric}

pub mount_less-asymmetric : (a b : RuntimeMount) → mount_less a b ≡ true → mount_less b a ≡ false
unfolding mount_less
mount_less-asymmetric a b h = ground (
  arith,
  text_eq_iff a.destination b.destination,
  text_eq_iff b.destination a.destination,
  text_eq_iff a.source b.source,
  text_eq_iff b.source a.source,
  text_ltb-asymmetric a.destination b.destination,
  text_ltb-asymmetric a.source b.source,
  text_ltb-asymmetric a.fs_type b.fs_type,
)

-- No row is less than the one before it.
abbrev pub IsSorted : List RuntimeMount → Type 0
IsSorted [] = Unit
IsSorted (m ∷ []) = Unit
IsSorted (m ∷ n ∷ ms) = (mount_less n m ≡ false) × IsSorted (n ∷ ms)

insert_row-IsSorted :
    (m : RuntimeMount) (ns : List RuntimeMount) → IsSorted ns → IsSorted (insert_row m ns)
unfolding insert_row
insert_row-IsSorted m [] h = tt
insert_row-IsSorted m (n ∷ []) h = ground (arith, mount_less-asymmetric n m)
insert_row-IsSorted m (n ∷ k ∷ ns) (first, h) =
    ground (arith, mount_less-asymmetric n m, insert_row-IsSorted m (k ∷ ns))

pub sort_rows-IsSorted : (ms : List RuntimeMount) → IsSorted (sort_rows ms)
unfolding sort_rows
sort_rows-IsSorted [] = tt
sort_rows-IsSorted (m ∷ ms) = insert_row-IsSorted m (sort_rows ms) (sort_rows-IsSorted ms)

module _ (P : RuntimeMount → Type 0) where
  -- What holds of some row holds of some sorted row.
  Any-insert_row :
      (m : RuntimeMount) (ns : List RuntimeMount) → P m ⊎ Any P ns → Any P (insert_row m ns)
  unfolding insert_row
  Any-insert_row m [] h = h
  Any-insert_row m (n ∷ ns) h = elim (Bool-cases (mount_less n m)) [
    | inl less ↦
        rw (less, insert_row)
          (elim h [
            | inl here ↦ inr (Any-insert_row m ns (inl here))
            | inr there ↦ elim there [
              | inl at ↦ inl at
              | inr later ↦ inr (Any-insert_row m ns (inr later))
            ]
          ])
    | inr ahead ↦ rw (ahead, insert_row) h
  ]

  pub Any-sort_rows : (ms : List RuntimeMount) → Any P ms → Any P (sort_rows ms)
  unfolding sort_rows
  Any-sort_rows (m ∷ ms) (inl here) = Any-insert_row m (sort_rows ms) (inl here)
  Any-sort_rows (m ∷ ms) (inr there) =
      Any-insert_row m (sort_rows ms) (inr (Any-sort_rows ms there))
  Any-sort_rows [] nobody = nobody

length-insert_row :
    (m : RuntimeMount) (ns : List RuntimeMount) → length (insert_row m ns) ≡ suc (length ns)
unfolding insert_row
length-insert_row m [] = refl
length-insert_row m (n ∷ ns) = ground (arith, length-insert_row m ns)

pub length-sort_rows : (ms : List RuntimeMount) → length (sort_rows ms) ≡ length ms
unfolding sort_rows
length-sort_rows [] = refl
length-sort_rows (m ∷ ms) = omega (arith, length-insert_row m (sort_rows ms), length-sort_rows ms)
