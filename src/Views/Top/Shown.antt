-- ===== src/Views/Top/Shown.antt =====
-- What the top view shows after any sequence of its operations.
use c_ray.Float.{Float}
use c_ray.Prelude.{List, Option, [], false, none, some, true, ℕ, ◌≡◌}
use c_ray.Views.Top.{
  ProcessRow, ProcessStats, SortField, TopView, by_cpu, field_of_rune, flatten_stats, handle_rune,
  new_top_view, refresh_top, set_container,
}

-- One call of an operation.
pub data TopStep {V : Type 0} (v : TopView V) : TopView V → Type 0 where
  take_container : (c : Option ℕ) → TopStep v (set_container c v)
  take_stats : (stats : Option (Option (ProcessStats V))) → TopStep v (refresh_top stats v)
  take_rune : (c : ℕ) → TopStep v (handle_rune c v).0

pub data TopRun {V : Type 0} (v : TopView V) : TopView V → Type 0 where
  no_call : TopRun v v
  and_call : {w u : TopView V} → TopRun v w → TopStep w u → TopRun v u

-- What the last refresh reported, if it was for the container that is shown.
abbrev pub rows_of : {V : Type 0} → Option (Option (ProcessStats V)) → List (ProcessRow V)
rows_of none = []
rows_of (some stats) = flatten_stats stats

abbrev pub rows_unless :
    {V : Type 0} → Option ℕ → List (ProcessRow V) → List (ProcessRow V) → List (ProcessRow V)
rows_unless none before rows = before
rows_unless (some c) before rows = rows

abbrev pub reported : {V : Type 0} {v : TopView V} → TopRun new_top_view v → List (ProcessRow V)
reported no_call = []
reported (and_call r (take_container c)) = []
reported (and_call {w = w} r (take_stats stats)) =
    rows_unless w.container (reported r) (rows_of stats)
reported (and_call r (take_rune c)) = reported r

abbrev pub field_or : SortField → Option SortField → SortField
field_or before none = before
field_or before (some field) = field

-- The field of the last key that names one, by CPU at first.
abbrev pub chosen : {V : Type 0} {v : TopView V} → TopRun new_top_view v → SortField
chosen no_call = by_cpu
chosen (and_call r (take_container c)) = chosen r
chosen (and_call r (take_stats stats)) = chosen r
chosen (and_call r (take_rune c)) = field_or (chosen r) (field_of_rune c)

module _ (F : Float) where
  abbrev pub GtAsymmetric : Type 0
  GtAsymmetric = (a b : F.Value) → F.gt a b ≡ true → F.gt b a ≡ false
