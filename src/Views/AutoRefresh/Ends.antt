-- ===== src/Views/AutoRefresh/Ends.antt =====
-- How the goroutines end once the context is done.
use c_ray.Prelude.{List, Option, [], refl, true, ℕ, ◌∷◌, ◌≡◌}
use c_ray.Views.AutoRefresh.{
  RefreshRun, RefreshStep, Refresher, Worker, and_step, at_select, end_refresh, enter_select, leave,
  no_step, refreshing, returning, run_deferred, see_done, waiting,
}
use c_ray.Views.Merged.Fate.{step}

run-append : {v w u : Refresher} → RefreshRun v w → RefreshRun w u → RefreshRun v u
run-append r no_step = r
run-append r (and_step s step) = and_step (run-append r s) step

-- A run after which the first goroutine is gone.
abbrev Leaves : Refresher → List Worker → Type 0
Leaves v rest = (w : Refresher) × RefreshRun v w × (w.workers ≡ rest) × (w.is_done ≡ true)

after : {v u : Refresher} (rest : List Worker) → RefreshStep v u → Leaves u rest → Leaves v rest
after rest step (w, r, e, d) = (w, run-append (and_step no_step step) r, e, d)

module _ (rest : List Worker) where
  returning_leaves :
      (v : Refresher) → v.is_done ≡ true → v.workers ≡ returning ∷ rest → Leaves v rest
  returning_leaves v d e = (leave v rest, and_step no_step (run_deferred [] rest e), refl, d)

  waiting_leaves :
      (v : Refresher) (c : Option ℕ)
      → v.is_done ≡ true
      → v.workers ≡ waiting c ∷ rest
      → Leaves v rest
  waiting_leaves v c d e =
      after rest (see_done c [] rest e d)
        (returning_leaves (record v { workers = returning ∷ rest }) d refl)

  at_select_leaves :
      (v : Refresher) → v.is_done ≡ true → v.workers ≡ at_select ∷ rest → Leaves v rest
  at_select_leaves v d e =
      after rest (enter_select [] rest e) (
        waiting_leaves (record v { workers = waiting v.refresh_stop ∷ rest }) v.refresh_stop d refl)

  refreshing_leaves :
      (v : Refresher) → v.is_done ≡ true → v.workers ≡ refreshing ∷ rest → Leaves v rest
  refreshing_leaves v d e =
      after rest (end_refresh [] rest e)
        (at_select_leaves (record v { workers = at_select ∷ rest }) d refl)

  leaves : (v : Refresher) (x : Worker) → v.is_done ≡ true → v.workers ≡ x ∷ rest → Leaves v rest
  leaves v returning = returning_leaves v
  leaves v (waiting c) = waiting_leaves v c
  leaves v at_select = at_select_leaves v
  leaves v refreshing = refreshing_leaves v

all_leave :
    (ws : List Worker) (v : Refresher)
    → v.is_done ≡ true
    → v.workers ≡ ws
    → (w : Refresher) × RefreshRun v w × (w.workers ≡ [])
all_leave [] v d e = (v, no_step, e)
all_leave (x ∷ ws) v d e =
    let (u, r, e', d') = leaves ws v x d e in
    let (w, r', none_left) = all_leave ws u d' e' in (w, run-append r r', none_left)

-- Once the context is done, every goroutine can end, wherever it stands and whatever StartAutoRefresh
-- and StopAutoRefresh did: from every such state there is a run to one in which no goroutine is left.
pub is_done-all_leave :
    (v : Refresher) → v.is_done ≡ true → (w : Refresher) × RefreshRun v w × (w.workers ≡ [])
is_done-all_leave v d = all_leave v.workers v d refl
