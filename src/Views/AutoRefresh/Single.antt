-- ===== src/Views/AutoRefresh/Single.antt =====
-- How many goroutines there are as long as nobody stops them.
use c_ray.Prelude.{
  Bool, List, [], ap, arith, false, length, length-append, refl, sym, true, ℕ, ◌++◌, ◌∙◌, ◌∷◌, ◌≡◌,
  ◌≤◌,
}
use c_ray.Views.AutoRefresh.{
  RefreshRun, RefreshStep, Refresher, Worker, and_step, at_select, call_start, call_stop,
  cancel_context, end_refresh, enter_select, new_refresher, no_step, run_deferred, see_done,
  see_stop, start_auto_refresh, start_unless, take_tick,
}

abbrev IsNoStop : {v w : Refresher} → RefreshStep v w → Type 0
IsNoStop (call_stop e) = ⊥
IsNoStop _ = Unit

-- A run without a call of StopAutoRefresh.
abbrev pub HasNoStop : {v w : Refresher} → RefreshRun v w → Type 0
HasNoStop no_step = Unit
HasNoStop (and_step r s) = HasNoStop r × IsNoStop s

abbrev pub count_of_running : Bool → ℕ
count_of_running true = 1
count_of_running false = 0

abbrev IsCounted : Refresher → Type 0
IsCounted v = length v.workers ≡ count_of_running v.refresh_running

start_unless-IsCounted :
    (b : Bool) (v : Refresher) → v.refresh_running ≡ b → IsCounted v → IsCounted (start_unless b v)
start_unless-IsCounted true v e h = h
start_unless-IsCounted false v e h =
    length-append v.workers (at_select ∷ []) ∙ omega (arith, h ∙ ap count_of_running e)

length-replace :
    (x y : Worker) (ws rest : List Worker) → length (ws ++ y ∷ rest) ≡ length (ws ++ x ∷ rest)
length-replace x y ws rest = length-append ws (y ∷ rest) ∙ sym (length-append ws (x ∷ rest))

replaced :
    (x y : Worker) (all ws rest : List Worker) (b : Bool)
    → all ≡ ws ++ x ∷ rest
    → length all ≡ count_of_running b
    → length (ws ++ y ∷ rest) ≡ count_of_running b
replaced x y all ws rest b e h = length-replace x y ws rest ∙ ap length (sym e) ∙ h

count_of_running_bound : (b : Bool) → count_of_running b ≤ 1
count_of_running_bound true = omega arith
count_of_running_bound false = omega arith

removed :
    (x : Worker) (all ws rest : List Worker) (b : Bool)
    → all ≡ ws ++ x ∷ rest
    → length all ≡ count_of_running b
    → length (ws ++ rest) ≡ 0
removed x all ws rest b e h = omega (
  arith,
  length-append ws rest,
  length-append ws (x ∷ rest),
  ap length e,
  h,
  count_of_running_bound b,
)

step-IsCounted : (v w : Refresher) (s : RefreshStep v w) → IsNoStop s → IsCounted v → IsCounted w
unfolding start_auto_refresh
step-IsCounted v w call_start n h = start_unless-IsCounted v.refresh_running v refl h
step-IsCounted v w (call_stop e) n h = absurd n
step-IsCounted v w cancel_context n h = h
step-IsCounted v w (enter_select ws rest e) n h = replaced _ _ _ ws rest _ e h
step-IsCounted v w (take_tick c ws rest e) n h = replaced _ _ _ ws rest _ e h
step-IsCounted v w (end_refresh ws rest e) n h = replaced _ _ _ ws rest _ e h
step-IsCounted v w (see_stop c ws rest e closed) n h = replaced _ _ _ ws rest _ e h
step-IsCounted v w (see_done c ws rest e ended) n h = replaced _ _ _ ws rest _ e h
step-IsCounted v w (run_deferred ws rest e) n h = removed _ _ ws rest _ e h

run-IsCounted : (v w : Refresher) (r : RefreshRun v w) → HasNoStop r → IsCounted v → IsCounted w
run-IsCounted v w no_step n h = h
run-IsCounted v w (and_step {w = u} r s) (n, ns) h =
    step-IsCounted u w s ns (run-IsCounted v u r n h)

-- As long as StopAutoRefresh is not called, there is one goroutine while refreshRunning is set and none
-- otherwise, however often StartAutoRefresh is called and whenever the context ends.
pub new_refresher-single :
    (v : Refresher) (r : RefreshRun new_refresher v)
    → HasNoStop r
    → length v.workers ≡ count_of_running v.refresh_running
new_refresher-single v r n = run-IsCounted new_refresher v r n refl
