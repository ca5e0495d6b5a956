-- ===== src/Views/AutoRefresh/Stops.antt =====
-- Which goroutines end.
use mathlib.Core.Bool.{false≢true}
use c_ray.Prelude.{
  Any, Bool, List, [], ap, false, inl, inr, none, some, subst, sym, true, ◌++◌, ◌∙◌, ◌∷◌, ◌≡◌,
}
use c_ray.Views.AutoRefresh.{
  RefreshRun, RefreshStep, Refresher, Worker, and_step, at_select, call_start, call_stop,
  cancel_context, close_stop, end_refresh, enter_select, no_step, refreshing, returning,
  run_deferred, see_done, see_stop, stop_auto_refresh, stop_if, take_tick, waiting,
}

module _ (P : Worker → Type 0) where
  Any-replace :
      (x y : Worker) (ws rest : List Worker)
      → (P x → P y)
      → Any P (ws ++ x ∷ rest)
      → Any P (ws ++ y ∷ rest)
  Any-replace x y [] rest f (inl h) = inl (f h)
  Any-replace x y [] rest f (inr h) = inr h
  Any-replace x y (w ∷ ws) rest f (inl h) = inl h
  Any-replace x y (w ∷ ws) rest f (inr h) = inr (Any-replace x y ws rest f h)

  Any-remove :
      (x : Worker) (ws rest : List Worker) → ¬ P x → Any P (ws ++ x ∷ rest) → Any P (ws ++ rest)
  Any-remove x [] rest f (inl h) = absurd (f h)
  Any-remove x [] rest f (inr h) = h
  Any-remove x (w ∷ ws) rest f (inl h) = inl h
  Any-remove x (w ∷ ws) rest f (inr h) = inr (Any-remove x ws rest f h)

-- A goroutine that no closed channel reaches while refreshStop is nil.
abbrev pub IsMissed : Worker → Type 0
IsMissed at_select = Unit
IsMissed refreshing = Unit
IsMissed (waiting none) = Unit
IsMissed (waiting (some c)) = ⊥
IsMissed returning = ⊥

-- A step that is no call of StartAutoRefresh, and not the end of the context.
abbrev pub IsQuietStep : {v w : Refresher} → RefreshStep v w → Type 0
IsQuietStep call_start = ⊥
IsQuietStep cancel_context = ⊥
IsQuietStep _ = Unit

abbrev pub IsQuiet : {v w : Refresher} → RefreshRun v w → Type 0
IsQuiet no_step = Unit
IsQuiet (and_step r s) = IsQuiet r × IsQuietStep s

abbrev pub IsUnstopped : Refresher → Type 0
IsUnstopped v = (v.refresh_stop ≡ none) × (v.is_done ≡ false) × Any IsMissed v.workers

some-injective : {A : Type 0} {x y : A} → some x ≡ some y → x ≡ y
some-injective h = cc

stop_if-none : (b : Bool) (v w : Refresher) → v.refresh_stop ≡ none → stop_if b v ≡ some w → v ≡ w
stop_if-none true v w e h = some-injective (sym (ap (λ o. close_stop o v) e) ∙ h)
stop_if-none false v w e h = some-injective h

step-IsUnstopped :
    (v w : Refresher) (s : RefreshStep v w) → IsQuietStep s → IsUnstopped v → IsUnstopped w
unfolding stop_auto_refresh
step-IsUnstopped v w call_start q h = absurd q
step-IsUnstopped v w (call_stop e) q (none_left, going, h) =
    subst IsUnstopped (stop_if-none v.refresh_running v w none_left e) (none_left, going, h)
step-IsUnstopped v w cancel_context q h = absurd q
step-IsUnstopped v w (enter_select ws rest e) q (none_left, going, h) = (
  none_left,
  going,
  Any-replace IsMissed at_select (waiting v.refresh_stop) ws rest
      (λ _. subst (λ o. IsMissed (waiting o)) (sym none_left) tt) (subst (Any IsMissed) e h),
)
step-IsUnstopped v w (take_tick c ws rest e) q (none_left, going, h) = (
  none_left,
  going,
  Any-replace IsMissed (waiting c) refreshing ws rest (λ _. tt) (subst (Any IsMissed) e h),
)
step-IsUnstopped v w (end_refresh ws rest e) q (none_left, going, h) = (
  none_left,
  going,
  Any-replace IsMissed refreshing at_select ws rest (λ _. tt) (subst (Any IsMissed) e h),
)
step-IsUnstopped v w (see_stop c ws rest e closed) q (none_left, going, h) = (
  none_left,
  going,
  Any-replace IsMissed (waiting (some c)) returning ws rest (λ x. x) (subst (Any IsMissed) e h),
)
step-IsUnstopped v w (see_done c ws rest e ended) q (none_left, going, h) =
    absurd (false≢true (sym going ∙ ended))
step-IsUnstopped v w (run_deferred ws rest e) q (none_left, going, h) =
    (none_left, going, Any-remove IsMissed returning ws rest (λ x. x) (subst (Any IsMissed) e h))

-- A goroutine that StopAutoRefresh misses is not stopped. When refreshStop is nil, as StopAutoRefresh
-- leaves it, a goroutine that is in Refresh or just before its select lives on in every later state, as
-- long as the context is not done and nobody calls StartAutoRefresh, however often StopAutoRefresh is
-- called.
pub run-IsUnstopped :
    (v w : Refresher) (r : RefreshRun v w) → IsQuiet r → IsUnstopped v → IsUnstopped w
run-IsUnstopped v w no_step q h = h
run-IsUnstopped v w (and_step {w = u} r s) (q, qs) h =
    step-IsUnstopped u w s qs (run-IsUnstopped v u r q h)
