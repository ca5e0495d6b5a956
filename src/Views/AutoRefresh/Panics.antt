-- ===== src/Views/AutoRefresh/Panics.antt =====
-- What refreshStop holds, and how many goroutines there are.
use mathlib.Core.Bool.{false≢true}
use c_ray.Prelude.{
  All, Bool, Bool-cases, List, Option, [], ap, arith, false, inl, inr, none, refl, some, subst, sym,
  true, ℕ, ◌+◌, ◌<◌, ◌∙◌, ◌∷◌, ◌≡◌, ◌≢◌,
}
use c_ray.Views.AutoRefresh.{
  RefreshRun, RefreshStep, Refresher, and_step, call_start, call_stop, cancel_context, close_stop,
  end_refresh, enter_select, is_closed, new_refresher, no_step, run_deferred, see_done, see_stop,
  start_auto_refresh, start_unless, stop_auto_refresh, stop_if, take_tick,
}

-- The channel that refreshStop holds was made, and nobody has closed it.
abbrev IsOpen : ℕ → List ℕ → Option ℕ → Type 0
IsOpen next closed none = Unit
IsOpen next closed (some c) = (c < next) × (is_closed c closed ≡ false)

abbrev IsMade : Refresher → Type 0
IsMade v = All (λ c. c < v.next_channel) v.closed × IsOpen v.next_channel v.closed v.refresh_stop

is_closed-fresh : (n : ℕ) (ds : List ℕ) → All (λ c. c < n) ds → is_closed n ds ≡ false
is_closed-fresh n [] h = refl
is_closed-fresh n (d ∷ ds) (below, h) = ground (arith, is_closed-fresh n ds h)

All-next : (n : ℕ) (ds : List ℕ) → All (λ c. c < n) ds → All (λ c. c < n + 1) ds
All-next n [] h = tt
All-next n (d ∷ ds) (below, h) = (omega arith, All-next n ds h)

start_unless-IsMade : (b : Bool) (v : Refresher) → IsMade v → IsMade (start_unless b v)
start_unless-IsMade true v h = h
start_unless-IsMade false v (below, fresh) = (
  All-next v.next_channel v.closed below,
  (omega arith, is_closed-fresh v.next_channel v.closed below),
)

some-injective : {A : Type 0} {x y : A} → some x ≡ some y → x ≡ y
some-injective h = cc

close_stop-some :
    (o : Option ℕ) (v : Refresher)
    → IsOpen v.next_channel v.closed o
    → All (λ c. c < v.next_channel) v.closed
    → v.refresh_stop ≡ o
    → (w : Refresher) × (close_stop o v ≡ some w) × IsMade w
close_stop-some none v fresh below e =
    (v, refl, (below, subst (IsOpen v.next_channel v.closed) (sym e) tt))
close_stop-some (some c) v (made, fresh) below e = (
  record v { refresh_running = false; refresh_stop = none; closed = c ∷ v.closed },
  rw fresh refl,
  ((made, below), tt),
)

stop_if-some :
    (b : Bool) (v : Refresher) → IsMade v → (w : Refresher) × (stop_if b v ≡ some w) × IsMade w
stop_if-some true v (below, fresh) = close_stop-some v.refresh_stop v fresh below refl
stop_if-some false v h = (v, refl, h)

step-IsMade : (v w : Refresher) → RefreshStep v w → IsMade v → IsMade w
unfolding start_auto_refresh stop_auto_refresh
step-IsMade v w call_start h = start_unless-IsMade v.refresh_running v h
step-IsMade v w (call_stop e) h =
    let (u, e', h') = stop_if-some v.refresh_running v h in
    subst IsMade (some-injective (sym e' ∙ e)) h'
step-IsMade v w cancel_context h = h
step-IsMade v w (enter_select ws rest e) h = h
step-IsMade v w (take_tick c ws rest e) h = h
step-IsMade v w (end_refresh ws rest e) h = h
step-IsMade v w (see_stop c ws rest e closed) h = h
step-IsMade v w (see_done c ws rest e is_done) h = h
step-IsMade v w (run_deferred ws rest e) h = h

run-IsMade : (v w : Refresher) → RefreshRun v w → IsMade v → IsMade w
run-IsMade v w no_step h = h
run-IsMade v w (and_step {w = u} r s) h = step-IsMade u w s (run-IsMade v u r h)

none≢some : {A : Type 0} {x : A} → none ≢ some x
none≢some h = cc

is_closed-head : (c : ℕ) (ds : List ℕ) → is_closed c (c ∷ ds) ≡ true
is_closed-head c ds = ground arith

close_stop-is_closed :
    (c : ℕ) (v w : Refresher) → close_stop (some c) v ≡ some w → is_closed c w.closed ≡ true
close_stop-is_closed c v w e = elim (Bool-cases (is_closed c v.closed)) [
  | inl h ↦ absurd (none≢some (sym (rw h refl) ∙ e))
  | inr h ↦
      let closed : some
            (record v { refresh_running = false; refresh_stop = none; closed = c ∷ v.closed })
          ≡ some w =
        rw h at e in
      subst (λ u. is_closed c u.closed ≡ true) (some-injective closed) (is_closed-head c v.closed)
]

stop_if-is_closed :
    (b : Bool) (o : Option ℕ) (c : ℕ) (v w : Refresher)
    → b ≡ true
    → v.refresh_stop ≡ o
    → o ≡ some c
    → stop_if b v ≡ some w
    → is_closed c w.closed ≡ true
stop_if-is_closed false o c v w h stop held e = absurd (false≢true h)
stop_if-is_closed true o c v w h stop held e =
    close_stop-is_closed c v w (ap (λ x. close_stop x v) (sym (stop ∙ held)) ∙ e)

-- StopAutoRefresh never closes a channel twice: in whatever order it, StartAutoRefresh and the
-- goroutines run, it does not panic, and while the refresh runs it closes the channel that refreshStop
-- holds, so that the goroutines that wait on that channel can return.
pub stop_auto_refresh-some :
    (v : Refresher)
    → RefreshRun new_refresher v
    → (w : Refresher) × (stop_auto_refresh v ≡ some w)
      × ((c : ℕ) → v.refresh_running ≡ true → v.refresh_stop ≡ some c → is_closed c w.closed ≡ true)
unfolding stop_auto_refresh
stop_auto_refresh-some v r =
    let (w, e, h) = stop_if-some v.refresh_running v (run-IsMade new_refresher v r (tt, tt)) in
    (
      w,
      e,
      λ c running held.
          stop_if-is_closed v.refresh_running v.refresh_stop c v w running refl held e,
    )
