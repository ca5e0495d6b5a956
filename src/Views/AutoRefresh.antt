-- ===== src/Views/AutoRefresh.antt =====
-- The periodic refresh of pkg/ui/views/top_view.go: the goroutines that StartAutoRefresh starts, and
-- what StopAutoRefresh does about them. The mutex makes each of the two methods one step. A select
-- evaluates `v.refreshStop` when it is entered and then waits on that channel.
pub mod Ends
pub mod Panics
pub mod Single
pub mod Stops
use c_ray.Prelude.{
  Bool, List, Option, [], false, if◌then◌else◌, none, some, true, ℕ, ◌++◌, ◌+◌, ◌==◌, ◌||◌, ◌∷◌,
  ◌≡◌,
}

-- Where a goroutine stands: before the select, in it with the channel that it waits on, nil or not, in
-- Refresh, or behind a return, where refreshRunning is still to be reset.
pub data Worker : Type 0 where
  at_select : Worker
  waiting : Option ℕ → Worker
  refreshing returning : Worker

-- The fields of TopView with the channels, which are numbered, the goroutines, and whether the context
-- is done.
pub record Refresher : Type 0 where
  pub refresh_running : Bool
  pub refresh_stop : Option ℕ
  pub next_channel : ℕ
  pub closed : List ℕ
  pub workers : List Worker
  pub is_done : Bool

abbrev pub is_closed : ℕ → List ℕ → Bool
is_closed c [] = false
is_closed c (d ∷ ds) = d == c || is_closed c ds

-- What StartAutoRefresh does, with refreshRunning.
abbrev pub start_unless : Bool → Refresher → Refresher
start_unless true v = v
start_unless false v = record v {
  refresh_running = true;
  refresh_stop = some v.next_channel;
  next_channel = v.next_channel + 1;
  workers = v.workers ++ at_select ∷ [];
}

-- StartAutoRefresh.
unfoldable pub start_auto_refresh : Refresher → Refresher
start_auto_refresh v = start_unless v.refresh_running v

-- close(v.refreshStop) and the resets; closing a closed channel panics.
abbrev pub close_stop : Option ℕ → Refresher → Option Refresher
close_stop none v = some v
close_stop (some c) v =
    if is_closed c v.closed
    then none
    else some (record v { refresh_running = false; refresh_stop = none; closed = c ∷ v.closed })

abbrev pub stop_if : Bool → Refresher → Option Refresher
stop_if true v = close_stop v.refresh_stop v
stop_if false v = some v

-- StopAutoRefresh; none is a panic.
unfoldable pub stop_auto_refresh : Refresher → Option Refresher
stop_auto_refresh v = stop_if v.refresh_running v

-- The first deferred call of the goroutine: it resets refreshRunning and is gone.
abbrev pub leave : Refresher → List Worker → Refresher
leave v rest = record v { refresh_running = false; workers = rest }

-- No refresh was ever started.
abbrev pub new_refresher : Refresher
new_refresher = record {
  refresh_running = false;
  refresh_stop = none;
  next_channel = 0;
  closed = [];
  workers = [];
  is_done = false;
}

-- What can happen: the methods are called, the context is done, or a goroutine goes on.
pub data RefreshStep (v : Refresher) : Refresher → Type 0 where
  call_start : RefreshStep v (start_auto_refresh v)
  call_stop : {w : Refresher} → stop_auto_refresh v ≡ some w → RefreshStep v w
  cancel_context : RefreshStep v (record v { is_done = true })
  enter_select :
      (ws rest : List Worker)
      → v.workers ≡ ws ++ at_select ∷ rest
      → RefreshStep v (record v { workers = ws ++ waiting v.refresh_stop ∷ rest })
  take_tick :
      (c : Option ℕ) (ws rest : List Worker)
      → v.workers ≡ ws ++ waiting c ∷ rest
      → RefreshStep v (record v { workers = ws ++ refreshing ∷ rest })
  end_refresh :
      (ws rest : List Worker)
      → v.workers ≡ ws ++ refreshing ∷ rest
      → RefreshStep v (record v { workers = ws ++ at_select ∷ rest })
  see_stop :
      (c : ℕ) (ws rest : List Worker)
      → v.workers ≡ ws ++ waiting (some c) ∷ rest
      → is_closed c v.closed ≡ true
      → RefreshStep v (record v { workers = ws ++ returning ∷ rest })
  see_done :
      (c : Option ℕ) (ws rest : List Worker)
      → v.workers ≡ ws ++ waiting c ∷ rest
      → v.is_done ≡ true
      → RefreshStep v (record v { workers = ws ++ returning ∷ rest })
  run_deferred :
      (ws rest : List Worker)
      → v.workers ≡ ws ++ returning ∷ rest
      → RefreshStep v (leave v (ws ++ rest))

pub data RefreshRun (v : Refresher) : Refresher → Type 0 where
  no_step : RefreshRun v v
  and_step : {w u : Refresher} → RefreshRun v w → RefreshStep w u → RefreshRun v u
