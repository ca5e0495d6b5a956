-- ===== src/Tests/Refresh.antt =====
-- Runs of the top view and of its periodic refresh.
use c_ray.Prelude.{[], false, inl, length, map, none, refl, some, true, ℕ, ◌∷◌, ◌≡◌}
use c_ray.Prelude.Int.{pos, ℤ}
use c_ray.Tests.Words.{nat_float}
use c_ray.Views.AutoRefresh.{
  RefreshRun, Refresher, and_step, at_select, call_start, call_stop, end_refresh, enter_select,
  is_closed, new_refresher, no_step, refreshing, start_auto_refresh, stop_auto_refresh, take_tick,
  waiting,
}
use c_ray.Views.AutoRefresh.Ends.{is_done-all_leave}
use c_ray.Views.AutoRefresh.Panics.{stop_auto_refresh-some}
use c_ray.Views.AutoRefresh.Single.{HasNoStop, count_of_running, new_refresher-single}
use c_ray.Views.AutoRefresh.Stops.{IsUnstopped, run-IsUnstopped}
use c_ray.Views.Top.{
  ProcessRow, ProcessStats, TopView, by_cpu, by_mem, more_stats, no_stats, process_stats,
  shown_rows,
}

-- A goroutine was started and is in Refresh when the refresh is stopped.
abbrev missed : Refresher
missed = record {
  refresh_running = false;
  refresh_stop = none;
  next_channel = 1;
  closed = 0 ∷ [];
  workers = refreshing ∷ [];
  is_done = false;
}

missed_run : RefreshRun new_refresher missed
unfolding start_auto_refresh stop_auto_refresh
missed_run =
    and_step
      (and_step (and_step (and_step no_step call_start) (enter_select [] [] refl))
        (take_tick (some 0) [] [] refl))
      (call_stop refl)

-- It enters the select again, which waits on nil.
abbrev lost : Refresher
lost = record missed { workers = waiting none ∷ [] }

abbrev lost_run : RefreshRun missed lost
lost_run = and_step (and_step no_step (end_refresh [] [] refl)) (enter_select [] [] refl)

run-IsUnstopped_example : IsUnstopped lost
run-IsUnstopped_example = run-IsUnstopped missed lost lost_run ((tt, tt), tt) (refl, refl, inl tt)

abbrev ended : Refresher
ended = record lost { is_done = true }

is_done-all_leave_example : (w : Refresher) × RefreshRun ended w × (w.workers ≡ [])
is_done-all_leave_example = is_done-all_leave ended refl

abbrev started : Refresher
started = record {
  refresh_running = true;
  refresh_stop = some 0;
  next_channel = 1;
  closed = [];
  workers = at_select ∷ [];
  is_done = false;
}

-- StartAutoRefresh is called twice.
started_run : RefreshRun new_refresher started
unfolding start_auto_refresh
started_run = and_step (and_step no_step call_start) call_start

stop_auto_refresh-some_example :
    (w : Refresher) × (stop_auto_refresh started ≡ some w)
    × ((c : ℕ)
        → started.refresh_running ≡ true
        → started.refresh_stop ≡ some c
        → is_closed c w.closed ≡ true)
stop_auto_refresh-some_example = stop_auto_refresh-some started started_run

started_run-HasNoStop : HasNoStop started_run
unfolding started_run
started_run-HasNoStop = ((tt, tt), tt)

new_refresher-single_example : length started.workers ≡ count_of_running started.refresh_running
new_refresher-single_example = new_refresher-single started started_run started_run-HasNoStop

abbrev row : ℤ → ℕ → ProcessRow ℕ
row pid cpu = record {
  pid = pid;
  ppid = pos 0;
  command = [];
  args = [];
  state = [];
  cpu_percent = cpu;
  memory_percent = 0;
  memory_rss = 0;
  read_bytes = 0;
  write_bytes = 0;
  read_bytes_per_sec = 0;
  write_bytes_per_sec = 0;
}

abbrev two_processes : ProcessStats ℕ
two_processes =
    process_stats (row (pos 1) 3) (more_stats (process_stats (row (pos 7) 9) no_stats) no_stats)

abbrev loaded_view : TopView ℕ
loaded_view = record {
  container = some 0;
  flat_procs = row (pos 1) 3 ∷ row (pos 7) 9 ∷ [];
  sort_field = by_mem;
  proc_count = 2;
}

-- By CPU, the busiest process comes first.
shown_rows_test :
    map
      (λ (p : ProcessRow ℕ). p.pid)
      (shown_rows nat_float (record loaded_view { sort_field = by_cpu }))
    ≡ pos 7 ∷ pos 1 ∷ []
unfolding shown_rows
shown_rows_test = refl
