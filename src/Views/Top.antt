-- ===== src/Views/Top.antt =====
-- The processes of the top view, of pkg/ui/views/top_view.go. The bar with the network is left out. A
-- Refresh is one step here; in the program SetContainer can be called while it waits for its container.
pub mod Shown
use c_ray.Float.{Float}
use c_ray.Prelude.{
  Bool, List, Option, [], false, if◌then◌else◌, length, none, some, true, ℕ, ◌++◌, ◌==◌, ◌||◌, ◌∷◌,
}
use c_ray.Prelude.Int.{int_ltb, ℤ}
use c_ray.Sorting.{sort_by}
use c_ray.Text.Basic.{Text}

-- runtime.ProcessStats without its children, with what the view reads.
pub record ProcessRow (V : Type 0) : Type 0 where
  pub pid : ℤ
  pub ppid : ℤ
  pub command : Text
  pub args : List Text
  pub state : Text
  pub cpu_percent : V
  pub memory_percent : V
  pub memory_rss : ℕ
  pub read_bytes : ℕ
  pub write_bytes : ℕ
  pub read_bytes_per_sec : V
  pub write_bytes_per_sec : V

mutual
  -- runtime.ProcessStats.
  pub data ProcessStats (V : Type 0) : Type 0 where
    process_stats : ProcessRow V → StatsList V → ProcessStats V

  pub data StatsList (V : Type 0) : Type 0 where
    no_stats : StatsList V
    more_stats : ProcessStats V → StatsList V → StatsList V

pub data SortField : Type 0 where
  by_cpu by_mem by_pid by_io : SortField

-- The container is known by the number of its handle.
pub record TopView (V : Type 0) : Type 0 where
  pub container : Option ℕ
  pub flat_procs : List (ProcessRow V)
  pub sort_field : SortField
  pub proc_count : ℕ

-- flattenProcessStats.
unfoldable mutual
  pub flatten_process_stats : {V : Type 0} → ProcessStats V → List (ProcessRow V)
  flatten_process_stats (process_stats row children) = row ∷ flatten_children children

  pub flatten_children : {V : Type 0} → StatsList V → List (ProcessRow V)
  flatten_children no_stats = []
  flatten_children (more_stats child children) =
      flatten_process_stats child ++ flatten_children children

-- The switch of HandleInput.
unfoldable pub field_of_rune : ℕ → Option SortField
field_of_rune c =
    if c == b'c' || c == b'C'
    then some by_cpu
    else if c == b'm' || c == b'M'
    then some by_mem
    else if c == b'p' || c == b'P'
    then some by_pid
    else if c == b'i' || c == b'I'
    then some by_io
    else none

module _ {V : Type 0} where
  -- NewTopView.
  abbrev pub new_top_view : TopView V
  new_top_view = record { container = none; flat_procs = []; sort_field = by_cpu; proc_count = 0 }

  -- SetContainer.
  abbrev pub set_container : Option ℕ → TopView V → TopView V
  set_container c v = record v { container = c; flat_procs = []; proc_count = 0 }

  abbrev pub flatten_stats : Option (ProcessStats V) → List (ProcessRow V)
  flatten_stats none = []
  flatten_stats (some stats) = flatten_process_stats stats

  abbrev pub load : Option (Option (ProcessStats V)) → TopView V → TopView V
  load none v = record v { flat_procs = []; proc_count = 0 }
  load (some stats) v = record v {
    flat_procs = flatten_stats stats;
    proc_count = length (flatten_stats stats);
  }

  abbrev pub refresh_unless : Option ℕ → Option (Option (ProcessStats V)) → TopView V → TopView V
  refresh_unless none stats v = v
  refresh_unless (some c) stats v = load stats v

  -- Refresh, with what ProcessStats of the container returns; none is an error, and none in it nil.
  unfoldable pub refresh_top : Option (Option (ProcessStats V)) → TopView V → TopView V
  unfolding flatten_process_stats
  refresh_top stats v = refresh_unless v.container stats v

  -- setSortField.
  abbrev pub set_sort_field : SortField → TopView V → TopView V
  set_sort_field field v = record v { sort_field = field }

  abbrev pub with_field : Option SortField → TopView V → TopView V × Bool
  with_field none v = (v, false)
  with_field (some field) v = (set_sort_field field v, true)

  -- HandleInput, on a rune without the control key: the view, and whether the event is consumed.
  unfoldable pub handle_rune : ℕ → TopView V → TopView V × Bool
  unfolding field_of_rune
  handle_rune c v = with_field (field_of_rune c) v

module _ (F : Float) where
  abbrev pub io_rate : ProcessRow F.Value → F.Value
  io_rate p = F.add p.read_bytes_per_sec p.write_bytes_per_sec

  -- The less function of sortProcessStats.
  unfoldable pub stats_less : SortField → ProcessRow F.Value → ProcessRow F.Value → Bool
  stats_less by_cpu a b = F.gt a.cpu_percent b.cpu_percent
  stats_less by_mem a b = F.gt a.memory_percent b.memory_percent
  stats_less by_pid a b = int_ltb a.pid b.pid
  stats_less by_io a b = F.gt (io_rate a) (io_rate b)

  -- sortProcessStats.
  unfoldable pub sort_process_stats :
      List (ProcessRow F.Value) → SortField → List (ProcessRow F.Value)
  unfolding sort_by stats_less
  sort_process_stats procs field = sort_by (stats_less field) procs

  -- The rows that render draws.
  unfoldable pub shown_rows : TopView F.Value → List (ProcessRow F.Value)
  unfolding sort_process_stats
  shown_rows v = sort_process_stats v.flat_procs v.sort_field
