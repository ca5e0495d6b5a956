-- ===== src/Sysinfo/Sampler.antt =====
-- The Sampler of pkg/sysinfo/sampler.go: rates from two successive snapshots. A time is the reading
-- of the monotonic clock in nanoseconds; the mutex makes each method one step.
pub mod Snapshots
pub mod Rates
use c_ray.Float.{Float}
use c_ray.Map.{has_key, insert, int_key, lookup, prune, text_key}
use c_ray.Prelude.{
  List, Option, [], if◌then◌else◌, leb, ltb, map, none, some, ℕ, ◌%◌, ◌&&◌, ◌+◌, ◌-◌, ◌/◌, ◌^◌, ◌∷◌,
}
use c_ray.Prelude.Int.{is_positive, ℤ}
use c_ray.Sysinfo.Types.{NetworkStats, Process}
use c_ray.Text.Basic.{Text, text_eq}

pub record ProcessSnapshot : Type 0 where
  pub utime : ℕ
  pub stime : ℕ
  pub read_bytes : ℕ
  pub write_bytes : ℕ
  pub timestamp : ℕ

pub record NetSnapshot : Type 0 where
  pub rx_bytes : ℕ
  pub tx_bytes : ℕ
  pub timestamp : ℕ

pub record Sampler : Type 0 where
  pub container_id : Text
  pub prev_process : List (ℤ × ProcessSnapshot)
  pub prev_network : List (Text × NetSnapshot)

abbrev pub new_sampler : Sampler
new_sampler = record { container_id = []; prev_process = []; prev_network = [] }

-- reset.
unfoldable pub reset : Sampler → Sampler
reset s = record s { prev_process = []; prev_network = [] }

-- ensureContainer.
unfoldable pub ensure_container : Text → Sampler → Sampler
unfolding reset
ensure_container container_id s =
    if text_eq s.container_id container_id
    then s
    else record (reset s) { container_id = container_id }

-- deltaCPU: the ticks since the previous snapshot, in 64 bits.
unfoldable pub delta_cpu : ℕ → ℕ → ℕ → ℕ → ℕ
delta_cpu utime stime prev_utime prev_stime =
    ((utime + stime) % 2 ^ 64 + 2 ^ 64 - (prev_utime + prev_stime) % 2 ^ 64) % 2 ^ 64

module _ (f : Float) where
  abbrev V : Type 0
  V = f.Value

  -- now.Sub(t).Seconds(), of a number of nanoseconds.
  abbrev pub seconds : ℕ → f.Value
  seconds ns =
      f.add (f.of_uint (ns / 1000000000))
        (f.div (f.of_uint (ns % 1000000000)) (f.ratio 1000000000 1))

  unfoldable pub max_float : f.Value → f.Value → f.Value
  max_float a b = if f.gt a b then a else b

  -- The percentage that CPUPercent may not exceed.
  abbrev pub cpu_cap : f.Value → f.Value
  cpu_cap cpu_cores = f.mul (f.ratio 100 1) (max_float cpu_cores (f.ratio 1 1))

  -- The percentage before the cap: of the allocated CPUs, or of one core where there is no limit.
  abbrev pub raw_percent : ℕ → f.Value → f.Value → f.Value
  raw_percent delta dt cpu_cores =
      let fraction = f.div (f.of_uint delta) (f.mul dt (f.ratio 100 1)) in
      if f.gt cpu_cores (f.ratio 0 1)
      then f.mul (f.div fraction cpu_cores) (f.ratio 100 1)
      else f.mul fraction (f.ratio 100 1)

  unfoldable pub cpu_percent_of : ℕ → f.Value → f.Value → f.Value
  cpu_percent_of delta dt cpu_cores =
      if f.gt (raw_percent delta dt cpu_cores) (cpu_cap cpu_cores)
      then cpu_cap cpu_cores
      else raw_percent delta dt cpu_cores

  -- The bytes per second of a counter; a counter that fell leaves the old rate.
  unfoldable pub byte_rate : ℕ → ℕ → f.Value → f.Value → f.Value
  byte_rate cur prev dt old = if leb prev cur then f.div (f.of_uint (cur - prev)) dt else old

  -- The rates of a process against its previous snapshot, unless the interval is near zero.
  unfoldable pub rates_since : ProcessSnapshot → ℕ → f.Value → Process f.Value → Process f.Value
  unfolding cpu_percent_of byte_rate delta_cpu
  rates_since prev now cpu_cores p =
      let dt = seconds (now - prev.timestamp) in
      if f.ge dt (f.ratio 1 10)
      then record p {
        cpu_percent = cpu_percent_of (delta_cpu p.utime p.stime prev.utime prev.stime) dt cpu_cores;
        read_bytes_per_sec = byte_rate p.read_bytes prev.read_bytes dt p.read_bytes_per_sec;
        write_bytes_per_sec = byte_rate p.write_bytes prev.write_bytes dt p.write_bytes_per_sec;
      }
      else p

  abbrev pub rates_against :
      Option ProcessSnapshot → ℕ → f.Value → Process f.Value → Process f.Value
  rates_against none now cpu_cores p = p
  rates_against (some prev) now cpu_cores p = rates_since prev now cpu_cores p

  -- The memory percentage relative to the container's limit.
  unfoldable pub memory_share : ℤ → Process f.Value → Process f.Value
  memory_share memory_limit p =
      if is_positive memory_limit && ltb 0 p.memory_rss
      then record p {
        memory_percent =
            f.mul (f.div (f.of_uint p.memory_rss) (f.of_int memory_limit)) (f.ratio 100 1);
      }
      else p

  abbrev pub snapshot_of : ℕ → Process f.Value → ProcessSnapshot
  snapshot_of now p = record {
    utime = p.utime;
    stime = p.stime;
    read_bytes = p.read_bytes;
    write_bytes = p.write_bytes;
    timestamp = now;
  }

  -- The loop over the processes: each gets its rates, and its snapshot is stored.
  unfoldable pub process_loop :
      ℕ
      → f.Value
      → ℤ
      → List (ℤ × ProcessSnapshot)
      → List (Process f.Value)
      → List (ℤ × ProcessSnapshot) × List (Process f.Value)
  unfolding rates_since memory_share
  process_loop now cpu_cores memory_limit m [] = (m, [])
  process_loop now cpu_cores memory_limit m (p ∷ ps) =
      let p' = memory_share memory_limit (rates_against (lookup p.pid m) now cpu_cores p) in
      let (m', ps') =
        process_loop now cpu_cores memory_limit (insert p.pid (snapshot_of now p) m) ps in
      (m', p' ∷ ps')

  abbrev pub pids_of : List (Process f.Value) → List ℤ
  pids_of = map (λ (p : Process f.Value). p.pid)

  -- CalculateProcessRates.
  unfoldable pub calculate_process_rates :
      ℕ → Text → List (Process f.Value) → f.Value → ℤ → Sampler → Sampler × List (Process f.Value)
  unfolding process_loop ensure_container
  calculate_process_rates now container_id processes cpu_cores memory_limit s =
      let s' = ensure_container container_id s in
      let (m, ps) = process_loop now cpu_cores memory_limit s'.prev_process processes in
      (record s' { prev_process = prune (λ pid. has_key pid (pids_of processes)) m }, ps)

  -- The rates of an interface against its previous snapshot.
  unfoldable pub net_rates_since : NetSnapshot → ℕ → NetworkStats f.Value → NetworkStats f.Value
  unfolding byte_rate
  net_rates_since prev now ns =
      let dt = seconds (now - prev.timestamp) in
      if f.ge dt (f.ratio 1 10)
      then record ns {
        rx_bytes_per_sec = byte_rate ns.rx_bytes prev.rx_bytes dt ns.rx_bytes_per_sec;
        tx_bytes_per_sec = byte_rate ns.tx_bytes prev.tx_bytes dt ns.tx_bytes_per_sec;
      }
      else ns

  abbrev pub net_rates_against :
      Option NetSnapshot → ℕ → NetworkStats f.Value → NetworkStats f.Value
  net_rates_against none now ns = ns
  net_rates_against (some prev) now ns = net_rates_since prev now ns

  abbrev pub net_snapshot_of : ℕ → NetworkStats f.Value → NetSnapshot
  net_snapshot_of now ns = record {
    rx_bytes = ns.rx_bytes;
    tx_bytes = ns.tx_bytes;
    timestamp = now;
  }

  unfoldable pub network_loop :
      ℕ
      → List (Text × NetSnapshot)
      → List (NetworkStats f.Value)
      → List (Text × NetSnapshot) × List (NetworkStats f.Value)
  unfolding net_rates_since
  network_loop now m [] = (m, [])
  network_loop now m (ns ∷ stats) =
      let ns' = net_rates_against (lookup ns.interface m) now ns in
      let (m', stats') = network_loop now (insert ns.interface (net_snapshot_of now ns) m) stats in
      (m', ns' ∷ stats')

  abbrev pub interfaces_of : List (NetworkStats f.Value) → List Text
  interfaces_of = map (λ (ns : NetworkStats f.Value). ns.interface)

  -- CalculateNetworkRates.
  unfoldable pub calculate_network_rates :
      ℕ → List (NetworkStats f.Value) → Sampler → Sampler × List (NetworkStats f.Value)
  unfolding network_loop
  calculate_network_rates now stats s =
      let (m, stats') = network_loop now s.prev_network stats in
      (record s { prev_network = prune (λ iface. has_key iface (interfaces_of stats)) m }, stats')
