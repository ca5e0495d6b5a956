-- ===== src/Tests/Sampler.antt =====
-- The sampler, with natural numbers in the place of floats.
use mathlib.Core.Bool.{false≢true}
use c_ray.Map.{has_key, int_eq, int_key, lookup, text_key}
use c_ray.Prelude.{[], map, none, refl, ℕ, ◌*◌, ◌∷◌, ◌≡◌, ◌≢◌}
use c_ray.Prelude.Int.{pos}
use c_ray.Sysinfo.Proc.{new_process}
use c_ray.Sysinfo.Sampler.{
  ProcessSnapshot, Sampler, calculate_process_rates, ensure_container, new_sampler,
}
use c_ray.Sysinfo.Sampler.Rates.{calculate_process_rates-rated, rated}
use c_ray.Sysinfo.Sampler.Snapshots.{calculate_process_rates_switch, lookup-calculate_process_rates}
use c_ray.Sysinfo.Types.{NetworkStats, Process}
use c_ray.Tests.Words.{nat_float}
use c_ray.Text.Basic.{codes, text_eq, text_eq_iff}

abbrev no_rate : ℕ
no_rate = 0

abbrev busy : ℕ → ℕ → Process ℕ
busy pid ticks = record (new_process no_rate (pos pid)) { utime = ticks; read_bytes = 100 * ticks }

abbrev before : ProcessSnapshot
before = record {
  utime = 10;
  stime = 0;
  read_bytes = 1000;
  write_bytes = 0;
  timestamp = 1000000000;
}

abbrev sampled : Sampler
sampled = record {
  container_id = codes "c1";
  prev_process = (pos 7, before) ∷ (pos 8, before) ∷ [];
  prev_network = [];
}

other_container : codes "c1" ≢ codes "c2"
unfolding text_eq
other_container e = false≢true ((text_eq_iff (codes "c1") (codes "c2")).1 e)

lookup-calculate_process_rates_example :
    lookup
      (pos 8)
      (calculate_process_rates nat_float 3000000000
        (codes "c1")
        (busy 7 20 ∷ [])
        1
        (pos 0)
        sampled).0.prev_process
    ≡ none
unfolding int_eq
lookup-calculate_process_rates_example =
    lookup-calculate_process_rates nat_float 3000000000 (codes "c1") (busy 7 20 ∷ []) 1 (pos 0)
      (pos 8) sampled

calculate_process_rates_switch_example :
    calculate_process_rates nat_float 3000000000 (codes "c2") (busy 7 20 ∷ []) 1 (pos 0) sampled
    ≡ calculate_process_rates nat_float 3000000000
        (codes "c2")
        (busy 7 20 ∷ [])
        1
        (pos 0)
        new_sampler
calculate_process_rates_switch_example =
    calculate_process_rates_switch nat_float 3000000000 (codes "c2") (busy 7 20 ∷ []) 1 (pos 0)
      sampled other_container

abbrev eth0 : NetworkStats ℕ
eth0 = record {
  interface = codes "eth0";
  rx_bytes = 10;
  tx_bytes = 20;
  rx_packets = 1;
  tx_packets = 2;
  rx_errors = 0;
  tx_errors = 0;
  rx_dropped = 0;
  tx_dropped = 0;
  rx_bytes_per_sec = 0;
  tx_bytes_per_sec = 0;
}

calculate_process_rates-rated_example :
    (calculate_process_rates nat_float 3000000000
      (codes "c1")
      (busy 7 20 ∷ busy 8 30 ∷ [])
      1
      (pos 0)
      sampled).1
    ≡ map
        (rated nat_float 3000000000 1 (pos 0) (ensure_container (codes "c1") sampled).prev_process)
        (busy 7 20 ∷ busy 8 30 ∷ [])
calculate_process_rates-rated_example =
    calculate_process_rates-rated nat_float 3000000000 (codes "c1") (busy 7 20 ∷ busy 8 30 ∷ []) 1
      (pos 0) sampled (unfold has_key int_eq in (refl, (refl, tt)))
