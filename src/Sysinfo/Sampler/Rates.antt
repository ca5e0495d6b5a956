-- ===== src/Sysinfo/Sampler/Rates.antt =====
-- The rates that the sampler computes.
use mathlib.Core.Path.{ap₂}
use c_ray.Float.{Float}
use c_ray.Map.{has_key, insert, int_eq, int_eq_iff, int_key, lookup, lookup-insert}
use c_ray.Prelude.{List, [], ap, arith, false, if◌then◌else◌, map, refl, some, ℕ, ◌∙◌, ◌∷◌, ◌≡◌}
use c_ray.Prelude.Int.{ℤ}
use c_ray.Sysinfo.Sampler.{
  ProcessSnapshot, Sampler, calculate_process_rates, ensure_container, memory_share, pids_of,
  process_loop, rates_against, snapshot_of,
}
use c_ray.Sysinfo.Types.{Process}
use c_ray.Text.Basic.{Text}

module _ (f : Float) where
  -- No PID stands twice in the list.
  abbrev pub HasDistinctPids : List (Process f.Value) → Type 0
  HasDistinctPids [] = Unit
  HasDistinctPids (p ∷ ps) = (has_key p.pid (pids_of f ps) ≡ false) × HasDistinctPids ps

  -- The rates of one process against what is remembered.
  abbrev pub rated :
      ℕ → f.Value → ℤ → List (ℤ × ProcessSnapshot) → Process f.Value → Process f.Value
  rated now cores limit m p = memory_share f limit (rates_against f (lookup p.pid m) now cores p)

  map-rated-insert :
      (now : ℕ) (cores : f.Value) (limit pid : ℤ) (snapshot : ProcessSnapshot)
      (m : List (ℤ × ProcessSnapshot)) (ps : List (Process f.Value))
      → has_key pid (pids_of f ps) ≡ false
      → map (rated now cores limit (insert pid snapshot m)) ps ≡ map (rated now cores limit m) ps
  unfolding has_key
  map-rated-insert now cores limit pid snapshot m [] h = refl
  map-rated-insert now cores limit pid snapshot m (p ∷ ps) h =
      ap₂ (λ (q : Process f.Value) (qs : List (Process f.Value)). q ∷ qs)
        (ap (λ o. memory_share f limit (rates_against f o now cores p))
          (lookup-insert pid p.pid snapshot m ∙ not_found))
        (map-rated-insert now cores limit pid snapshot m ps (ground arith))
    where
      not_found : (if int_eq pid p.pid then some snapshot else lookup p.pid m) ≡ lookup p.pid m
      not_found = ground (arith, int_eq_iff pid p.pid, int_eq_iff p.pid pid)

  process_loop-rated :
      (now : ℕ) (cores : f.Value) (limit : ℤ) (m : List (ℤ × ProcessSnapshot))
      (ps : List (Process f.Value))
      → HasDistinctPids ps
      → (process_loop f now cores limit m ps).1 ≡ map (rated now cores limit m) ps
  unfolding process_loop
  process_loop-rated now cores limit m [] h = refl
  process_loop-rated now cores limit m (p ∷ ps) (h, hs) = ap (◌∷◌ (rated now cores limit m p)) (
      process_loop-rated now cores limit (insert p.pid (snapshot_of f now p) m) ps hs
      ∙ map-rated-insert now cores limit p.pid (snapshot_of f now p) m ps h)

  -- Where no PID stands twice, CalculateProcessRates rates each process against its own snapshot of
  -- the previous call, in the order of the list: the loop's own insertions have no effect.
  pub calculate_process_rates-rated :
      (now : ℕ) (container_id : Text) (ps : List (Process f.Value)) (cores : f.Value) (limit : ℤ)
      (s : Sampler)
      → HasDistinctPids ps
      → (calculate_process_rates f now container_id ps cores limit s).1
        ≡ map (rated now cores limit (ensure_container container_id s).prev_process) ps
  unfolding calculate_process_rates
  calculate_process_rates-rated now container_id ps cores limit s h =
      process_loop-rated now cores limit (ensure_container container_id s).prev_process ps h
