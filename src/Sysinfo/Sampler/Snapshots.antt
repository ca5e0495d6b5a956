-- ===== src/Sysinfo/Sampler/Snapshots.antt =====
-- What the sampler remembers after a call.
use c_ray.Float.{Float}
use c_ray.Map.{has_key, insert, int_eq, int_key, lookup, lookup-insert, lookup-prune, text_key}
use c_ray.Prelude.{
  List, Option, [], ap, arith, if◌then◌else◌, none, refl, some, ℕ, ◌∙◌, ◌∷◌, ◌≡◌, ◌≢◌,
}
use c_ray.Prelude.Int.{ℤ}
use c_ray.Sysinfo.Sampler.{
  NetSnapshot, ProcessSnapshot, Sampler, calculate_network_rates, calculate_process_rates,
  ensure_container, interfaces_of, net_snapshot_of, network_loop, new_sampler, pids_of,
  process_loop, snapshot_of,
}
use c_ray.Sysinfo.Types.{NetworkStats, Process}
use c_ray.Text.Basic.{Text, text_eq, text_eq_iff}

module _ (f : Float) where
  -- The snapshot of the last process with this PID, or else `before`.
  abbrev pub latest :
      ℤ → ℕ → List (Process f.Value) → Option ProcessSnapshot → Option ProcessSnapshot
  latest pid now [] before = before
  latest pid now (p ∷ ps) before =
      latest pid now ps (if int_eq p.pid pid then some (snapshot_of f now p) else before)

  lookup-process_loop :
      (pid : ℤ) (now : ℕ) (cores : f.Value) (limit : ℤ) (m : List (ℤ × ProcessSnapshot))
      (ps : List (Process f.Value))
      → lookup pid (process_loop f now cores limit m ps).0 ≡ latest pid now ps (lookup pid m)
  unfolding process_loop
  lookup-process_loop pid now cores limit m [] = refl
  lookup-process_loop pid now cores limit m (p ∷ ps) =
      lookup-process_loop pid now cores limit (insert p.pid (snapshot_of f now p) m) ps
      ∙ ap (latest pid now ps) (lookup-insert p.pid pid (snapshot_of f now p) m)

  -- For a PID of the list it does not matter what was remembered; another PID keeps it.
  latest_before :
      (pid : ℤ) (now : ℕ) (ps : List (Process f.Value)) (before : Option ProcessSnapshot)
      → latest pid now ps before
        ≡ (if has_key pid (pids_of f ps) then latest pid now ps none else before)
  unfolding has_key
  latest_before pid now [] before = refl
  latest_before pid now (p ∷ ps) before = ground (
    arith,
    latest_before pid now ps (some (snapshot_of f now p)),
    latest_before pid now ps before,
    latest_before pid now ps none,
  )

  -- After CalculateProcessRates the sampler holds, for every PID, the snapshot of the last process of
  -- the call with that PID, and nothing for a PID that the call did not have.
  pub lookup-calculate_process_rates :
      (now : ℕ) (container_id : Text) (ps : List (Process f.Value)) (cores : f.Value)
      (limit pid : ℤ) (s : Sampler)
      → lookup pid (calculate_process_rates f now container_id ps cores limit s).0.prev_process
        ≡ latest pid now ps none
  unfolding calculate_process_rates
  lookup-calculate_process_rates now container_id ps cores limit pid s =
      let m = (ensure_container container_id s).prev_process in
      lookup-prune pid (λ k. has_key k (pids_of f ps)) (process_loop f now cores limit m ps).0
      ∙ ap (λ o. if has_key pid (pids_of f ps) then o else none)
          (lookup-process_loop pid now cores limit m ps)
      ∙ choose (lookup pid m)
    where
      choose :
          (o : Option ProcessSnapshot)
          → (if has_key pid (pids_of f ps) then latest pid now ps o else none)
            ≡ latest pid now ps none
      choose o = ground (arith, latest_before pid now ps o, latest_before pid now ps none)

  ensure_container-other :
      (container_id : Text) (s : Sampler)
      → s.container_id ≢ container_id
      → ensure_container container_id s
        ≡ record { container_id = container_id; prev_process = []; prev_network = [] }
  unfolding ensure_container
  ensure_container-other container_id s h = ground (arith, text_eq_iff s.container_id container_id)

  ensure_container_new :
      (container_id : Text)
      → ensure_container container_id new_sampler
        ≡ record { container_id = container_id; prev_process = []; prev_network = [] }
  unfolding ensure_container text_eq
  ensure_container_new [] = refl
  ensure_container_new (c ∷ container_id) = refl

  -- After a switch to another container the call is that of a new sampler: no snapshot of the old
  -- container, of its processes or of its interfaces, has any influence.
  pub calculate_process_rates_switch :
      (now : ℕ) (container_id : Text) (ps : List (Process f.Value)) (cores : f.Value) (limit : ℤ)
      (s : Sampler)
      → s.container_id ≢ container_id
      → calculate_process_rates f now container_id ps cores limit s
        ≡ calculate_process_rates f now container_id ps cores limit new_sampler
  unfolding calculate_process_rates
  calculate_process_rates_switch now container_id ps cores limit s h =
      rw (ensure_container-other container_id s h, ensure_container_new container_id)

  -- The snapshot of the last entry of this interface, or else `before`.
  abbrev pub latest_net :
      Text → ℕ → List (NetworkStats f.Value) → Option NetSnapshot → Option NetSnapshot
  latest_net iface now [] before = before
  latest_net iface now (ns ∷ stats) before =
      latest_net iface now stats
        (if text_eq ns.interface iface then some (net_snapshot_of f now ns) else before)

  lookup-network_loop :
      (iface : Text) (now : ℕ) (m : List (Text × NetSnapshot)) (stats : List (NetworkStats f.Value))
      → lookup iface (network_loop f now m stats).0 ≡ latest_net iface now stats (lookup iface m)
  unfolding network_loop
  lookup-network_loop iface now m [] = refl
  lookup-network_loop iface now m (ns ∷ stats) =
      lookup-network_loop iface now (insert ns.interface (net_snapshot_of f now ns) m) stats
      ∙ ap (latest_net iface now stats)
          (lookup-insert ns.interface iface (net_snapshot_of f now ns) m)

  latest_net_before :
      (iface : Text) (now : ℕ) (stats : List (NetworkStats f.Value)) (before : Option NetSnapshot)
      → latest_net iface now stats before ≡ (
          if has_key iface (interfaces_of f stats) then latest_net iface now stats none else before)
  unfolding has_key
  latest_net_before iface now [] before = refl
  latest_net_before iface now (ns ∷ stats) before = ground (
    arith,
    latest_net_before iface now stats (some (net_snapshot_of f now ns)),
    latest_net_before iface now stats before,
    latest_net_before iface now stats none,
  )

  -- After CalculateNetworkRates the sampler holds, for every interface, the snapshot of the last entry
  -- of the call for it, and nothing for another interface; the snapshots of processes stay.
  pub lookup-calculate_network_rates :
      (now : ℕ) (stats : List (NetworkStats f.Value)) (iface : Text) (s : Sampler)
      → (lookup iface (calculate_network_rates f now stats s).0.prev_network
          ≡ latest_net iface now stats none)
        × ((calculate_network_rates f now stats s).0.prev_process ≡ s.prev_process)
        × ((calculate_network_rates f now stats s).0.container_id ≡ s.container_id)
  unfolding calculate_network_rates
  lookup-calculate_network_rates now stats iface s = (
    lookup-prune iface (λ k. has_key k (interfaces_of f stats))
          (network_loop f now s.prev_network stats).0
        ∙ ap (λ o. if has_key iface (interfaces_of f stats) then o else none)
            (lookup-network_loop iface now s.prev_network stats)
        ∙ choose (lookup iface s.prev_network),
    refl,
    refl,
  )
    where
      choose :
          (o : Option NetSnapshot)
          → (if has_key iface (interfaces_of f stats) then latest_net iface now stats o else none)
            ≡ latest_net iface now stats none
      choose o =
          ground
            (arith, latest_net_before iface now stats o, latest_net_before iface now stats none)
