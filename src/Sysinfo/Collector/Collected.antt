-- ===== src/Sysinfo/Collector/Collected.antt =====
-- What the collector collects.
use mathlib.Core.Path.{ap₂}
use c_ray.Files.{Files}
use c_ray.Float.{Float}
use c_ray.Map.{has_key, int_key}
use c_ray.Prelude.{
  All, AllPairs, Any, List, [], if◌then◌else◌, inl, inr, map, none, refl, some, ℕ, ◌∙◌, ◌∷◌, ◌≡◌,
  ◌≢◌,
}
use c_ray.Prelude.Int.{int_ltb, ℤ}
use c_ray.Result.{ok, panic}
use c_ray.Sysinfo.Collector.{collect_container_processes, container_root}
use c_ray.Sysinfo.Host.{host_root}
use c_ray.Sysinfo.Host.Namespace.{
  IsFatal, IsFilled, filled, kept, resolve_host_pids-IsFilled, with_hosts,
}
use c_ray.Sysinfo.Proc.{get_process_ppid, list_pids, read_process}
use c_ray.Sysinfo.Sampler.{Sampler}
use c_ray.Sysinfo.Tree.{get_all_processes}
use c_ray.Sysinfo.Tree.Sorted.{IsAscending, process_at}
use c_ray.Sysinfo.Tree.Table.{build-IsAscending, value_of_read}
use c_ray.Sysinfo.Types.{Process}
use c_ray.Text.Basic.{Text}

module _ {V : Type 0} where
  IsFilled-pid : (fs : Files) (p q : Process V) → IsFilled fs p q → q.pid ≡ p.pid
  IsFilled-pid fs p q (kept h) = refl
  IsFilled-pid fs p q (filled ppid gap e above) = refl

  -- Lists with the same PIDs are ascending together.
  IsAscending-pids :
      (ps qs : List (Process V))
      → AllPairs (λ (p q : Process V). q.pid ≡ p.pid) ps qs
      → IsAscending ps
      → IsAscending qs
  IsAscending-pids [] [] same asc = tt
  IsAscending-pids [] (q ∷ qs) same asc = absurd same
  IsAscending-pids (p ∷ ps) [] same asc = absurd same
  IsAscending-pids (p ∷ []) (q ∷ []) same asc = tt
  IsAscending-pids (p ∷ []) (q ∷ r ∷ qs) (same, more) asc = absurd more
  IsAscending-pids (p ∷ p' ∷ ps) (q ∷ []) (same, more) asc = absurd more
  IsAscending-pids (p ∷ p' ∷ ps) (q ∷ r ∷ qs) (same, (next_same, more)) (less, asc) =
      (ap₂ int_ltb same next_same ∙ less, IsAscending-pids (p' ∷ ps) (r ∷ qs) (next_same, more) asc)

  no_fatal :
      (fs : Files) (ps : List (Process V))
      → ((pid : ℤ) → get_process_ppid fs host_root pid ≢ panic)
      → Any (IsFatal fs) ps
      → ⊥
  no_fatal fs [] safe nobody = nobody
  no_fatal fs (p ∷ ps) safe (inl (gap, fatal)) = safe p.host_pid fatal
  no_fatal fs (p ∷ ps) safe (inr later) = no_fatal fs ps safe later

  filled-pids :
      (fs : Files) (container_pid : ℕ) (ps qs : List (Process V))
      → AllPairs (IsFilled fs) (map (with_hosts fs container_pid) ps) qs
      → AllPairs (λ (p q : Process V). q.pid ≡ p.pid) ps qs
  filled-pids fs container_pid [] [] h = tt
  filled-pids fs container_pid [] (q ∷ qs) h = absurd h
  filled-pids fs container_pid (p ∷ ps) [] h = absurd h
  filled-pids fs container_pid (p ∷ ps) (q ∷ qs) (h, hs) =
      (IsFilled-pid fs (with_hosts fs container_pid p) q h, filled-pids fs container_pid ps qs hs)

  -- Where the container's /proc can be listed and no stat file makes the parser panic,
  -- CollectContainerProcesses returns the processes that were listed and can be read, in ascending
  -- order of their PIDs, none twice, each with its host PIDs, and otherwise as it was read.
  pub collect_container_processes-IsAscending :
      (visit : List (ℤ × Process V) → List (Process V)) (z : V) (fs : Files) (container_pid : ℕ)
      (pids : List ℤ)
      → list_pids fs (container_root container_pid) ≡ some pids
      → All (λ pid. read_process z fs (container_root container_pid) pid ≢ panic) pids
      → ((pid : ℤ) → get_process_ppid fs host_root pid ≢ panic)
      → (ps : List (Process V)) × (qs : List (Process V)) × (collect_container_processes visit z fs
            container_pid
          ≡ ok qs)
        × IsAscending qs
        × AllPairs (IsFilled fs) (map (with_hosts fs container_pid) ps) qs
        × ((pid : ℤ)
            → process_at pid ps ≡ (
                if has_key pid pids
                then value_of_read (read_process z fs (container_root container_pid) pid) none
                else none))
  unfolding collect_container_processes
  collect_container_processes-IsAscending visit z fs container_pid pids listed safe host_safe =
      let (t, built, ascending, at) =
        build-IsAscending visit z fs (container_root container_pid) pids safe in
      elim (resolve_host_pids-IsFilled fs (get_all_processes t) container_pid) [
        | inl (qs, e, fills) ↦ (
          get_all_processes t,
          qs,
          rw (listed, built) e,
          IsAscending-pids (get_all_processes t) qs
              (filled-pids fs container_pid (get_all_processes t) qs fills) ascending,
          fills,
          at,
        )
        | inr (e, fatal) ↦
            absurd (
              no_fatal fs (map (with_hosts fs container_pid) (get_all_processes t)) host_safe fatal)
      ]
