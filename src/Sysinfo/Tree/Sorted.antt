-- ===== src/Sysinfo/Tree/Sorted.antt =====
-- Lists of processes sorted by PID.
use c_ray.Map.{int_eq, int_eq_iff}
use c_ray.Prelude.{
  Bool, List, Option, [], ap, arith, false, if◌then◌else◌, none, refl, select, some, true, ◌∙◌, ◌∷◌,
  ◌≡◌,
}
use c_ray.Prelude.Int.{int_ltb, negsuc, pos, ℤ}
use c_ray.Sysinfo.Tree.{insert_by_pid, sort_by_pid}
use c_ray.Sysinfo.Types.{Process}

int_ltb-other : (a b : ℤ) → int_ltb a b ≡ false → int_eq b a ≡ false → int_ltb b a ≡ true
unfolding int_ltb int_eq
int_ltb-other (pos a) (pos b) h n = ground arith
int_ltb-other (pos a) (negsuc b) h n = refl
int_ltb-other (negsuc a) (pos b) h n = ground arith
int_ltb-other (negsuc a) (negsuc b) h n = ground arith

module _ {V : Type 0} where
  -- The first process with a PID.
  abbrev pub process_at : ℤ → List (Process V) → Option (Process V)
  process_at pid [] = none
  process_at pid (p ∷ ps) = if int_eq p.pid pid then some p else process_at pid ps

  -- The PIDs grow from each process to the next, so that none stands twice.
  abbrev pub IsAscending : List (Process V) → Type 0
  IsAscending [] = Unit
  IsAscending (p ∷ []) = Unit
  IsAscending (p ∷ q ∷ ps) = (int_ltb p.pid q.pid ≡ true) × IsAscending (q ∷ ps)

  -- No PID stands twice.
  abbrev pub IsDistinctPids : List (Process V) → Type 0
  IsDistinctPids [] = Unit
  IsDistinctPids (p ∷ ps) = (process_at p.pid ps ≡ none) × IsDistinctPids ps

  process_at-insert_by_pid :
      (pid : ℤ) (p : Process V) (qs : List (Process V))
      → process_at p.pid qs ≡ none
      → process_at pid (insert_by_pid p qs)
        ≡ (if int_eq p.pid pid then some p else process_at pid qs)
  unfolding insert_by_pid
  process_at-insert_by_pid pid p [] h = refl
  process_at-insert_by_pid pid p (q ∷ qs) h = ground (
    arith,
    int_eq_iff p.pid pid,
    int_eq_iff q.pid pid,
    int_eq_iff q.pid p.pid,
    process_at-insert_by_pid pid p qs,
  )

  insert_by_pid-IsAscending :
      (p : Process V) (qs : List (Process V))
      → process_at p.pid qs ≡ none
      → IsAscending qs
      → IsAscending (insert_by_pid p qs)
  unfolding insert_by_pid
  insert_by_pid-IsAscending p [] h asc = tt
  insert_by_pid-IsAscending p (q ∷ []) h asc = ground (arith, int_ltb-other p.pid q.pid)
  insert_by_pid-IsAscending p (q ∷ r ∷ qs) h (first, asc) =
      ground (arith, int_ltb-other p.pid q.pid, insert_by_pid-IsAscending p (r ∷ qs))

  pub process_at-sort_by_pid :
      (pid : ℤ) (ps : List (Process V))
      → IsDistinctPids ps
      → process_at pid (sort_by_pid ps) ≡ process_at pid ps
  unfolding sort_by_pid
  process_at-sort_by_pid pid [] h = refl
  process_at-sort_by_pid pid (p ∷ ps) (h, hs) =
      process_at-insert_by_pid pid p (sort_by_pid ps) (process_at-sort_by_pid p.pid ps hs ∙ h)
      ∙ ap (λ o. if int_eq p.pid pid then some p else o) (process_at-sort_by_pid pid ps hs)

  pub sort_by_pid-IsAscending :
      (ps : List (Process V)) → IsDistinctPids ps → IsAscending (sort_by_pid ps)
  unfolding sort_by_pid
  sort_by_pid-IsAscending [] h = tt
  sort_by_pid-IsAscending (p ∷ ps) (h, hs) =
      insert_by_pid-IsAscending p (sort_by_pid ps) (process_at-sort_by_pid p.pid ps hs ∙ h)
        (sort_by_pid-IsAscending ps hs)

  -- A selection has a process under a PID if the list has, and it is selected.
  abbrev pub kept_if : (Process V → Bool) → Option (Process V) → Option (Process V)
  kept_if keep none = none
  kept_if keep (some p) = if keep p then some p else none

  pub process_at-select :
      (pid : ℤ) (keep : Process V → Bool) (ps : List (Process V))
      → IsDistinctPids ps
      → process_at pid (select keep ps) ≡ kept_if keep (process_at pid ps)
  process_at-select pid keep [] h = refl
  process_at-select pid keep (p ∷ ps) (h, hs) =
      ground (arith, int_eq_iff p.pid pid, process_at-select pid keep ps hs)

  pub select-IsDistinctPids :
      (keep : Process V → Bool) (ps : List (Process V))
      → IsDistinctPids ps
      → IsDistinctPids (select keep ps)
  select-IsDistinctPids keep [] h = tt
  select-IsDistinctPids keep (p ∷ ps) (h, hs) =
      elim (keep p)
        as (λ b. IsDistinctPids (elim b [ true ↦ p ∷ select keep ps | false ↦ select keep ps ])) [
          | true ↦ (
            process_at-select p.pid keep ps hs ∙ ap (kept_if keep) h,
            select-IsDistinctPids keep ps hs,
          )
          | false ↦ select-IsDistinctPids keep ps hs
        ]
