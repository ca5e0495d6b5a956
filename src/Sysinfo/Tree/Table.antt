-- ===== src/Sysinfo/Tree/Table.antt =====
-- The map of a process tree, and what its methods return.
use c_ray.Files.{Files}
use c_ray.Map.{has_key, insert, int_eq, int_eq_iff, int_key, lookup, lookup-insert}
use c_ray.Prelude.{
  All, Bool, Bool-cases, List, Option, [], ap, arith, false, if◌then◌else◌, inl, inr, none, refl,
  select, some, subst, sym, true, ◌||◌, ◌∙◌, ◌∷◌, ◌≡◌, ◌≢◌,
}
use c_ray.Prelude.Int.{ℤ}
use c_ray.Result.{Result, Result-cases, err, ok, ok-injective, ok≢panic, panic}
use c_ray.Sysinfo.Proc.{read_process}
use c_ray.Sysinfo.Proc.Frame.{read_process-SameStat}
use c_ray.Sysinfo.Stat.{StatError}
use c_ray.Sysinfo.Tree.{
  ProcessTree, build, get_all_processes, get_process, get_root_processes, is_root, linked,
  read_loop, values,
}
use c_ray.Sysinfo.Tree.Sorted.{
  IsAscending, IsDistinctPids, kept_if, process_at, process_at-select, process_at-sort_by_pid,
  select-IsDistinctPids, sort_by_pid-IsAscending,
}
use c_ray.Sysinfo.Types.{Process}
use c_ray.Text.Basic.{Text}

module _ {V : Type 0} where
  -- A map from PIDs to processes: every process stands under its own PID, and no key twice.
  abbrev pub IsTable : List (ℤ × Process V) → Type 0
  IsTable [] = Unit
  IsTable ((k, p) ∷ m) = (p.pid ≡ k) × (lookup k m ≡ none) × IsTable m

  insert-IsTable :
      (k : ℤ) (p : Process V) (m : List (ℤ × Process V))
      → p.pid ≡ k
      → IsTable m
      → IsTable (insert k p m)
  unfolding insert lookup
  insert-IsTable k p [] e h = (e, refl, tt)
  insert-IsTable k p ((j, q) ∷ m) e (hq, none_j, h) = elim (Bool-cases (int_eq j k)) [
    | inl same ↦
        rw (same, insert) (e, ap (λ i. lookup i m) (sym ((int_eq_iff j k).0 same)) ∙ none_j, h)
    | inr other ↦
        rw (other, insert)
          (
            hq,
            lookup-insert k j p m ∙ ground (arith, int_eq_iff k j, int_eq_iff j k),
            insert-IsTable k p m e h,
          )
  ]

  process_at-values :
      (pid : ℤ) (m : List (ℤ × Process V)) → IsTable m → process_at pid (values m) ≡ lookup pid m
  unfolding lookup
  process_at-values pid [] h = refl
  process_at-values pid ((k, p) ∷ m) (e, none_k, h) =
      ap (λ i. if int_eq i pid then some p else process_at pid (values m)) e
      ∙ ap (λ o. if int_eq k pid then some p else o) (process_at-values pid m h)

  values-IsDistinctPids : (m : List (ℤ × Process V)) → IsTable m → IsDistinctPids (values m)
  values-IsDistinctPids [] h = tt
  values-IsDistinctPids ((k, p) ∷ m) (e, none_k, h) =
      (process_at-values p.pid m h ∙ ap (λ i. lookup i m) e ∙ none_k, values-IsDistinctPids m h)

  -- A tree whose map is one.
  abbrev pub IsTree : ProcessTree V → Type 0
  IsTree t = IsTable t.processes

  -- GetAllProcesses of a tree: the processes of the map, in ascending order of their PIDs.
  pub get_all_processes-IsAscending :
      (t : ProcessTree V)
      → IsTree t
      → IsAscending (get_all_processes t)
        × ((pid : ℤ) → process_at pid (get_all_processes t) ≡ get_process t pid)
  unfolding get_all_processes get_process
  get_all_processes-IsAscending t h = (
    sort_by_pid-IsAscending (values t.processes) (values-IsDistinctPids t.processes h),
    λ pid.
        process_at-sort_by_pid pid (values t.processes) (values-IsDistinctPids t.processes h)
        ∙ process_at-values pid t.processes h,
  )

  -- GetRootProcesses of a tree, in which every process stands under its own PID and no key twice:
  -- the processes of the map whose parent is not in it, in ascending order of their PIDs.
  pub get_root_processes-IsAscending :
      (t : ProcessTree V)
      → IsTree t
      → IsAscending (get_root_processes t)
        × ((pid : ℤ)
            → process_at pid (get_root_processes t)
              ≡ kept_if (is_root t.processes) (get_process t pid))
  unfolding get_root_processes get_process
  get_root_processes-IsAscending t h =
      let ps = values t.processes in
      let distinct = values-IsDistinctPids t.processes h in
      (
        sort_by_pid-IsAscending (select (is_root t.processes) ps)
            (select-IsDistinctPids (is_root t.processes) ps distinct),
        λ pid.
            process_at-sort_by_pid pid (select (is_root t.processes) ps)
              (select-IsDistinctPids (is_root t.processes) ps distinct)
            ∙ process_at-select pid (is_root t.processes) ps distinct
            ∙ ap (kept_if (is_root t.processes)) (process_at-values pid t.processes h),
      )

  -- What the file system has for a PID.
  abbrev pub value_of_read : Result StatError (Process V) → Option (Process V) → Option (Process V)
  value_of_read (ok p) before = some p
  value_of_read (err e) before = before
  value_of_read panic before = before

  failed_read :
      (same listed : Bool) (r : Result StatError (Process V)) (before : Option (Process V))
      {x : StatError}
      → (same ≡ true → r ≡ err x)
      → (if listed then value_of_read r before else before)
        ≡ (if same || listed then value_of_read r before else before)
  failed_read true true r before f = refl
  failed_read true false r before f = rw (f refl) refl
  failed_read false listed r before f = refl

  done_read :
      (same listed : Bool) (r : Result StatError (Process V)) (before : Option (Process V))
      {p : Process V}
      → (same ≡ true → r ≡ ok p)
      → (if listed
          then value_of_read r (if same then some p else before)
          else (if same then some p else before))
        ≡ (if same || listed then value_of_read r before else before)
  done_read true true r before f = rw (f refl) refl
  done_read true false r before f = rw (f refl) refl
  done_read false listed r before f = refl

  read_loop-lookup :
      (z : V) (fs : Files) (root : Text) (pids : List ℤ) (m : List (ℤ × Process V))
      {r : List (ℤ × Process V)}
      → read_loop z fs root m pids ≡ ok r
      → (pid : ℤ)
      → lookup pid r ≡ (
          if has_key pid pids
          then value_of_read (read_process z fs root pid) (lookup pid m)
          else lookup pid m)
  unfolding read_loop has_key
  read_loop-lookup z fs root [] m e pid = ap (lookup pid) (sym (ok-injective e))
  read_loop-lookup z fs root (q ∷ pids) m {r} e pid =
      elim (Result-cases (read_process z fs root q)) [
        | inl fatal ↦ absurd (ok≢panic (rw (fatal, read_loop) at e))
        | inr (inl (x, failed)) ↦
            read_loop-lookup z fs root pids m (rw (failed, read_loop) at e) pid
            ∙ failed_read (int_eq q pid) (has_key pid pids) (read_process z fs root pid)
                (lookup pid m)
                (λ same. ap (read_process z fs root) (sym ((int_eq_iff q pid).0 same)) ∙ failed)
        | inr (inr (p, read)) ↦
            read_loop-lookup z fs root pids (insert q p m) (rw (read, read_loop) at e) pid
            ∙ ap (λ o. if has_key pid pids then value_of_read (read_process z fs root pid) o else o)
                (lookup-insert q pid p m)
            ∙ done_read (int_eq q pid) (has_key pid pids) (read_process z fs root pid)
                (lookup pid m)
                (λ same. ap (read_process z fs root) (sym ((int_eq_iff q pid).0 same)) ∙ read)
      ]

  read_loop-IsTable :
      (z : V) (fs : Files) (root : Text) (pids : List ℤ) (m : List (ℤ × Process V))
      {r : List (ℤ × Process V)}
      → IsTable m
      → read_loop z fs root m pids ≡ ok r
      → IsTable r
  unfolding read_loop
  read_loop-IsTable z fs root [] m h e = subst IsTable (ok-injective e) h
  read_loop-IsTable z fs root (q ∷ pids) m h e = elim (Result-cases (read_process z fs root q)) [
    | inl fatal ↦ absurd (ok≢panic (rw (fatal, read_loop) at e))
    | inr (inl (x, failed)) ↦ read_loop-IsTable z fs root pids m h (rw (failed, read_loop) at e)
    | inr (inr (p, read)) ↦
        let (st, stat, same) = read_process-SameStat z fs root q read in
        read_loop-IsTable z fs root pids (insert q p m) (insert-IsTable q p m same.pid_eq h)
          (rw (read, read_loop) at e)
  ]

  -- The loop ends with a map unless the parser panics on a file.
  read_loop-returns :
      (z : V) (fs : Files) (root : Text) (pids : List ℤ) (m : List (ℤ × Process V))
      → All (λ pid. read_process z fs root pid ≢ panic) pids
      → (r : List (ℤ × Process V)) × (read_loop z fs root m pids ≡ ok r)
  unfolding read_loop
  read_loop-returns z fs root [] m h = (m, refl)
  read_loop-returns z fs root (q ∷ pids) m (hq, h) =
      elim (Result-cases (read_process z fs root q)) [
        | inl fatal ↦ absurd (hq fatal)
        | inr (inl (x, failed)) ↦
            let (r, e) = read_loop-returns z fs root pids m h in (r, rw (failed, read_loop) e)
        | inr (inr (p, read)) ↦
            let (r, e) = read_loop-returns z fs root pids (insert q p m) h in
            (r, rw (read, read_loop) e)
      ]

  pub build-IsAscending :
      (visit : List (ℤ × Process V) → List (Process V)) (z : V) (fs : Files) (root : Text)
      (pids : List ℤ)
      → All (λ pid. read_process z fs root pid ≢ panic) pids
      → (t : ProcessTree V) × (build visit z fs root pids ≡ ok t)
        × IsAscending (get_all_processes t)
        × ((pid : ℤ)
            → process_at pid (get_all_processes t) ≡ (
                if has_key pid pids then value_of_read (read_process z fs root pid) none else none))
  unfolding build get_process lookup
  build-IsAscending visit z fs root pids h =
      let (m, read) = read_loop-returns z fs root pids [] h in
      let (ascending, at) =
        get_all_processes-IsAscending (linked visit m)
          (read_loop-IsTable z fs root pids [] tt read) in
      (
        linked visit m,
        rw read refl,
        ascending,
        λ pid. at pid ∙ read_loop-lookup z fs root pids [] read pid,
      )
