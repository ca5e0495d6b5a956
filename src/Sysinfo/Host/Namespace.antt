-- ===== src/Sysinfo/Host/Namespace.antt =====
-- The host PIDs that a process of a container is given.
use mathlib.Core.Bool.{false≢true}
use mathlib.Core.List.{map-id}
use mathlib.Core.Path.{ap₂, fun_ext}
use c_ray.Files.{Files}
use c_ray.Map.{insert, int_eq, int_eq_iff, int_key, lookup, lookup-insert}
use c_ray.Prelude.{
  AllPairs, Any, Bool-cases, List, Option, Option-cases, [], ap, false, if◌then◌else◌, inl, inr,
  map, none, refl, some, sym, true, ℕ, ◌∙◌, ◌∷◌, ◌≡◌, ◌≢◌, ◌⊎◌,
}
use c_ray.Prelude.Int.{is_positive, pos, ℤ}
use c_ray.Result.{Result, err, ok, ok-injective, panic}
use c_ray.Sysinfo.CGroup.{set_or}
use c_ray.Sysinfo.Host.{
  apply_host_pid, apply_host_pids, build_ns_pid_to_host_pid_map, fill_host_ppid, host_root, is_gap,
  namespace_pid, ns_pid_loop, ns_pid_map, read_pid_namespace_inode, resolve_gap, resolve_gaps,
  resolve_host_pids,
}
use c_ray.Sysinfo.Proc.{get_process_ppid, list_pids}
use c_ray.Sysinfo.Stat.{StatError}
use c_ray.Sysinfo.Types.{Process}
use c_ray.Text.Basic.{Text}

-- The last process of the list that lives in the namespace under this PID, or else `before`.
abbrev pub last_host : Files → Text → ℤ → List ℤ → Option ℤ → Option ℤ
last_host fs container_ns pid [] before = before
last_host fs container_ns pid (h ∷ hs) before =
    last_host fs container_ns pid hs (elim (namespace_pid fs container_ns h) [
      | none ↦ before
      | some ns_pid ↦ if int_eq ns_pid pid then some h else before
    ])

lookup-ns_pid_loop :
    (fs : Files) (container_ns : Text) (pid : ℤ) (hs : List ℤ) (m : List (ℤ × ℤ))
    → lookup pid (ns_pid_loop fs container_ns m hs)
      ≡ last_host fs container_ns pid hs (lookup pid m)
unfolding ns_pid_loop
lookup-ns_pid_loop fs container_ns pid [] m = refl
lookup-ns_pid_loop fs container_ns pid (h ∷ hs) m =
    elim (Option-cases (namespace_pid fs container_ns h)) [
      | inl e ↦ rw (e, ns_pid_loop) (lookup-ns_pid_loop fs container_ns pid hs m)
      | inr (n, e) ↦
          rw (e, ns_pid_loop)
            (lookup-ns_pid_loop fs container_ns pid hs (insert n h m)
              ∙ ap (last_host fs container_ns pid hs) (lookup-insert n pid h m))
    ]

-- The process that is found lives in the namespace under the PID.
last_host_sound :
    (fs : Files) (container_ns : Text) (pid : ℤ) (hs : List ℤ) (before : Option ℤ) {h : ℤ}
    → last_host fs container_ns pid hs before ≡ some h
    → (before ≡ some h) ⊎ (namespace_pid fs container_ns h ≡ some pid)
last_host_sound fs container_ns pid [] before e = inl e
last_host_sound fs container_ns pid (g ∷ hs) before {h} e =
    elim (Option-cases (namespace_pid fs container_ns g)) [
      | inl miss ↦ last_host_sound fs container_ns pid hs before (rw miss at e)
      | inr (n, hit) ↦
          elim (last_host_sound fs container_ns pid hs (if int_eq n pid then some g else before)
            (rw hit at e)) [
              | inr found ↦ inr found
              | inl now ↦ elim (Bool-cases (int_eq n pid)) [
                | inl same ↦ inr (
                    ap (namespace_pid fs container_ns) (some-injective (sym (rw same at now)))
                    ∙ hit
                    ∙ ap some ((int_eq_iff n pid).0 same))
                | inr other ↦ inl (rw other at now)
              ]
            ]
    ]
  where
    some-injective : {x y : ℤ} → some x ≡ some y → x ≡ y
    some-injective same = cc

-- The host PID of a PID of the container: the last PID that /proc lists of those that live in the
-- container's namespace under it; none where the namespace or the list cannot be read.
abbrev pub host_in : Files → ℤ → Option Text → Option (List ℤ) → Option ℤ
host_in fs pid none hosts = none
host_in fs pid (some container_ns) none = none
host_in fs pid (some container_ns) (some hosts) = last_host fs container_ns pid hosts none

abbrev pub host_of : Files → ℕ → ℤ → Option ℤ
host_of fs container_pid pid =
    host_in fs pid (read_pid_namespace_inode fs host_root (pos container_pid))
      (list_pids fs host_root)

module _ {V : Type 0} where
  -- The process with the host PIDs of itself and of its parent, where there are such.
  abbrev pub with_hosts : Files → ℕ → Process V → Process V
  with_hosts fs container_pid p = record p {
    host_pid = set_or p.host_pid (host_of fs container_pid p.pid);
    host_ppid = set_or p.host_ppid (host_of fs container_pid p.ppid);
  }

  apply_host_pids-host_in :
      (fs : Files) (procs : List (Process V)) (ns : Option Text) (hosts : Option (List ℤ))
      → apply_host_pids procs (ns_pid_map fs ns hosts)
        ≡ map
            (λ (p : Process V). record p {
              host_pid = set_or p.host_pid (host_in fs p.pid ns hosts);
              host_ppid = set_or p.host_ppid (host_in fs p.ppid ns hosts);
            })
            procs
  unfolding apply_host_pids apply_host_pid
  apply_host_pids-host_in fs procs none hosts = sym (map-id procs)
  apply_host_pids-host_in fs procs (some ns) none = sym (map-id procs)
  apply_host_pids-host_in fs procs (some ns) (some hosts) =
      ap (λ f. map f procs)
        (fun_ext (λ (p : Process V).
          ap₂
            (λ (h hp : Option ℤ). record p {
              host_pid = set_or p.host_pid h;
              host_ppid = set_or p.host_ppid hp;
            })
            (lookup-ns_pid_loop fs ns p.pid hosts []) (lookup-ns_pid_loop fs ns p.ppid hosts [])))

  apply_host_pids-with_hosts :
      (fs : Files) (procs : List (Process V)) (container_pid : ℕ)
      → apply_host_pids procs (build_ns_pid_to_host_pid_map fs container_pid)
        ≡ map (with_hosts fs container_pid) procs
  unfolding build_ns_pid_to_host_pid_map
  apply_host_pids-with_hosts fs procs container_pid =
      apply_host_pids-host_in fs procs (read_pid_namespace_inode fs host_root (pos container_pid))
        (list_pids fs host_root)

  -- What the second loop makes of a process: where it is known to the host and its parent is not, it
  -- gets the parent that the host's stat file names, if that can be read and is positive; in every
  -- other case it is left alone.
  pub data IsFilled (fs : Files) (p : Process V) : Process V → Type 0 where
    kept :
        ((ppid : ℤ)
          → is_gap p ≡ true
          → get_process_ppid fs host_root p.host_pid ≡ ok ppid
          → is_positive ppid ≡ false)
        → IsFilled fs p p
    filled :
        (ppid : ℤ)
        → is_gap p ≡ true
        → get_process_ppid fs host_root p.host_pid ≡ ok ppid
        → is_positive ppid ≡ true
        → IsFilled fs p (record p { host_ppid = ppid })

  -- The stat file of the host makes the parser panic.
  abbrev pub IsFatal : Files → Process V → Type 0
  IsFatal fs p = (is_gap p ≡ true) × (get_process_ppid fs host_root p.host_pid ≡ panic)

  fill-IsFilled :
      (fs : Files) (p : Process V) (r : Result StatError ℤ)
      → is_gap p ≡ true
      → get_process_ppid fs host_root p.host_pid ≡ r
      → ((q : Process V) × (fill_host_ppid r p ≡ ok q) × IsFilled fs p q)
        ⊎ (fill_host_ppid r p ≡ panic) × IsFatal fs p
  fill-IsFilled fs p panic gap e = inr (refl, (gap, e))
  fill-IsFilled fs p (err x) gap e = inl (p, refl, kept (λ ppid g k. absurd (ok≢err (sym k ∙ e))))
    where
      ok≢err : {a : ℤ} → ◌≢◌ {A = Result StatError ℤ} (ok a) (err x)
      ok≢err k = cc
  fill-IsFilled fs p (ok ppid) gap e = elim (Bool-cases (is_positive ppid)) [
    | inl above ↦ inl (record p { host_ppid = ppid }, rw above refl, filled ppid gap e above)
    | inr below ↦
        inl (p, rw below refl, kept (λ n g k. ap is_positive (ok-injective (sym k ∙ e)) ∙ below))
  ]

  resolve_gap-IsFilled :
      (fs : Files) (p : Process V)
      → ((q : Process V) × (resolve_gap fs p ≡ ok q) × IsFilled fs p q)
        ⊎ (resolve_gap fs p ≡ panic) × IsFatal fs p
  unfolding resolve_gap
  resolve_gap-IsFilled fs p = elim (Bool-cases (is_gap p)) [
    | inl gap ↦ elim (fill-IsFilled fs p (get_process_ppid fs host_root p.host_pid) gap refl) [
      | inl (q, e, fill) ↦ inl (q, rw gap e, fill)
      | inr (e, fatal) ↦ inr (rw gap e, fatal)
    ]
    | inr no_gap ↦ inl (p, rw no_gap refl, kept (λ n g k. absurd (false≢true (sym no_gap ∙ g))))
  ]

  resolve_gaps-IsFilled :
      (fs : Files) (ps : List (Process V))
      → ((qs : List (Process V)) × (resolve_gaps fs ps ≡ ok qs) × AllPairs (IsFilled fs) ps qs)
        ⊎ (resolve_gaps fs ps ≡ panic) × Any (IsFatal fs) ps
  unfolding resolve_gaps
  resolve_gaps-IsFilled fs [] = inl ([], refl, tt)
  resolve_gaps-IsFilled fs (p ∷ ps) = elim (resolve_gap-IsFilled fs p) [
    | inr (e, fatal) ↦ inr (rw e refl, inl fatal)
    | inl (q, e, fill) ↦ elim (resolve_gaps-IsFilled fs ps) [
      | inl (qs, es, fills) ↦ inl (q ∷ qs, rw (e, es) refl, (fill, fills))
      | inr (es, fatal) ↦ inr (rw (e, es) refl, inr fatal)
    ]
  ]

  -- resolveHostPIDs gives every process the host PIDs of itself and of its parent in the container's
  -- PID namespace, and then the parent's from the host's stat file where that is still missing. It
  -- changes nothing else, neither drops nor reorders a process, and does not return only where the
  -- parser panics on the stat file of a process that has a gap.
  pub resolve_host_pids-IsFilled :
      (fs : Files) (procs : List (Process V)) (container_pid : ℕ)
      → ((qs : List (Process V)) × (resolve_host_pids fs procs container_pid ≡ ok qs)
          × AllPairs (IsFilled fs) (map (with_hosts fs container_pid) procs) qs)
        ⊎ (resolve_host_pids fs procs container_pid ≡ panic)
          × Any (IsFatal fs) (map (with_hosts fs container_pid) procs)
  unfolding resolve_host_pids
  resolve_host_pids-IsFilled fs procs container_pid =
      elim (resolve_gaps-IsFilled fs (map (with_hosts fs container_pid) procs)) [
        | inl (qs, e, fills) ↦ inl (
          qs,
          ap (resolve_gaps fs) (apply_host_pids-with_hosts fs procs container_pid) ∙ e,
          fills,
        )
        | inr (e, fatal) ↦
            inr
              (ap (resolve_gaps fs) (apply_host_pids-with_hosts fs procs container_pid) ∙ e, fatal)
      ]

-- A host PID that is given for a PID of the container is that of a process which lives in the
-- container's namespace and has that PID there.
pub host_of_sound :
    (fs : Files) (container_pid : ℕ) (pid : ℤ) {h : ℤ}
    → host_of fs container_pid pid ≡ some h
    → (ns : Text) × (read_pid_namespace_inode fs host_root (pos container_pid) ≡ some ns)
      × (namespace_pid fs ns h ≡ some pid)
host_of_sound fs container_pid pid {h} e =
    go (read_pid_namespace_inode fs host_root (pos container_pid)) (list_pids fs host_root) refl e
  where
    go :
        (ns : Option Text) (hosts : Option (List ℤ))
        → read_pid_namespace_inode fs host_root (pos container_pid) ≡ ns
        → host_in fs pid ns hosts ≡ some h
        → (n : Text) × (read_pid_namespace_inode fs host_root (pos container_pid) ≡ some n)
          × (namespace_pid fs n h ≡ some pid)
    go none hosts i found = cc
    go (some n) none i found = cc
    go (some n) (some hosts) i found = elim (last_host_sound fs n pid hosts none found) [
      | inl none_before ↦ cc
      | inr lives ↦ (n, i, lives)
    ]
