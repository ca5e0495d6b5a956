-- ===== src/Runtime/Docker/Mounts/Shown.antt =====
-- The merge of the docker mounts shows every mount.
use c_ray.Prelude.{
  All, Bool, List, Option, [], ap, inl, none, refl, some, subst, sym, ◌++◌, ◌∙◌, ◌∷◌, ◌≡◌,
}
use c_ray.Runtime.Cri.{RuntimeMount}
use c_ray.Runtime.Cri.Destination.{clean_dest, normalize_run_alias, same_destination_iff}
use c_ray.Runtime.Cri.Merge.{MergeState, claim, claim_v1, live_phase, spec_phase, start_state}
use c_ray.Runtime.Cri.Merge.Covers.{
  All-HasRow-grow, HasRow, HasRow-append, HasRow-append_right, IsCovered, all_unused-IsCovered,
  claim-IsCovered, mounts_of, mounts_of-all_unused, mounts_of-claim,
}
use c_ray.Runtime.Cri.Merge.Phases.{
  live_phase-shows, unused_phase-HasRow, unused_phase-live, unused_phase-shows, v1_dest,
}
use c_ray.Runtime.Cri.Rows.{build_runtime_default_mount}
use c_ray.Runtime.Docker.Mounts.{declared_loop, declared_row, merge_declared, merge_docker_mounts}
use c_ray.Text.Basic.{Text}

declared_row-destination :
    (dm : RuntimeMount) (live : Option RuntimeMount)
    → (declared_row dm live).destination ≡ dm.destination
unfolding declared_row
declared_row-destination dm none = refl
declared_row-destination dm (some lm) = refl

-- The used mounts of the spec and of the live list are shown.
abbrev IsCoveredMerge : MergeState → Type 0
IsCoveredMerge s = IsCovered v1_dest s.rows s.spec_mounts × IsCovered v1_dest s.rows s.live_mounts

abbrev HoldsMounts : List RuntimeMount → List RuntimeMount → MergeState → Type 0
HoldsMounts spec live s =
    (mounts_of v1_dest s.spec_mounts ≡ spec) × (mounts_of v1_dest s.live_mounts ≡ live)

-- A mount that is claimed for a row is shown by it.
claim_row-IsCovered :
    (dm : RuntimeMount) (live : Option RuntimeMount) (rows : List RuntimeMount)
    (ms : List (Bool × RuntimeMount))
    → IsCovered v1_dest rows ms
    → IsCovered v1_dest (rows ++ declared_row dm live ∷ []) (claim v1_dest dm.destination ms).1
claim_row-IsCovered dm live rows ms h =
    subst (λ d. IsCovered v1_dest (rows ++ declared_row dm live ∷ []) (claim v1_dest d ms).1)
      (declared_row-destination dm live) (claim-IsCovered v1_dest rows (declared_row dm live) ms h)

merge_declared_lem :
    (dm : RuntimeMount) (s : MergeState) (spec live : List RuntimeMount)
    → IsCoveredMerge s
    → HoldsMounts spec live s
    → IsCoveredMerge (merge_declared dm s) × HoldsMounts spec live (merge_declared dm s)
unfolding merge_declared
merge_declared_lem dm s spec live (c1, c2) (h1, h2) =
    let match = (claim_v1 dm.destination s.live_mounts).0 in
    (
      (
        claim_row-IsCovered dm match s.rows s.spec_mounts c1,
        claim_row-IsCovered dm match s.rows s.live_mounts c2,
      ),
      (
        mounts_of-claim v1_dest dm.destination s.spec_mounts ∙ h1,
        mounts_of-claim v1_dest dm.destination s.live_mounts ∙ h2,
      ),
    )

merge_declared-HasRow :
    (dm : RuntimeMount) (s : MergeState) → HasRow (merge_declared dm s).rows dm.destination
unfolding merge_declared
merge_declared-HasRow dm s =
    let live = (claim_v1 dm.destination s.live_mounts).0 in
    HasRow-append_right s.rows (declared_row dm live ∷ []) dm.destination (
      inl (
        (same_destination_iff dm.destination (declared_row dm live).destination).1
          (ap (λ d. normalize_run_alias (clean_dest d)) (sym (declared_row-destination dm live)))))

declared_loop-HasRow :
    (dms : List RuntimeMount) (s : MergeState) (dest : Text)
    → HasRow s.rows dest
    → HasRow (declared_loop dms s).rows dest
unfolding declared_loop merge_declared
declared_loop-HasRow [] s dest h = h
declared_loop-HasRow (dm ∷ dms) s dest h =
    declared_loop-HasRow dms (merge_declared dm s) dest (HasRow-append s.rows _ dest h)

declared_loop_lem :
    (dms : List RuntimeMount) (s : MergeState) (spec live : List RuntimeMount)
    → IsCoveredMerge s
    → HoldsMounts spec live s
    → IsCoveredMerge (declared_loop dms s)
      × HoldsMounts spec live (declared_loop dms s)
      × All (λ (m : RuntimeMount). HasRow (declared_loop dms s).rows m.destination) dms
unfolding declared_loop
declared_loop_lem [] s spec live c h = (c, h, tt)
declared_loop_lem (dm ∷ dms) s spec live c h =
    let (c', h') = merge_declared_lem dm s spec live c h in
    let (c'', h'', shown) = declared_loop_lem dms (merge_declared dm s) spec live c' h' in
    (
      c'',
      h'',
      (
        declared_loop-HasRow dms (merge_declared dm s) dm.destination (merge_declared-HasRow dm s),
        shown,
      ),
    )

-- mergeDockerMounts loses no mount: for every mount that docker declares, that the spec has or that is
-- live, a row stands at its destination, up to the names /var/run and /run of one directory.
pub merge_docker_mounts-shows :
    (declared spec live : List RuntimeMount)
    → All
        (λ (m : RuntimeMount). HasRow (merge_docker_mounts declared spec live) m.destination)
        declared
      × All
          (λ (m : RuntimeMount). HasRow (merge_docker_mounts declared spec live) m.destination)
          spec
      × All
          (λ (m : RuntimeMount). HasRow (merge_docker_mounts declared spec live) m.destination)
          live
unfolding merge_docker_mounts build_runtime_default_mount
merge_docker_mounts-shows declared spec live =
    let s1 = declared_loop declared (start_state [] spec live) in
    let s2 = spec_phase s1.spec_mounts s1 in
    let rows = s2.rows ++ live_phase s2.live_mounts in
    let ((c1, c2), (h1, h2), shown) =
      declared_loop_lem declared (start_state [] spec live) spec live
        (all_unused-IsCovered v1_dest [] spec, all_unused-IsCovered v1_dest [] live)
        (mounts_of-all_unused v1_dest spec, mounts_of-all_unused v1_dest live) in
    let (l2, m2, e2) =
      unused_phase-live v1_dest build_runtime_default_mount (λ m l. refl) s1.spec_mounts s1 c2 in
    (
      All-HasRow-grow v1_dest s1.rows rows declared
          (λ dest h. HasRow-append s2.rows (live_phase s2.live_mounts) dest (
            unused_phase-HasRow v1_dest build_runtime_default_mount (λ m l. refl) s1.spec_mounts s1
              dest h))
          shown,
      subst (λ ms. All (λ (m : RuntimeMount). HasRow rows m.destination) ms) h1
          (All-HasRow-grow v1_dest s2.rows rows (mounts_of v1_dest s1.spec_mounts)
            (λ dest h. HasRow-append s2.rows (live_phase s2.live_mounts) dest h)
            (unused_phase-shows v1_dest build_runtime_default_mount (λ m l. refl) s1.spec_mounts s1
              c1)),
      subst (λ ms. All (λ (m : RuntimeMount). HasRow rows m.destination) ms) (m2 ∙ h2)
          (live_phase-shows s2.rows s2.live_mounts l2),
    )
