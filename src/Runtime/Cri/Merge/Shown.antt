-- ===== src/Runtime/Cri/Merge/Shown.antt =====
-- The result of the merge shows every mount.
use c_ray.Prelude.{All, List, Option, [], ap, none, refl, some, subst, sym, true, ◌++◌, ◌∙◌, ◌≡◌}
use c_ray.Runtime.Cri.{CriMount, RuntimeMount}
use c_ray.Runtime.Cri.Destination.{same_destination}
use c_ray.Runtime.Cri.Merge.{
  ContainerMounts, MergeState, config_phase, live_phase, merge_mount_sources, merged_rows,
  sort_rows, spec_phase, start_state, status_phase,
}
use c_ray.Runtime.Cri.Merge.Covers.{
  All-HasRow-grow, HasRow, HasRow-append, IsCovered, IsCovered-grow, all_unused-IsCovered,
  mounts_of, mounts_of-all_unused,
}
use c_ray.Runtime.Cri.Merge.Phases.{
  Holds, IsCoveredState, config_phase-Holds, config_phase-IsCovered, config_phase-shows, cri_dest,
  live_phase-shows, unused_phase-HasRow, unused_phase-live, unused_phase-shows, v1_dest,
}
use c_ray.Runtime.Cri.Merge.Sorted.{Any-sort_rows, IsSorted, sort_rows-IsSorted}
use c_ray.Runtime.Cri.Rows.{build_cri_status_only_mount, build_runtime_default_mount}
use c_ray.Text.Basic.{Text}

-- Every mount of the four sources is shown at its destination.
abbrev pub ShowsAll :
    List RuntimeMount
    → List CriMount
    → List CriMount
    → List RuntimeMount
    → List RuntimeMount
    → Type 0
ShowsAll rows config status spec live =
    All (λ (m : CriMount). HasRow rows m.container_path) config
    × All (λ (m : CriMount). HasRow rows m.container_path) status
    × All (λ (m : RuntimeMount). HasRow rows m.destination) spec
    × All (λ (m : RuntimeMount). HasRow rows m.destination) live

-- What is shown before the phases of the status and the spec mounts is shown in the end.
later_HasRow :
    (s : MergeState) (dest : Text)
    → HasRow s.rows dest
    → (let s2 = status_phase s.status_mounts s in
        let s3 = spec_phase s2.spec_mounts s2 in HasRow (s3.rows ++ live_phase s3.live_mounts) dest)
unfolding build_cri_status_only_mount build_runtime_default_mount
later_HasRow s dest h =
    let s2 = status_phase s.status_mounts s in
    let s3 = spec_phase s2.spec_mounts s2 in
    HasRow-append s3.rows (live_phase s3.live_mounts) dest (
      unused_phase-HasRow v1_dest build_runtime_default_mount (λ m l. refl) s2.spec_mounts s2 dest
        (unused_phase-HasRow cri_dest build_cri_status_only_mount (λ m l. refl) s.status_mounts s
          dest h))

-- The phases behind the first, from a state in which every used mount is shown.
later-shows :
    (s : MergeState) {status : List CriMount} {spec live : List RuntimeMount}
    → IsCoveredState s
    → Holds status spec live s
    → (let s2 = status_phase s.status_mounts s in
        let s3 = spec_phase s2.spec_mounts s2 in
        let rows = s3.rows ++ live_phase s3.live_mounts in
        All (λ (m : CriMount). HasRow rows m.container_path) status
        × All (λ (m : RuntimeMount). HasRow rows m.destination) spec
        × All (λ (m : RuntimeMount). HasRow rows m.destination) live)
unfolding build_cri_status_only_mount build_runtime_default_mount
later-shows s {status} {spec} {live} (c1, c2, c3) (h1, h2, h3) =
    let s2 = status_phase s.status_mounts s in
    let s3 = spec_phase s2.spec_mounts s2 in
    let rows = s3.rows ++ live_phase s3.live_mounts in
    let (l2, m2, e2) =
      unused_phase-live cri_dest build_cri_status_only_mount (λ m l. refl) s.status_mounts s c3 in
    let (l3, m3, e3) =
      unused_phase-live v1_dest build_runtime_default_mount (λ m l. refl) s2.spec_mounts s2 l2 in
    (
      subst (λ ms. All (λ (m : CriMount). HasRow rows m.container_path) ms) h1
          (All-HasRow-grow cri_dest s2.rows rows (mounts_of cri_dest s.status_mounts)
            (λ dest shown. HasRow-append s3.rows (live_phase s3.live_mounts) dest (
              unused_phase-HasRow v1_dest build_runtime_default_mount (λ m l. refl) s2.spec_mounts
                s2 dest shown))
            (unused_phase-shows cri_dest build_cri_status_only_mount (λ m l. refl) s.status_mounts s
              c1)),
      subst (λ ms. All (λ (m : RuntimeMount). HasRow rows m.destination) ms)
          (ap (mounts_of v1_dest) e2 ∙ h2)
          (All-HasRow-grow v1_dest s3.rows rows (mounts_of v1_dest s2.spec_mounts)
            (λ dest shown. HasRow-append s3.rows (live_phase s3.live_mounts) dest shown)
            (unused_phase-shows v1_dest build_runtime_default_mount (λ m l. refl) s2.spec_mounts s2
              (subst (IsCovered v1_dest s2.rows) (sym e2) (
                IsCovered-grow v1_dest s.rows s2.rows s.spec_mounts
                  (unused_phase-HasRow cri_dest build_cri_status_only_mount (λ m l. refl)
                    s.status_mounts s)
                  c2)))),
      subst (λ ms. All (λ (m : RuntimeMount). HasRow rows m.destination) ms) (m3 ∙ m2 ∙ h3)
          (live_phase-shows s3.rows s3.live_mounts l3),
    )

merged_rows-ShowsAll :
    (config status : List CriMount) (spec live : List RuntimeMount)
    → ShowsAll (merged_rows config status spec live) config status spec live
unfolding merged_rows
merged_rows-ShowsAll config status spec live =
    let s0 = start_state status spec live in
    let later =
      later-shows (config_phase config s0)
        (config_phase-IsCovered config s0 (
          all_unused-IsCovered cri_dest [] status,
          all_unused-IsCovered v1_dest [] spec,
          all_unused-IsCovered v1_dest [] live,
        ))
        (config_phase-Holds config s0 (
          mounts_of-all_unused cri_dest status,
          mounts_of-all_unused v1_dest spec,
          mounts_of-all_unused v1_dest live,
        )) in
    (
      All-HasRow-grow cri_dest (config_phase config s0).rows (merged_rows config status spec live)
          config (later_HasRow (config_phase config s0)) (config_phase-shows config s0),
      later.0,
      later.1,
      later.2,
    )

abbrev pub config_of : Option ContainerMounts → List CriMount
config_of none = []
config_of (some cri) = cri.config_mounts

abbrev pub status_of : Option ContainerMounts → List CriMount
status_of none = []
status_of (some cri) = cri.status_mounts

sort_rows-ShowsAll :
    (rows : List RuntimeMount) (config status : List CriMount) (spec live : List RuntimeMount)
    → ShowsAll rows config status spec live
    → ShowsAll (sort_rows rows) config status spec live
sort_rows-ShowsAll rows config status spec live (h1, h2, h3, h4) = (
  All-HasRow-grow cri_dest rows (sort_rows rows) config grow h1,
  All-HasRow-grow cri_dest rows (sort_rows rows) status grow h2,
  All-HasRow-grow v1_dest rows (sort_rows rows) spec grow h3,
  All-HasRow-grow v1_dest rows (sort_rows rows) live grow h4,
)
  where
    grow : (dest : Text) → HasRow rows dest → HasRow (sort_rows rows) dest
    grow dest h =
        Any-sort_rows (λ (r : RuntimeMount). same_destination dest r.destination ≡ true) rows h

-- MergeMountSources loses no mount: for every mount that the CRI configures or reports, that the spec
-- has or that is live, a row stands at its destination, up to the names /var/run and /run of one
-- directory. The rows are sorted: none is less than the one before it, by the rank of the origin,
-- then the destination, the source and the type.
pub merge_mount_sources-ShowsAll :
    (cri : Option ContainerMounts) (spec live : List RuntimeMount)
    → IsSorted (merge_mount_sources cri spec live)
      × ShowsAll (merge_mount_sources cri spec live) (config_of cri) (status_of cri) spec live
unfolding merge_mount_sources
merge_mount_sources-ShowsAll none spec live = (
  sort_rows-IsSorted (merged_rows [] [] spec live),
  sort_rows-ShowsAll (merged_rows [] [] spec live) [] [] spec live
      (merged_rows-ShowsAll [] [] spec live),
)
merge_mount_sources-ShowsAll (some cri) spec live = (
  sort_rows-IsSorted (merged_rows cri.config_mounts cri.status_mounts spec live),
  sort_rows-ShowsAll (merged_rows cri.config_mounts cri.status_mounts spec live) cri.config_mounts
      cri.status_mounts spec live
      (merged_rows-ShowsAll cri.config_mounts cri.status_mounts spec live),
)
