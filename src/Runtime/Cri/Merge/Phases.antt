-- ===== src/Runtime/Cri/Merge/Phases.antt =====
-- What each phase of the merge shows.
use c_ray.Prelude.{
  All, Bool, List, Option, [], ap, append_assoc, false, inl, refl, subst, sym, true, ◌++◌, ◌∙◌, ◌∷◌,
  ◌≡◌,
}
use c_ray.Runtime.Cri.{CriMount, RuntimeMount}
use c_ray.Runtime.Cri.Destination.{
  clean_dest, normalize_run_alias, same_destination_iff, same_destination_refl,
}
use c_ray.Runtime.Cri.Merge.{
  MergeState, add_row, claim, claim_cri, claim_v1, config_phase, live_phase, merge_config,
  unused_phase,
}
use c_ray.Runtime.Cri.Merge.Covers.{
  HasRow, HasRow-append, HasRow-append_right, IsCovered, IsCovered-append, claim-IsCovered,
  mounts_of, mounts_of-claim,
}
use c_ray.Runtime.Cri.Rows.{build_cri_mount, build_live_extra_mount}
use c_ray.Text.Basic.{Text}

abbrev pub cri_dest : CriMount → Text
cri_dest m = m.container_path

abbrev pub v1_dest : RuntimeMount → Text
v1_dest m = m.destination

-- Every used mount of the three lists is shown.
abbrev pub IsCoveredState : MergeState → Type 0
IsCoveredState s =
    IsCovered cri_dest s.rows s.status_mounts
    × IsCovered v1_dest s.rows s.spec_mounts
    × IsCovered v1_dest s.rows s.live_mounts

-- The lists hold these mounts.
abbrev pub Holds : List CriMount → List RuntimeMount → List RuntimeMount → MergeState → Type 0
Holds status spec live s =
    (mounts_of cri_dest s.status_mounts ≡ status)
    × (mounts_of v1_dest s.spec_mounts ≡ spec)
    × (mounts_of v1_dest s.live_mounts ≡ live)

pub merge_config-IsCovered :
    (cm : CriMount) (s : MergeState) → IsCoveredState s → IsCoveredState (merge_config cm s)
unfolding merge_config
merge_config-IsCovered cm s (h1, h2, h3) =
    let (st, st') = claim_cri cm.container_path s.status_mounts in
    let (sp, sp') = claim_v1 cm.container_path s.spec_mounts in
    let (li, li') = claim_v1 cm.container_path s.live_mounts in
    let r = build_cri_mount cm st sp li in
    (
      unfold build_cri_mount in claim-IsCovered cri_dest s.rows r s.status_mounts h1,
      unfold build_cri_mount in claim-IsCovered v1_dest s.rows r s.spec_mounts h2,
      unfold build_cri_mount in claim-IsCovered v1_dest s.rows r s.live_mounts h3,
    )

pub merge_config-Holds :
    (cm : CriMount) (s : MergeState) {status : List CriMount} {spec live : List RuntimeMount}
    → Holds status spec live s
    → Holds status spec live (merge_config cm s)
unfolding merge_config
merge_config-Holds cm s (h1, h2, h3) = (
  mounts_of-claim cri_dest cm.container_path s.status_mounts ∙ h1,
  mounts_of-claim v1_dest cm.container_path s.spec_mounts ∙ h2,
  mounts_of-claim v1_dest cm.container_path s.live_mounts ∙ h3,
)

pub config_phase-Holds :
    (cms : List CriMount) (s : MergeState) {status : List CriMount} {spec live : List RuntimeMount}
    → Holds status spec live s
    → Holds status spec live (config_phase cms s)
unfolding config_phase
config_phase-Holds [] s h = h
config_phase-Holds (cm ∷ cms) s h =
    config_phase-Holds cms (merge_config cm s) (merge_config-Holds cm s h)

pub config_phase-IsCovered :
    (cms : List CriMount) (s : MergeState) → IsCoveredState s → IsCoveredState (config_phase cms s)
unfolding config_phase
config_phase-IsCovered [] s h = h
config_phase-IsCovered (cm ∷ cms) s h =
    config_phase-IsCovered cms (merge_config cm s) (merge_config-IsCovered cm s h)

-- A row stays.
pub config_phase-HasRow :
    (cms : List CriMount) (s : MergeState) (dest : Text)
    → HasRow s.rows dest
    → HasRow (config_phase cms s).rows dest
unfolding config_phase merge_config
config_phase-HasRow [] s dest h = h
config_phase-HasRow (cm ∷ cms) s dest h =
    config_phase-HasRow cms (merge_config cm s) dest (HasRow-append s.rows _ dest h)

pub merge_config-HasRow :
    (cm : CriMount) (s : MergeState) → HasRow (merge_config cm s).rows cm.container_path
unfolding merge_config
merge_config-HasRow cm s =
    let (st, st') = claim_cri cm.container_path s.status_mounts in
    let (sp, sp') = claim_v1 cm.container_path s.spec_mounts in
    let (li, li') = claim_v1 cm.container_path s.live_mounts in
    HasRow-append_right s.rows (build_cri_mount cm st sp li ∷ []) cm.container_path
      (inl (unfold build_cri_mount in same_destination_refl cm.container_path))

pub config_phase-shows :
    (cms : List CriMount) (s : MergeState)
    → All (λ (cm : CriMount). HasRow (config_phase cms s).rows cm.container_path) cms
unfolding config_phase
config_phase-shows [] s = tt
config_phase-shows (cm ∷ cms) s = (
  config_phase-HasRow cms (merge_config cm s) cm.container_path (merge_config-HasRow cm s),
  config_phase-shows cms (merge_config cm s),
)

module _ {M : Type 0} (dest_of : M → Text) (row : M → Option RuntimeMount → RuntimeMount)
    (row_dest : (m : M) (live : Option RuntimeMount) → (row m live).destination ≡ dest_of m) where
  pub unused_phase-HasRow :
      (ms : List (Bool × M)) (s : MergeState) (dest : Text)
      → HasRow s.rows dest
      → HasRow (unused_phase dest_of row ms s).rows dest
  unfolding unused_phase
  unused_phase-HasRow [] s dest h = h
  unused_phase-HasRow ((true, m) ∷ ms) s dest h = unused_phase-HasRow ms s dest h
  unused_phase-HasRow ((false, m) ∷ ms) s dest h =
      unused_phase-HasRow ms (add_row (dest_of m) (row m) s) dest (HasRow-append s.rows _ dest h)

  -- Every mount of the list is shown after the phase.
  pub unused_phase-shows :
      (ms : List (Bool × M)) (s : MergeState)
      → IsCovered dest_of s.rows ms
      → All (λ m. HasRow (unused_phase dest_of row ms s).rows (dest_of m)) (mounts_of dest_of ms)
  unfolding unused_phase mounts_of
  unused_phase-shows [] s h = tt
  unused_phase-shows ((true, m) ∷ ms) s (shown, h) =
      (unused_phase-HasRow ms s (dest_of m) (shown refl), unused_phase-shows ms s h)
  unused_phase-shows ((false, m) ∷ ms) s (shown, h) =
      let live = (claim_v1 (dest_of m) s.live_mounts).0 in
      let s' = add_row (dest_of m) (row m) s in
      (
        unused_phase-HasRow ms s' (dest_of m) (
            HasRow-append_right s.rows (row m live ∷ []) (dest_of m) (
              inl (
                (same_destination_iff (dest_of m) (row m live).destination).1
                  (ap (λ d. normalize_run_alias (clean_dest d)) (sym (row_dest m live)))))),
        unused_phase-shows ms s' (IsCovered-append dest_of s.rows (row m live ∷ []) ms h),
      )

  -- The live mounts that the phase uses are shown, and none is lost.
  pub unused_phase-live :
      (ms : List (Bool × M)) (s : MergeState)
      → IsCovered v1_dest s.rows s.live_mounts
      → IsCovered v1_dest
          (unused_phase dest_of row ms s).rows
          (unused_phase dest_of row ms s).live_mounts
        × (mounts_of v1_dest (unused_phase dest_of row ms s).live_mounts
            ≡ mounts_of v1_dest s.live_mounts)
        × ((unused_phase dest_of row ms s).spec_mounts ≡ s.spec_mounts)
  unfolding unused_phase
  unused_phase-live [] s h = (h, refl, refl)
  unused_phase-live ((true, m) ∷ ms) s h = unused_phase-live ms s h
  unused_phase-live ((false, m) ∷ ms) s h =
      let live = (claim_v1 (dest_of m) s.live_mounts).0 in
      let (covered, same, spec) = unused_phase-live ms (add_row (dest_of m) (row m) s) (
        subst (λ d. IsCovered v1_dest (s.rows ++ row m live ∷ []) (claim v1_dest d s.live_mounts).1)
          (row_dest m live) (claim-IsCovered v1_dest s.rows (row m live) s.live_mounts h)) in
      (covered, same ∙ mounts_of-claim v1_dest (dest_of m) s.live_mounts, spec)

-- Every live mount is shown at the end.
pub live_phase-shows :
    (rows : List RuntimeMount) (ms : List (Bool × RuntimeMount))
    → IsCovered v1_dest rows ms
    → All
        (λ (m : RuntimeMount). HasRow (rows ++ live_phase ms) m.destination)
        (mounts_of v1_dest ms)
unfolding live_phase mounts_of build_live_extra_mount
live_phase-shows rows [] h = tt
live_phase-shows rows ((true, m) ∷ ms) (shown, h) =
    (HasRow-append rows (live_phase ms) m.destination (shown refl), live_phase-shows rows ms h)
live_phase-shows rows ((false, m) ∷ ms) (shown, h) = (
  HasRow-append_right rows (build_live_extra_mount m ∷ live_phase ms) m.destination
      (inl (same_destination_refl m.destination)),
  subst (λ rs. All (λ (m : RuntimeMount). HasRow rs m.destination) (mounts_of v1_dest ms))
      (append_assoc rows (build_live_extra_mount m ∷ []) (live_phase ms))
      (live_phase-shows (rows ++ build_live_extra_mount m ∷ []) ms
        (IsCovered-append v1_dest rows (build_live_extra_mount m ∷ []) ms h)),
)
