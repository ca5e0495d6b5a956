-- ===== src/Runtime/Cri/Merge/Covers.antt =====
-- No mount is lost in the merge.
use mathlib.Core.Bool.{false≢true}
use c_ray.Prelude.{
  All, All-map, Any, Bool, Bool-cases, List, [], ap, arith, inl, inr, map, not, refl, true, ◌&&◌,
  ◌++◌, ◌∷◌, ◌≡◌,
}
use c_ray.Runtime.Cri.{RuntimeMount}
use c_ray.Runtime.Cri.Destination.{same_destination}
use c_ray.Runtime.Cri.Merge.{all_unused, claim}
use c_ray.Text.Basic.{Text}

-- A row stands at the destination.
abbrev pub HasRow : List RuntimeMount → Text → Type 0
HasRow rows dest = Any (λ (r : RuntimeMount). same_destination dest r.destination ≡ true) rows

pub HasRow-append :
    (rows more : List RuntimeMount) (dest : Text) → HasRow rows dest → HasRow (rows ++ more) dest
HasRow-append (r ∷ rows) more dest (inl here) = inl here
HasRow-append (r ∷ rows) more dest (inr later) = inr (HasRow-append rows more dest later)
HasRow-append [] more dest nobody = absurd nobody

pub HasRow-append_right :
    (rows more : List RuntimeMount) (dest : Text) → HasRow more dest → HasRow (rows ++ more) dest
HasRow-append_right [] more dest h = h
HasRow-append_right (r ∷ rows) more dest h = inr (HasRow-append_right rows more dest h)

module _ {M : Type 0} (dest_of : M → Text) where
  -- Every mount that is used is shown.
  abbrev pub IsCovered : List RuntimeMount → List (Bool × M) → Type 0
  IsCovered rows = All (λ (e : Bool × M). e.0 ≡ true → HasRow rows (dest_of e.1))

  pub IsCovered-append :
      (rows more : List RuntimeMount) (ms : List (Bool × M))
      → IsCovered rows ms
      → IsCovered (rows ++ more) ms
  IsCovered-append rows more ms h =
      All-map
        (λ (e : Bool × M) (shown : e.0 ≡ true → HasRow rows (dest_of e.1)).
          λ used. HasRow-append rows more (dest_of e.1) (shown used))
        ms h

  -- The mount that a row claims is shown by that row.
  pub claim-IsCovered :
      (rows : List RuntimeMount) (r : RuntimeMount) (ms : List (Bool × M))
      → IsCovered rows ms
      → IsCovered (rows ++ r ∷ []) (claim dest_of r.destination ms).1
  unfolding claim
  claim-IsCovered rows r [] h = tt
  claim-IsCovered rows r ((used, m) ∷ ms) (shown, h) =
      elim (Bool-cases (not used && same_destination (dest_of m) r.destination)) [
        | inl hit ↦
            rw (hit, claim)
              (
                λ u. HasRow-append_right rows (r ∷ []) (dest_of m) (inl (ground arith)),
                IsCovered-append rows (r ∷ []) ms h,
              )
        | inr miss ↦
            rw (miss, claim)
              (λ u. HasRow-append rows (r ∷ []) (dest_of m) (shown u), claim-IsCovered rows r ms h)
      ]

  -- What holds of rows holds of others that show as much.
  pub IsCovered-grow :
      (rows more : List RuntimeMount) (ms : List (Bool × M))
      → ((dest : Text) → HasRow rows dest → HasRow more dest)
      → IsCovered rows ms
      → IsCovered more ms
  IsCovered-grow rows more ms grow h =
      All-map
        (λ (e : Bool × M) (shown : e.0 ≡ true → HasRow rows (dest_of e.1)).
          λ used. grow (dest_of e.1) (shown used))
        ms h

  pub All-HasRow-grow :
      (rows more : List RuntimeMount) (ms : List M)
      → ((dest : Text) → HasRow rows dest → HasRow more dest)
      → All (λ m. HasRow rows (dest_of m)) ms
      → All (λ m. HasRow more (dest_of m)) ms
  All-HasRow-grow rows more ms grow h =
      All-map (λ m (shown : HasRow rows (dest_of m)). grow (dest_of m) shown) ms h

  unfoldable pub mounts_of : List (Bool × M) → List M
  mounts_of = map (λ (e : Bool × M). e.1)

  pub mounts_of-claim :
      (dest : Text) (ms : List (Bool × M)) → mounts_of (claim dest_of dest ms).1 ≡ mounts_of ms
  unfolding claim mounts_of
  mounts_of-claim dest [] = refl
  mounts_of-claim dest ((used, m) ∷ ms) =
      elim (Bool-cases (not used && same_destination (dest_of m) dest)) [
        | inl hit ↦ rw (hit, claim) refl
        | inr miss ↦ rw (miss, claim) (ap (◌∷◌ m) (mounts_of-claim dest ms))
      ]

  pub all_unused-IsCovered :
      (rows : List RuntimeMount) (ms : List M) → IsCovered rows (all_unused ms)
  all_unused-IsCovered rows [] = tt
  all_unused-IsCovered rows (m ∷ ms) = (λ u. absurd (false≢true u), all_unused-IsCovered rows ms)

  pub mounts_of-all_unused : (ms : List M) → mounts_of (all_unused ms) ≡ ms
  unfolding mounts_of
  mounts_of-all_unused [] = refl
  mounts_of-all_unused (m ∷ ms) = ap (◌∷◌ m) (mounts_of-all_unused ms)
