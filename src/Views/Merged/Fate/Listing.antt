-- ===== src/Views/Merged/Fate/Listing.antt =====
-- What the merge of one listing makes of a name.
-- What a listing makes of a name: its entry, whether its whiteout and the opaque marker are listed, and
-- what the maps hold before.
use mathlib.Core.Bool.{false≢true}
use c_ray.Files.{DirEntry}
use c_ray.Map.{text_key}
use c_ray.Prelude.{
  Bool, Bool-cases, List, Option, [], ap, arith, false, inl, inr, none, refl, some, subst, sym,
  true, ℕ, ◌++◌, ◌∙◌, ◌∷◌, ◌≡◌,
}
use c_ray.Prelude.Int.{int_ltb, pos}
use c_ray.Text.Basic.{Text, has_prefix, has_prefix-append, text_eq, text_eq_iff, text_eq_refl}
use c_ray.Views.Merged.{added_node, opaque_marker, whiteout_prefix}
use c_ray.Views.Merged.Fate.{
  Fate, IsFileName, IsListing, clear, entry_in, has_entry, step, steps, text_eq-has_prefix,
}

abbrev pub settle : Text → ℕ → Option DirEntry → Bool → Bool → Fate → Fate
settle rel_dir index (some de) w o f = (some (added_node rel_dir index de), none)
settle rel_dir index none true o f = (none, some (pos index))
settle rel_dir index none false true f = clear index f
settle rel_dir index none false false f = f

unfoldable pub outcome : Text → ℕ → Text → List DirEntry → Fate → Fate
outcome rel_dir index name des =
    settle rel_dir index (entry_in name des) (has_entry (whiteout_prefix ++ name) des)
      (has_entry opaque_marker des)

-- Neither the name nor its whiteout is listed.
abbrev IsUnmentioned : Text → List DirEntry → Type 0
IsUnmentioned name des =
    (entry_in name des ≡ none) × (has_entry (whiteout_prefix ++ name) des ≡ false)

IsUnmentioned-behind_entry :
    (de : DirEntry) (des : List DirEntry) (name : Text)
    → IsListing (de ∷ des)
    → text_eq de.name name ≡ true
    → IsUnmentioned name des
unfolding entry_in
IsUnmentioned-behind_entry de [] name h e = (refl, refl)
IsUnmentioned-behind_entry de (d ∷ des) name (((h1, h2, h3), hs), (h4, h5)) e =
    let e' = (text_eq_iff de.name name).0 e in
    let ih = IsUnmentioned-behind_entry de des name (hs, h5) e in
    (
      rw (subst (λ x. text_eq d.name x ≡ false) e' h1) (ih.0),
      rw (subst (λ x. text_eq d.name (whiteout_prefix ++ x) ≡ false) e' h2) (ih.1),
    )

IsUnmentioned-behind_whiteout :
    (de : DirEntry) (des : List DirEntry) (name : Text)
    → IsListing (de ∷ des)
    → text_eq de.name (whiteout_prefix ++ name) ≡ true
    → IsUnmentioned name des
unfolding entry_in
IsUnmentioned-behind_whiteout de [] name h e = (refl, refl)
IsUnmentioned-behind_whiteout de (d ∷ des) name (((h1, h2, h3), hs), (h4, h5)) e =
    let e' = (text_eq_iff de.name (whiteout_prefix ++ name)).0 e in
    let ih = IsUnmentioned-behind_whiteout de des name (hs, h5) e in
    (
      rw (differ d.name (subst (λ x. text_eq x (whiteout_prefix ++ d.name) ≡ false) e' h3)) (ih.0),
      rw (subst (λ x. text_eq d.name x ≡ false) e' h1) (ih.1),
    )
  where
    differ :
        (n : Text)
        → text_eq (whiteout_prefix ++ name) (whiteout_prefix ++ n) ≡ false
        → text_eq n name ≡ false
    differ n h' = elim (Bool-cases (text_eq n name)) [
      | inl t ↦ absurd (
          false≢true (
            sym h'
            ∙ ap (λ x. text_eq (whiteout_prefix ++ name) (whiteout_prefix ++ x))
                ((text_eq_iff n name).0 t)
            ∙ text_eq_refl (whiteout_prefix ++ name)))
      | inr t ↦ t
    ]

clear-clear : (index : ℕ) (f : Fate) → clear index (clear index f) ≡ clear index f
unfolding clear
clear-clear index (none, none) = refl
clear-clear index (none, some d) = ground arith
clear-clear index (some n, none) = ground arith
clear-clear index (some n, some d) = ground arith

-- The marker is no whiteout of the name of a file.
opaque_marker-whiteout :
    (name : Text) → IsFileName name → text_eq opaque_marker (whiteout_prefix ++ name) ≡ false
unfolding text_eq has_prefix
opaque_marker-whiteout [] h = refl
opaque_marker-whiteout (a ∷ []) h = ground arith
opaque_marker-whiteout (a ∷ b ∷ []) h = ground arith
opaque_marker-whiteout (a ∷ b ∷ c ∷ []) h = ground arith
opaque_marker-whiteout (a ∷ b ∷ c ∷ d ∷ s) h = ground arith

settle-clear :
    (rel_dir : Text) (index : ℕ) (entry : Option DirEntry) (w o : Bool) (f : Fate)
    → settle rel_dir index entry w o (clear index f) ≡ settle rel_dir index entry w true f
settle-clear rel_dir index (some de) w o f = refl
settle-clear rel_dir index none true o f = refl
settle-clear rel_dir index none false true f = clear-clear index f
settle-clear rel_dir index none false false f = refl

-- A marker or an entry of this layer outlives its opaque marker.
settle-own :
    (rel_dir : Text) (index : ℕ) (o : Bool) (f : Fate)
    → clear index f ≡ f
    → settle rel_dir index none false o f ≡ f
settle-own rel_dir index true f h = h
settle-own rel_dir index false f h = refl

clear-own :
    (rel_dir : Text) (index : ℕ) (de : DirEntry)
    → (clear index (none, some (pos index)) ≡ (none, some (pos index)))
      × (clear index (some (added_node rel_dir index de), none)
          ≡ (some (added_node rel_dir index de), none))
unfolding clear int_ltb
clear-own rel_dir index de = (ground arith, ground arith)

opaque_marker-prefix : has_prefix whiteout_prefix opaque_marker ≡ true
unfolding has_prefix
opaque_marker-prefix = refl

-- The outcome of a listing from its first entry on.
outcome-step :
    (rel_dir : Text) (index : ℕ) (name : Text) (de : DirEntry) (des : List DirEntry) (f : Fate)
    → IsFileName name
    → IsListing (de ∷ des)
    → outcome rel_dir index name des (step rel_dir index name de f)
      ≡ outcome rel_dir index name (de ∷ des) f
unfolding step outcome entry_in clear
outcome-step rel_dir index name de des f file h =
    elim (Bool-cases (text_eq de.name opaque_marker)) [
      | inl e ↦
          let e' = (text_eq_iff de.name opaque_marker).0 e in
          let n =
            subst (λ x. text_eq x name ≡ false) (sym e')
              (text_eq-has_prefix whiteout_prefix opaque_marker name opaque_marker-prefix file).0 in
          let w =
            subst (λ x. text_eq x (whiteout_prefix ++ name) ≡ false) (sym e')
              (opaque_marker-whiteout name file) in
          rw e (
            rw n (
              rw w (
                settle-clear rel_dir index (entry_in name des)
                  (has_entry (whiteout_prefix ++ name) des) (has_entry opaque_marker des) f)))
      | inr e ↦ elim (Bool-cases (text_eq de.name (whiteout_prefix ++ name))) [
        | inl w ↦
            let (no_entry, no_whiteout) = IsUnmentioned-behind_whiteout de des name h w in
            let w' = (text_eq_iff de.name (whiteout_prefix ++ name)).0 w in
            let n =
              subst (λ x. text_eq x name ≡ false) (sym w')
                (text_eq-has_prefix whiteout_prefix (whiteout_prefix ++ name) name
                  (has_prefix-append whiteout_prefix name) file).0 in
            rw e (
              rw w (
                rw n (
                  rw no_entry (
                    rw no_whiteout (
                      settle-own rel_dir index (has_entry opaque_marker des)
                        (none, some (pos index)) ((clear-own rel_dir index de).0))))))
        | inr w ↦ elim (Bool-cases (text_eq de.name name)) [
          | inl n ↦
              let (no_entry, no_whiteout) = IsUnmentioned-behind_entry de des name h n in
              rw e (
                rw w (
                  rw n (
                    rw no_entry (
                      rw no_whiteout (
                        settle-own rel_dir index (has_entry opaque_marker des)
                          (some (added_node rel_dir index de), none)
                          ((clear-own rel_dir index de).1))))))
          | inr n ↦ rw e (rw w (rw n refl))
        ]
      ]
    ]

pub steps-outcome :
    (rel_dir : Text) (index : ℕ) (name : Text) (des : List DirEntry) (f : Fate)
    → IsFileName name
    → IsListing des
    → steps rel_dir index name des f ≡ outcome rel_dir index name des f
unfolding steps
steps-outcome rel_dir index name [] f file h = unfold outcome entry_in in refl
steps-outcome rel_dir index name (de ∷ des) f file h =
    steps-outcome rel_dir index name des (step rel_dir index name de f) file h.1
    ∙ outcome-step rel_dir index name de des f file h
