-- ===== src/Navigation/History.antt =====
-- The page that is shown and the history of the navigator agree.
use c_ray.Map.{lookup, text_key}
use c_ray.Navigation.{
  Navigator, back, back_unless, current_page, drop_last, last_page, navigate_to,
  navigate_to_and_focus, new_navigator, page_focus, register_focus, set_focus, show_previous,
  switch_to_page,
}
use c_ray.Prelude.{
  Bool, List, Option, [], ap, arith, false, leb, length, length-append, none, refl, some, sym, true,
  ℕ, ◌++◌, ◌∙◌, ◌∷◌, ◌≡◌, ◌≢◌,
}
use c_ray.Text.Basic.{Text}

last_page-append : (ps : List Text) (p : Text) → last_page (ps ++ p ∷ []) ≡ some p
unfolding last_page
last_page-append [] p = refl
last_page-append (q ∷ []) p = refl
last_page-append (q ∷ r ∷ ps) p = last_page-append (r ∷ ps) p

drop_last-append : (ps : List Text) (p : Text) → drop_last (ps ++ p ∷ []) ≡ ps
unfolding drop_last
drop_last-append [] p = refl
drop_last-append (q ∷ []) p = refl
drop_last-append (q ∷ r ∷ ps) p = ap (◌∷◌ q) (drop_last-append (r ∷ ps) p)

-- What a user of the navigator can do.
pub data Step (n : Navigator) : Navigator → Type 0 where
  register : (page : Text) (focus : Option ℕ) → Step n (register_focus page focus n)
  navigate : (page : Text) → Step n (navigate_to page n)
  navigate_and_focus :
      (page : Text) (focus : Option ℕ) → Step n (navigate_to_and_focus page focus n)
  go_back : Step n (back n).0

pub data Reach (n : Navigator) : Navigator → Type 0 where
  at_start : Reach n n
  then_step : {m k : Navigator} → Reach n m → Step m k → Reach n k

-- Once there is a history, the page in front is its last page.
abbrev pub IsShown : Navigator → Type 0
IsShown n = n.history ≢ [] → last_page n.history ≡ n.front

set_focus-history : (focus : Option ℕ) (n : Navigator) → (set_focus focus n).history ≡ n.history
set_focus-history none n = refl
set_focus-history (some p) n = refl

set_focus-front : (focus : Option ℕ) (n : Navigator) → (set_focus focus n).front ≡ n.front
set_focus-front none n = refl
set_focus-front (some p) n = refl

-- A page shown on top of a history.
set_focus-IsShown :
    (focus : Option ℕ) (n : Navigator) → last_page n.history ≡ n.front → IsShown (set_focus focus n)
set_focus-IsShown none n h = λ _. h
set_focus-IsShown (some p) n h = λ _. h

show_previous-IsShown :
    (o : Option Text) (n : Navigator) → last_page n.history ≡ o → IsShown (show_previous o n)
unfolding last_page
show_previous-IsShown none n h = λ ne. absurd (no_last n.history ne h)
  where
    no_last : (ps : List Text) → ps ≢ [] → last_page ps ≡ none → ⊥
    no_last [] ne e = ne refl
    no_last (p ∷ []) ne e = cc
    no_last (p ∷ q ∷ ps) ne e = no_last (q ∷ ps) (λ e. cc) e
show_previous-IsShown (some page) n h =
    set_focus-IsShown (page_focus page n) (switch_to_page page n) h

back_unless-IsShown : (b : Bool) (n : Navigator) → IsShown n → IsShown (back_unless b n).0
back_unless-IsShown true n h = h
back_unless-IsShown false n h =
    show_previous-IsShown (last_page (drop_last n.history))
      (record n { history = drop_last n.history }) refl

Step-IsShown : {n m : Navigator} → Step n m → IsShown n → IsShown m
unfolding register_focus navigate_to navigate_to_and_focus back
Step-IsShown {n} (register page focus) h = h
Step-IsShown {n} (navigate page) h =
    set_focus-IsShown (page_focus page n)
      (switch_to_page page (record n { history = n.history ++ page ∷ [] }))
      (last_page-append n.history page)
Step-IsShown {n} (navigate_and_focus page focus) h =
    set_focus-IsShown focus (switch_to_page page (record n { history = n.history ++ page ∷ [] }))
      (last_page-append n.history page)
Step-IsShown {n} go_back h = back_unless-IsShown (leb (length n.history) 1) n h

Reach-IsShown : {n m : Navigator} → IsShown n → Reach n m → IsShown m
Reach-IsShown h at_start = h
Reach-IsShown h (then_step r st) = Step-IsShown st (Reach-IsShown h r)

current_page-last : (n : Navigator) → n.history ≢ [] → last_page n.history ≡ some (current_page n)
unfolding current_page
current_page-last n ne = go (last_page n.history) (no_last n.history ne)
  where
    no_last : (ps : List Text) → ps ≢ [] → last_page ps ≢ none
    no_last [] ne e = ne refl
    no_last (p ∷ []) ne e = cc
    no_last (p ∷ q ∷ ps) ne e = no_last (q ∷ ps) (λ e. cc) e

    go : (o : Option Text) → o ≢ none → o ≡ some (elim o [ none ↦ [] | some p ↦ p ])
    go none h = absurd (h refl)
    go (some p) h = refl

-- In every state that a new navigator reaches, CurrentPage is the page that tview shows, once a page
-- has been visited.
pub current_page-front :
    (front : Option Text) (focused : Option ℕ) {n : Navigator}
    → Reach (new_navigator front focused) n
    → n.history ≢ []
    → n.front ≡ some (current_page n)
current_page-front front focused {n} r ne =
    sym (Reach-IsShown (λ h. absurd (h refl)) r ne) ∙ current_page-last n ne

set_focus-focuses :
    (focus : Option ℕ) (n : Navigator) → (set_focus focus n).page_focuses ≡ n.page_focuses
set_focus-focuses none n = refl
set_focus-focuses (some p) n = refl

append-two-length :
    (ps : List Text) (p q : Text) → leb (length ((ps ++ p ∷ []) ++ q ∷ [])) 1 ≡ false
append-two-length ps p q =
    ground (arith, length-append (ps ++ p ∷ []) (q ∷ []), length-append ps (p ∷ []))

drop_last-two : (ps : List Text) (p q : Text) → drop_last ((ps ++ p ∷ []) ++ q ∷ []) ≡ ps ++ p ∷ []
drop_last-two ps p q = drop_last-append (ps ++ p ∷ []) q

-- The page to go back to is shown with its focus.
show_previous-page :
    (o : Option Text) (n : Navigator) (from : Text)
    → o ≡ some from
    → ((show_previous o n).history ≡ n.history)
      × ((show_previous o n).front ≡ some from)
      × ((p : ℕ)
          → lookup from n.page_focuses ≡ some (some p)
          → (show_previous o n).focused ≡ some p)
show_previous-page none n from e = absurd (none_some e)
  where
    none_some : none ≡ some from → ⊥
    none_some h = cc
show_previous-page (some page) n from e = (
  set_focus-history (page_focus page n) (switch_to_page page n),
  set_focus-front (page_focus page n) (switch_to_page page n) ∙ e,
  λ p h. focused_page p (
      ap (λ o. elim o [ none ↦ none | some focus ↦ focus ])
        (ap (λ q. lookup q n.page_focuses) (some-injective e) ∙ h)),
)
  where
    focused_page :
        (p : ℕ)
        → page_focus page n ≡ some p
        → (set_focus (page_focus page n) (switch_to_page page n)).focused ≡ some p
    focused_page p h = rw h refl

    some-injective : some page ≡ some from → page ≡ from
    some-injective h = cc

-- Back after a navigation from a page, the last of the history, undoes it: the history is the old
-- one, the page is shown again, and if a focus is registered for it that primitive has the focus.
pub back-navigate_to :
    (n : Navigator) (ps : List Text) (from to : Text)
    → n.history ≡ ps ++ from ∷ []
    → ((back (navigate_to to n)).1 ≡ true)
      × ((back (navigate_to to n)).0.history ≡ n.history)
      × ((back (navigate_to to n)).0.front ≡ some from)
      × ((p : ℕ)
          → lookup from n.page_focuses ≡ some (some p)
          → (back (navigate_to to n)).0.focused ≡ some p)
unfolding back
back-navigate_to n ps from to e =
    rw longer
      (refl, shown.0 ∙ same_history, shown.1, λ p h. shown.2 p (ap (lookup from) same_focuses ∙ h))
  where
    m : Navigator
    m = navigate_to to n

    m-history : m.history ≡ (ps ++ from ∷ []) ++ to ∷ []
    m-history =
        unfold navigate_to in
        set_focus-history (page_focus to n)
          (switch_to_page to (record n { history = n.history ++ to ∷ [] }))
        ∙ ap (λ ps. ps ++ to ∷ []) e

    longer : leb (length m.history) 1 ≡ false
    longer = rw m-history (append-two-length ps from to)

    same_history : drop_last m.history ≡ n.history
    same_history = rw m-history (drop_last-two ps from to ∙ sym e)

    same_focuses : m.page_focuses ≡ n.page_focuses
    same_focuses =
        unfold navigate_to in
        set_focus-focuses (page_focus to n)
          (switch_to_page to (record n { history = n.history ++ to ∷ [] }))

    is_last : last_page (drop_last m.history) ≡ some from
    is_last = ap last_page (same_history ∙ e) ∙ last_page-append ps from

    shown :
        ((show_previous
            (last_page (drop_last m.history))
            (record m { history = drop_last m.history })).history
          ≡ drop_last m.history)
        × ((show_previous
              (last_page (drop_last m.history))
              (record m { history = drop_last m.history })).front
            ≡ some from)
        × ((p : ℕ)
            → lookup from m.page_focuses ≡ some (some p)
            → (show_previous
                (last_page (drop_last m.history))
                (record m { history = drop_last m.history })).focused
              ≡ some p)
    shown =
        show_previous-page (last_page (drop_last m.history))
          (record m { history = drop_last m.history }) from is_last
