-- ===== src/Navigation.antt =====
-- The Navigator of pkg/ui/navigation.go. Pages and primitives of the terminal library are names; what
-- the navigator does to it is the page in front and the primitive that has the focus.
pub mod History
use c_ray.Map.{insert, lookup, text_key}
use c_ray.Prelude.{Bool, List, Option, [], false, leb, length, none, some, true, ℕ, ◌++◌, ◌∷◌}
use c_ray.Text.Basic.{Text}

-- The navigator, with the page that tview shows and the primitive that it focuses.
pub record Navigator : Type 0 where
  pub history : List Text
  pub page_focuses : List (Text × Option ℕ)
  pub front : Option Text
  pub focused : Option ℕ

-- NewNavigator, over the pages and the focus that tview has.
abbrev pub new_navigator : Option Text → Option ℕ → Navigator
new_navigator front focused = record {
  history = [];
  page_focuses = [];
  front = front;
  focused = focused;
}

-- RegisterFocus; a primitive that is nil is none.
unfoldable pub register_focus : Text → Option ℕ → Navigator → Navigator
register_focus page focus n = record n { page_focuses = insert page focus n.page_focuses }

-- `if focus != nil { app.SetFocus(focus) }`.
abbrev pub set_focus : Option ℕ → Navigator → Navigator
set_focus none n = n
set_focus (some p) n = record n { focused = some p }

-- The focus that is registered for a page.
abbrev pub page_focus : Text → Navigator → Option ℕ
page_focus page n = elim (lookup page n.page_focuses) [ none ↦ none | some focus ↦ focus ]

abbrev pub switch_to_page : Text → Navigator → Navigator
switch_to_page page n = record n { front = some page }

-- NavigateToAndFocus.
unfoldable pub navigate_to_and_focus : Text → Option ℕ → Navigator → Navigator
navigate_to_and_focus page focus n =
    set_focus focus (switch_to_page page (record n { history = n.history ++ page ∷ [] }))

-- NavigateTo.
unfoldable pub navigate_to : Text → Navigator → Navigator
navigate_to page n =
    set_focus (page_focus page n)
      (switch_to_page page (record n { history = n.history ++ page ∷ [] }))

-- n.history[len-1].
unfoldable pub last_page : List Text → Option Text
last_page [] = none
last_page (p ∷ []) = some p
last_page (p ∷ q ∷ ps) = last_page (q ∷ ps)

-- n.history[:len-1].
unfoldable pub drop_last : List Text → List Text
drop_last [] = []
drop_last (p ∷ []) = []
drop_last (p ∷ q ∷ ps) = p ∷ drop_last (q ∷ ps)

abbrev pub show_previous : Option Text → Navigator → Navigator
show_previous none n = n
show_previous (some page) n = set_focus (page_focus page n) (switch_to_page page n)

-- What Back does, with whether there is no page to go back to.
abbrev pub back_unless : Bool → Navigator → Navigator × Bool
back_unless true n = (n, false)
back_unless false n = (
  show_previous (last_page (drop_last n.history)) (record n { history = drop_last n.history }),
  true,
)

-- Back.
unfoldable pub back : Navigator → Navigator × Bool
back n = back_unless (leb (length n.history) 1) n

-- CurrentPage.
unfoldable pub current_page : Navigator → Text
unfolding last_page
current_page n = elim (last_page n.history) [ none ↦ [] | some p ↦ p ]
