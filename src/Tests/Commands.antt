-- ===== src/Tests/Commands.antt =====
-- The commands and the navigation.
use c_ray.Detect.{Backend, auto_detection_failed, detect_auto}
use c_ray.Detect.Auto.{FoundIn, NoneFound, detect_auto-cases, detector, searches}
use c_ray.Map.{lookup, text_key}
use c_ray.Navigation.{Navigator, back, current_page, navigate_to, new_navigator}
use c_ray.Navigation.History.{at_start, back-navigate_to, current_page-front, navigate, then_step}
use c_ray.Prelude.{Bool, [], none, refl, some, sym, true, ℕ, ◌∙◌, ◌∷◌, ◌≡◌, ◌≢◌, ◌⊎◌}
use c_ray.Result.{err, ok}
use c_ray.Text.Basic.{Text, codes, text_eq}

abbrev is_docker : Text → Bool
is_docker sock = text_eq sock (codes "/run/docker.sock")

detect_auto-cases_example :
    (detect_auto (detector is_docker none none (some is_docker)) ≡ err auto_detection_failed)
      × NoneFound is_docker none none
          (some is_docker)
          (searches is_docker none none (some is_docker))
    ⊎ ((backend : Backend) × (sock : Text) × (detect_auto
            (detector is_docker none none (some is_docker))
          ≡ ok (backend, sock))
        × FoundIn is_docker none none
            (some is_docker)
            (searches is_docker none none (some is_docker))
            backend
            sock)
detect_auto-cases_example = detect_auto-cases is_docker none none (some is_docker)

abbrev visited : Navigator
visited = navigate_to (codes "tree") (new_navigator none none)

visited_history : visited.history ≢ []
visited_history e = list_ne (sym shown ∙ e)
  where
    shown : visited.history ≡ codes "tree" ∷ []
    shown = unfold navigate_to lookup in refl

    list_ne : codes "tree" ∷ [] ≢ []
    list_ne h = cc

current_page-front_example : visited.front ≡ some (current_page visited)
unfolding navigate_to
current_page-front_example =
    current_page-front none none (then_step at_start (navigate (codes "tree"))) visited_history

abbrev at_list : Navigator
at_list = record {
  history = codes "list" ∷ [];
  page_focuses = (codes "list", some 4) ∷ [];
  front = some (codes "list");
  focused = some 4;
}

back-navigate_to_example :
    ((back (navigate_to (codes "detail") at_list)).1 ≡ true)
    × ((back (navigate_to (codes "detail") at_list)).0.history ≡ codes "list" ∷ [])
    × ((back (navigate_to (codes "detail") at_list)).0.front ≡ some (codes "list"))
    × ((p : ℕ)
        → lookup (codes "list") at_list.page_focuses ≡ some (some p)
        → (back (navigate_to (codes "detail") at_list)).0.focused ≡ some p)
back-navigate_to_example = back-navigate_to at_list [] (codes "list") (codes "detail") refl
