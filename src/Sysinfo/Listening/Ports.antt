-- ===== src/Sysinfo/Listening/Ports.antt =====
-- The ports that ReadListeningPorts lists.
use c_ray.Files.{Files}
use c_ray.Prelude.{
  Bool, Bool-cases, List, Option, [], arith, false, inl, inr, none, refl, some, true, ◌++◌, ◌||◌,
  ◌∙◌, ◌∷◌, ◌≡◌,
}
use c_ray.Sysinfo.Listening.{add_ports, collect_ports, is_seen, net_files, read_listening_ports}
use c_ray.Text.Basic.{Text, text_eq_iff}

-- No text stands twice in the list.
abbrev pub IsDistinct : List Text → Type 0
IsDistinct [] = Unit
IsDistinct (p ∷ ps) = (is_seen p ps ≡ false) × IsDistinct ps

is_seen-append :
    (p : Text) (ps qs : List Text) → is_seen p (ps ++ qs) ≡ (is_seen p ps || is_seen p qs)
unfolding is_seen
is_seen-append p [] qs = refl
is_seen-append p (q ∷ ps) qs = ground (arith, is_seen-append p ps qs)

IsDistinct-append :
    (p : Text) (ps : List Text) → IsDistinct ps → is_seen p ps ≡ false → IsDistinct (ps ++ p ∷ [])
unfolding is_seen
IsDistinct-append p [] _ _ = (refl, tt)
IsDistinct-append p (q ∷ ps) (h, hs) n = (
  rw is_seen-append (ground (arith, text_eq_iff p q, text_eq_iff q p)),
  IsDistinct-append p ps hs (ground arith),
)

add_ports-IsDistinct : (ps ports : List Text) → IsDistinct ports → IsDistinct (add_ports ports ps)
unfolding add_ports
add_ports-IsDistinct [] ports h = h
add_ports-IsDistinct (p ∷ ps) ports h = elim (Bool-cases (is_seen p ports)) [
  | inl old ↦ rw old (add_ports-IsDistinct ps ports h)
  | inr new ↦ rw new (add_ports-IsDistinct ps (ports ++ p ∷ []) (IsDistinct-append p ports h new))
]

-- A port that has been listed adds nothing.
seen_again :
    (q p : Text) (ps ports : List Text)
    → is_seen p ports ≡ true
    → (is_seen q ports || is_seen q ps) ≡ (is_seen q ports || is_seen q (p ∷ ps))
unfolding is_seen
seen_again q p ps ports h = ground (arith, text_eq_iff p q)

seen_new :
    (q p : Text) (ps ports : List Text)
    → (is_seen q (ports ++ p ∷ []) || is_seen q ps) ≡ (is_seen q ports || is_seen q (p ∷ ps))
unfolding is_seen
seen_new q p ps ports = ground (arith, is_seen-append q ports (p ∷ []))

is_seen-add_ports :
    (q : Text) (ps ports : List Text)
    → is_seen q (add_ports ports ps) ≡ (is_seen q ports || is_seen q ps)
unfolding add_ports
is_seen-add_ports q [] ports = unfold is_seen in ground arith
is_seen-add_ports q (p ∷ ps) ports = elim (Bool-cases (is_seen p ports)) [
  | inl old ↦ rw old (is_seen-add_ports q ps ports ∙ seen_again q p ps ports old)
  | inr new ↦ rw new (is_seen-add_ports q ps (ports ++ p ∷ []) ∙ seen_new q p ps ports)
]

-- A port of one of the files that can be read.
abbrev pub is_in_files : Text → List (Option (List Text)) → Bool
is_in_files q [] = false
is_in_files q (none ∷ files) = is_in_files q files
is_in_files q (some ps ∷ files) = is_seen q ps || is_in_files q files

collect_ports-IsDistinct :
    (files : List (Option (List Text))) (ports : List Text)
    → IsDistinct ports
    → IsDistinct (collect_ports ports files)
unfolding collect_ports
collect_ports-IsDistinct [] ports h = h
collect_ports-IsDistinct (none ∷ files) ports h = collect_ports-IsDistinct files ports h
collect_ports-IsDistinct (some ps ∷ files) ports h =
    collect_ports-IsDistinct files (add_ports ports ps) (add_ports-IsDistinct ps ports h)

is_seen-collect_ports :
    (q : Text) (files : List (Option (List Text))) (ports : List Text)
    → is_seen q (collect_ports ports files) ≡ (is_seen q ports || is_in_files q files)
unfolding collect_ports
is_seen-collect_ports q [] ports = ground arith
is_seen-collect_ports q (none ∷ files) ports = is_seen-collect_ports q files ports
is_seen-collect_ports q (some ps ∷ files) ports =
    ground (arith, is_seen-collect_ports q files (add_ports ports ps), is_seen-add_ports q ps ports)

-- ReadListeningPorts lists no port twice, and lists exactly the ports of the files that can be read.
pub read_listening_ports-IsDistinct :
    (fs : Files) (net_dir q : Text)
    → IsDistinct (read_listening_ports fs net_dir)
      × (is_seen q (read_listening_ports fs net_dir) ≡ is_in_files q (net_files fs net_dir))
unfolding read_listening_ports
read_listening_ports-IsDistinct fs net_dir q = (
  collect_ports-IsDistinct (net_files fs net_dir) [] tt,
  is_seen-collect_ports q (net_files fs net_dir) [],
)
