-- ===== src/Views/Nodes/Toggle.antt =====
-- What the keys do to a tree.
-- Every node is expanded, or every node is collapsed.
use mathlib.Core.Path.{ap₂}
use c_ray.Prelude.{
  Bool, List, Option, [], ap, arith, false, none, not, refl, some, suc, true, zero, ℕ, ◌∷◌, ◌≡◌,
}
use c_ray.Views.Nodes.{
  Node, Nodes, cons, enter, expand_all_nodes, expand_root, handle_tree_input, is_expanded, nil,
  node, toggle_at, toggle_in, walk, walk_all,
}

abbrev mutual
  pub AllAre : Bool → Node → Type 0
  AllAre b (node text e children) = (e ≡ b) × AllOfAre b children

  pub AllOfAre : Bool → Nodes → Type 0
  AllOfAre b nil = Unit
  AllOfAre b (cons n ns) = AllAre b n × AllOfAre b ns

abbrev pub node_children : Node → Nodes
node_children (node text e children) = children

-- The tree with every node expanded: its texts and its shape.
abbrev pub outline : Node → Node
outline = walk true

mutual
  unfolding walk

  walk-AllAre : (b : Bool) (n : Node) → AllAre b (walk b n)
  walk-AllAre b (node text e children) = (refl, walk_all-AllOfAre b children)

  walk_all-AllOfAre : (b : Bool) (ns : Nodes) → AllOfAre b (walk_all b ns)
  walk_all-AllOfAre b nil = tt
  walk_all-AllOfAre b (cons n ns) = (walk-AllAre b n, walk_all-AllOfAre b ns)

mutual
  unfolding walk

  walk-walk : (a b : Bool) (n : Node) → walk a (walk b n) ≡ walk a n
  walk-walk a b (node text e children) = ap (node text a) (walk_all-walk_all a b children)

  walk_all-walk_all : (a b : Bool) (ns : Nodes) → walk_all a (walk_all b ns) ≡ walk_all a ns
  walk_all-walk_all a b nil = refl
  walk_all-walk_all a b (cons n ns) = ap₂ cons (walk-walk a b n) (walk_all-walk_all a b ns)

mutual
  unfolding toggle_at

  toggle_at_twice : (path : List ℕ) (n : Node) → toggle_at path (toggle_at path n) ≡ n
  toggle_at_twice [] (node text e children) = ground arith
  toggle_at_twice (i ∷ path) (node text e children) =
      ap (node text e) (toggle_in_twice i path children)

  toggle_in_twice :
      (i : ℕ) (path : List ℕ) (ns : Nodes) → toggle_in i path (toggle_in i path ns) ≡ ns
  toggle_in_twice i path nil = refl
  toggle_in_twice zero path (cons n ns) = ap (λ m. cons m ns) (toggle_at_twice path n)
  toggle_in_twice (suc i) path (cons n ns) = ap (cons n) (toggle_in_twice i path ns)

-- ExpandAllNodes expands the nodes below a collapsed root and collapses those below an expanded one,
-- leaves the root expanded and keeps the texts and the shape. So a second call collapses everything
-- below the root, whatever the first one did, and so does every later one: it never expands again.
pub expand_all_nodes-twice :
    (root : Node)
    → (expand_all_nodes (some root) ≡ some (expand_root root))
      × (is_expanded (expand_root root) ≡ true)
      × AllOfAre (not (is_expanded root)) (node_children (expand_root root))
      × (outline (expand_root root) ≡ outline root)
      × AllOfAre false (node_children (expand_root (expand_root root)))
      × (expand_root (expand_root (expand_root root)) ≡ expand_root (expand_root root))
unfolding expand_all_nodes
expand_all_nodes-twice (node text e children) = (
  refl,
  refl,
  walk_all-AllOfAre (not e) children,
  ap (node text true) (walk_all-walk_all true (not e) children),
  walk_all-AllOfAre false (walk_all (not e) children),
  ap (node text true) (walk_all-walk_all false false (walk_all (not e) children)),
)

-- A key that toggles the current node, pressed twice, leaves the tree as it was.
pub handle_tree_input-enter_twice :
    (current : Option (List ℕ)) (root : Node)
    → (handle_tree_input enter current (handle_tree_input enter current root).0).0 ≡ root
unfolding handle_tree_input
handle_tree_input-enter_twice none root = refl
handle_tree_input-enter_twice (some path) root = toggle_at_twice path root
