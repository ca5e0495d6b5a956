-- ===== src/Views/Nodes.antt =====
-- pkg/ui/components/tree_helpers.go: the tree of a view as far as its nodes are expanded or collapsed.
pub mod Toggle
use c_ray.Prelude.{
  Bool, List, Option, [], false, if◌then◌else◌, none, not, some, suc, true, zero, ℕ, ◌==◌, ◌||◌,
  ◌∷◌,
}
use c_ray.Text.Basic.{Text}

mutual
  -- tview.TreeNode: its text, whether it is expanded, its children.
  pub data Node : Type 0 where
    node : Text → Bool → Nodes → Node

  pub data Nodes : Type 0 where
    nil : Nodes
    cons : Node → Nodes → Nodes

abbrev pub is_expanded : Node → Bool
is_expanded (node text e children) = e

abbrev pub set_expanded : Bool → Node → Node
set_expanded e (node text _ children) = node text e children

-- The walk of ExpandAllNodes.
unfoldable mutual
  pub walk : Bool → Node → Node
  walk e (node text _ children) = node text e (walk_all e children)

  pub walk_all : Bool → Nodes → Nodes
  walk_all e nil = nil
  walk_all e (cons n ns) = cons (walk e n) (walk_all e ns)

abbrev pub expand_root : Node → Node
expand_root root = set_expanded true (walk (not (is_expanded root)) root)

-- ExpandAllNodes; nil is none.
unfoldable pub expand_all_nodes : Option Node → Option Node
unfolding walk
expand_all_nodes none = none
expand_all_nodes (some root) = some (expand_root root)

-- The keys that HandleTreeInput tells apart.
pub data TreeKey : Type 0 where
  ctrl_c enter other_key : TreeKey
  rune : ℕ → TreeKey

-- The toggling of the node at a path of positions below a node; where the path leads nowhere there is
-- no current node, and nothing changes.
unfoldable mutual
  pub toggle_at : List ℕ → Node → Node
  toggle_at [] (node text e children) = node text (not e) children
  toggle_at (i ∷ path) (node text e children) = node text e (toggle_in i path children)

  pub toggle_in : ℕ → List ℕ → Nodes → Nodes
  toggle_in i path nil = nil
  toggle_in zero path (cons n ns) = cons (toggle_at path n) ns
  toggle_in (suc i) path (cons n ns) = cons n (toggle_in i path ns)

abbrev pub toggle_current : Option (List ℕ) → Node → Node
toggle_current none root = root
toggle_current (some path) root = toggle_at path root

-- HandleTreeInput, with ExpandAllNodes of the root as the callback for all nodes and none for one: the
-- tree, and whether the event is consumed.
unfoldable pub handle_tree_input : TreeKey → Option (List ℕ) → Node → Node × Bool
unfolding walk toggle_at
handle_tree_input ctrl_c current root = (root, false)
handle_tree_input enter current root = (toggle_current current root, true)
handle_tree_input other_key current root = (root, false)
handle_tree_input (rune c) current root =
    if c == b'e' || c == b'E'
    then (toggle_current current root, true)
    else if c == b'a' || c == b'A'
    then (expand_root root, true)
    else (root, false)
