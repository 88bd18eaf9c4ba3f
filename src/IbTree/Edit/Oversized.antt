-- ===== src/IbTree/Edit/Oversized.antt =====
-- `Node.Set` of ibtree/ibtree.go up to the commit of its stack, and what it does with an entry that
-- is larger than a node may be.
use go_tfhfs.Common.{
  ℕ, zero, suc, ◌≡◌, refl, Bool, true, false, Option, none, some, [], ◌∷◌, Bytes, bytes_eq, panic,
  leb, not, if◌then◌else◌, pos,
}
use go_tfhfs.IbTree.Node.{Node, NodeDataChild, NodeData, Tree, make_node, check_node_structure}
use go_tfhfs.IbTree.Stack.{Stack, M, pure, ◌>>=◌, ◌>>◌, child, maximum_tree_depth}
use go_tfhfs.IbTree.Walk.{search_from}
use go_tfhfs.IbTree.Edit.{
  rewritten, rewrite_at_index, rewrite_node_children, replace_root, add_child_at,
}

-- An entry that there is takes the new value; others are added where the search ended.
abbrev pub put_entry : Tree → NodeDataChild → Option NodeDataChild → M (Unit {0})
put_entry t new none = add_child_at t maximum_tree_depth new
put_entry t new (some c) =
    if not (bytes_eq c.key new.key)
    then add_child_at t maximum_tree_depth new
    else if not (bytes_eq c.value new.value)
    then rewrite_at_index t true (some new)
    else pure tt

unfoldable pub set_entry : Tree → Node → Bool → Bytes → Bytes → M (Unit {0})
unfolding search_from child add_child_at rewrite_at_index
set_entry t self same key value = do
  search_from t self same key
  c ← child
  put_entry t (record { key = key; value = value; child_node = none }) c

abbrev pub empty_root : Node
empty_root = make_node true [] none

abbrev pub only_root : Node → ℕ → Option Node
only_root root zero = some root
only_root root (suc i) = none

-- The stack of a new transaction.
abbrev pub new_transaction : Node → Stack
new_transaction root = record {
  nodes = only_root root;
  indexes = λ i. pos 0;
  top = 0;
  maxtop = 0;
  small_count = 0;
}

-- A leaf of one entry.
abbrev pub one_entry : Bytes → Bytes → NodeData
one_entry key value = record {
  leafy = true;
  children = record { key = key; value = value; child_node = none } ∷ [];
}

-- In a new transaction on an empty tree, setting an entry with a key panics if a leaf with that
-- entry alone is larger than a node may be: the half that stays in the leaf has no first key.
pub set_oversized_panics :
    (t : Tree) (x : ℕ) (xs value : Bytes)
    → leb (t.msgsize (one_entry (x ∷ xs) value)) t.node_maximum_size ≡ false
    → set_entry t empty_root true (x ∷ xs) value (new_transaction empty_root) ≡ panic
unfolding set_entry search_from child add_child_at rewrite_at_index rewritten rewrite_node_children
    replace_root check_node_structure
set_oversized_panics t x xs value large = rw large refl
