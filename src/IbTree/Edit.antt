-- ===== src/IbTree/Edit.antt =====
-- Changes of the tree: the copying half of ibtree/ibstack.go. A changed node replaces the old one in
-- the stack, and its parents take it over when it is popped.
use go_tfhfs.Common.{
  ℕ, zero, suc, ◌+◌, ◌-◌, ◌/◌, ◌&&◌, Bool, true, false, Option, none, some, List, [], ◌∷◌, ◌++◌,
  Bytes, Outcome, ok, panic, if◌then◌else◌, length, take, drop, ltb, leb, ◌==◌, ℤ, pos, negsuc,
}
use go_tfhfs.IbTree.Node.{
  Node, NodeDataChild, NodeData, Tree, leafy, children, node_data, make_node, check_node_structure,
}
use go_tfhfs.IbTree.Stack.{
  Stack, M, pure, fail, ◌>>=◌, ◌>>◌, lift, get, put, current_node, index, with_entry, pop_node,
  push, set_index, invalidate_sub_nodes, next_of, maximum_tree_depth,
}
pub mod Rewrites
pub mod Removals
pub mod Oversized

-- The new children of `rewriteAtIndex`: an insertion, a replacement or, without a child, a deletion
-- at an index. Out of range Go panics, as it does on an insertion of nil.
unfoldable pub rewritten :
    Bool → ℤ → Option NodeDataChild → List NodeDataChild → Outcome (List NodeDataChild)
rewritten replace (negsuc i) c cs = panic
rewritten false (pos i) none cs = panic
rewritten false (pos i) (some c) cs =
    if leb i (length cs) then ok (take i cs ++ (c ∷ drop i cs)) else panic
rewritten true (pos i) none cs =
    if ltb i (length cs) then ok (take i cs ++ drop (suc i) cs) else panic
rewritten true (pos i) (some c) cs =
    if ltb i (length cs) then ok (take i cs ++ (c ∷ drop (suc i) cs)) else panic

-- The counter of leaves that have become small.
abbrev pub small_after : Tree → Node → ℕ → ℕ
small_after t n count =
    if leafy n && leb (t.msgsize (node_data n)) t.small_size then suc count else count

abbrev pub replace_top : Tree → Node → Stack → Stack
replace_top t n s =
    let s₁ = invalidate_sub_nodes (record s { nodes = with_entry s.nodes s.top (some n) }) in
    record s₁ { small_count = small_after t n s.small_count }

-- `rewriteNodeChildren`.
unfoldable pub rewrite_node_children : Tree → List NodeDataChild → M (Unit {0})
unfolding invalidate_sub_nodes check_node_structure
rewrite_node_children t cs = do
  old ← current_node
  s ← get
  put (replace_top t (make_node (leafy old) cs none) s)
  lift (check_node_structure (record { leafy = leafy old; children = cs }))

unfoldable pub rewrite_at_index : Tree → Bool → Option NodeDataChild → M (Unit {0})
unfolding rewritten rewrite_node_children
rewrite_at_index t replace c = do
  n ← current_node
  s ← get
  cs ← lift (rewritten replace (index s) c (children n))
  rewrite_node_children t cs

-- The entry with which a parent refers to a changed node: its first key, and no block id yet.
abbrev pub entry_for : Tree → Node → List NodeDataChild → Option NodeDataChild
entry_for t n [] = none
entry_for t n (c ∷ cs) =
    some (record { key = c.key; value = t.placeholder_value; child_node = some n })

-- `pop`.
unfoldable pub pop : Tree → M (Unit {0})
unfolding pop_node rewrite_at_index
pop t = do n ← current_node; pop_node; rewrite_at_index t true (entry_for t n (children n))

-- A value that Go takes from a pointer or from the first entry of a slice.
abbrev pub needed : {A : Type 0} → Option A → M A
needed none = fail
needed (some a) = pure a

-- A new root above the node in hand and the next one.
unfoldable pub replace_root : Tree → NodeDataChild → M (Unit {0})
unfolding invalidate_sub_nodes
replace_root t next_child = do
  n ← current_node
  me ← needed (entry_for t n (children n))
  s ← get
  put (
      invalidate_sub_nodes (record s {
        nodes = with_entry s.nodes 0 (some (make_node false (me ∷ next_child ∷ []) none));
      }))

-- `addChildAt`: a node that gets too large gives its second half to a new node, which is added to
-- the parent in turn, or to a new root. Each round is a level higher.
unfoldable pub add_child_at : Tree → ℕ → NodeDataChild → M (Unit {0})
unfolding rewrite_at_index rewrite_node_children pop set_index replace_root
add_child_at t zero c = fail
add_child_at t (suc fuel) c = do
  rewrite_at_index t false (some c)
  n ← current_node
  if leb (t.msgsize (node_data n)) t.node_maximum_size then pure tt else (do
    rewrite_node_children t (take (length (children n) / 2) (children n))
    next_child ← needed (
        entry_for t (make_node (leafy n) (drop (length (children n) / 2) (children n)) none)
          (drop (length (children n) / 2) (children n)))
    s ← get
    if ltb 0 s.top
        then (do
          pop t
          s' ← get
          put (set_index (next_of (index s')) s')
          add_child_at t fuel next_child)
        else replace_root t next_child)
