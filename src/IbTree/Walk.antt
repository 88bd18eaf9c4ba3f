-- ===== src/IbTree/Walk.antt =====
-- Walks through the tree: the rest of the reading half of ibtree/ibstack.go, and the lookups of
-- ibtree/ibtree.go.
use go_tfhfs.Common.{
  ℕ, zero, suc, ◌-◌, ◌+◌, Bool, true, false, Option, none, some, Bytes, bytes_lt, bytes_eq,
  if◌then◌else◌, length, not, ltb, ◌==◌, ◌&&◌, ◌||◌, ℤ, pos, negsuc, int_eq, ok,
}
use go_tfhfs.IbTree.Node.{Node, NodeDataChild, Tree, leafy, children}
use go_tfhfs.IbTree.Stack.{
  Stack, M, pure, fail, ◌>>=◌, ◌>>◌, get, put, current_node, index, child, child_node, push,
  pop_node, set_index, invalidate_sub_nodes, search, maximum_tree_depth, next_of, previous_of,
}
pub mod Contents
pub mod Places
pub mod Lookup
pub mod Ordered
pub mod Near
pub mod Cuts
pub mod Ways
pub mod Searches
pub mod Paths
pub mod Landing
pub mod Entering
pub mod Downwards
pub mod Lasts
pub mod Rounds
pub mod Neighbours
pub mod NextKeys
pub mod Backward
pub mod Previous
pub mod PrevKeys

-- `Node.search`. Go compares the pointers to the node and to the root of the stack: `same` tells
-- whether they are the same.
unfoldable pub search_from : Tree → Node → Bool → Bytes → M (Unit {0})
unfolding search
search_from t self same key = do
  s ← get
  elim (s.nodes 0) [
    | none ↦ put (record s { nodes = λ i. if i == 0 then some self else s.nodes i })
    | some root ↦ if same then pure tt else fail
  ]
  s' ← get
  if ltb 0 s'.top then fail else search t key

abbrev pub found : Bytes → Option NodeDataChild → Option Bytes
found key none = none
found key (some c) = if bytes_eq c.key key then some c.value else none

-- `Node.Get`.
unfoldable pub get_value : Tree → Node → Bool → Bytes → M (Option Bytes)
unfolding search_from child
get_value t self same key = do
  search_from t self same key
  c ← child
  s ← get
  put (record s { top = 0 })
  pure (found key c)

-- `pushIndex`; out of range there is no child, and nil is pushed.
unfoldable pub push_index : Tree → ℤ → M (Unit {0})
unfolding child_node push
push_index t (pos i) = do m ← child_node t i; push (pos i) m
push_index t (negsuc i) = do n ← current_node; push (negsuc i) none

-- The inner loop of `goNextLeaf`, from a node that is no leaf; the stack is full after
-- `maximum_tree_depth` rounds.
unfoldable pub go_down_first : Tree → ℕ → ℤ → M (Unit {0})
unfolding push_index
go_down_first t zero idx = fail
go_down_first t (suc fuel) idx = do
  push_index t idx
  n ← current_node
  if leafy n then pure tt else go_down_first t fuel (pos 0)

-- Go to the end of the root, unless the stack stands there.
abbrev pub go_past_end : Node → M Bool
go_past_end n s =
    if int_eq (index s) (pos (length (children n)))
    then ok (false, s)
    else ok (true, set_index (pos (length (children n))) s)

abbrev pub inside_node : ℤ → Node → Bool
inside_node (pos i) n = ltb i (length (children n))
inside_node (negsuc i) n = true

-- `goNextLeaf`; each round but the last pops a node.
unfoldable pub go_next_leaf : Tree → ℕ → M Bool
unfolding go_down_first set_index pop_node invalidate_sub_nodes int_eq
go_next_leaf t zero = fail
go_next_leaf t (suc fuel) = do
  s ← get
  n ← current_node
  elim (inside_node (next_of (index s)) n) [
    | true ↦ (do
      if leafy n
          then put (set_index (next_of (index s)) s)
          else go_down_first t maximum_tree_depth (next_of (index s))
      s' ← get
      put (invalidate_sub_nodes s')
      pure true)
    | false ↦ if s.top == 0 then go_past_end n else (do pop_node; go_next_leaf t fuel)
  ]

abbrev pub last_index : Node → ℤ
last_index n = previous_of (pos (length (children n)))

-- The inner loop of `goPreviousLeaf`: the index of the last entry of the leaf where it ends.
unfoldable pub go_down_last : Tree → ℕ → ℤ → M ℤ
unfolding push_index
go_down_last t zero idx = fail
go_down_last t (suc fuel) idx = do
  push_index t idx
  n ← current_node
  if leafy n then pure (last_index n) else go_down_last t fuel (last_index n)

-- Go before the start of the root, unless the stack stands elsewhere in it.
abbrev pub go_past_start : M Bool
go_past_start s =
    if int_eq (index s) (pos 0) then ok (true, set_index (negsuc 0) s) else ok (false, s)

abbrev pub is_index : ℤ → Bool
is_index (pos i) = true
is_index (negsuc i) = false

-- `goPreviousLeaf`.
unfoldable pub go_previous_leaf : Tree → ℕ → M Bool
unfolding go_down_last set_index pop_node int_eq
go_previous_leaf t zero = fail
go_previous_leaf t (suc fuel) = do
  s ← get
  n ← current_node
  elim (is_index (previous_of (index s))) [
    | true ↦ (do
      idx ←
          (if leafy n
            then pure (previous_of (index s))
            else go_down_last t maximum_tree_depth (previous_of (index s)))
      s' ← get
      put (set_index idx s')
      pure true)
    | false ↦ if s.top == 0 then go_past_start else (do pop_node; go_previous_leaf t fuel)
  ]

abbrev pub needs_next : Bytes → Option NodeDataChild → Bool
needs_next key none = true
needs_next key (some c) = bytes_eq c.key key

abbrev pub needs_previous : Bytes → Option NodeDataChild → Bool
needs_previous key none = true
needs_previous key (some c) = not (bytes_lt c.key key)

-- `searchGreater` and `searchLesser`; the stack has at most `maximum_tree_depth` nodes to pop.
unfoldable pub search_greater : Tree → Node → Bool → Bytes → M (Unit {0})
unfolding search_from child go_next_leaf
search_greater t self same key = do
  search_from t self same key
  c ← child
  if needs_next key c then (do b ← go_next_leaf t maximum_tree_depth; pure tt) else pure tt

unfoldable pub search_lesser : Tree → Node → Bool → Bytes → M (Unit {0})
unfolding search_from child go_previous_leaf
search_lesser t self same key = do
  search_from t self same key
  c ← child
  if needs_previous key c then (do b ← go_previous_leaf t maximum_tree_depth; pure tt) else pure tt

abbrev pub key_of : Option NodeDataChild → Option Bytes
key_of none = none
key_of (some c) = some c.key

-- `Node.NextKey` and `Node.PrevKey`.
unfoldable pub next_key : Tree → Node → Bool → Bytes → M (Option Bytes)
unfolding search_greater child
next_key t self same key = do
  search_greater t self same key
  c ← child
  s ← get
  put (record s { top = 0 })
  pure (key_of c)

unfoldable pub prev_key : Tree → Node → Bool → Bytes → M (Option Bytes)
unfolding search_lesser child
prev_key t self same key = do
  search_lesser t self same key
  c ← child
  s ← get
  put (record s { top = 0 })
  pure (key_of c)
