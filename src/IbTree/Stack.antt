-- ===== src/IbTree/Stack.antt =====
-- The stack of ibtree/ibstack.go: the way from the root to a leaf, which also remembers the nodes
-- below its top that it has loaded.
use go_tfhfs.Common.{
  ℕ, zero, suc, ◌+◌, ◌-◌, ◌&&◌, Bool, true, false, Option, none, some, List, [], ◌∷◌, ◌++◌, Bytes,
  bytes_lt, bytes_eq, Outcome, ok, panic, if◌then◌else◌, not, get_elem?, length, take, drop, ltb,
  leb, ◌==◌, ℤ, pos, negsuc, int_eq, get_or,
}
use go_tfhfs.IbTree.BinarySearch.{sort_search}
use go_tfhfs.IbTree.Node.{
  Node, NodeDataChild, NodeData, Tree, leafy, children, node_data, make_node, check_node_structure,
}
use go_tfhfs.IbTree.Node as Nodes
pub mod Cache

abbrev pub maximum_tree_depth : ℕ
maximum_tree_depth = 10

-- `Stack`; the arrays have `maximum_tree_depth` entries.
pub record Stack : Type 0 where
  pub nodes : ℕ → Option Node
  pub indexes : ℕ → ℤ
  pub top : ℕ
  pub maxtop : ℕ
  pub small_count : ℕ

-- The steps on a stack.
abbrev pub M : Type 0 → Type 0
M A = Stack → Outcome (A × Stack)

abbrev pub pure : {A : Type 0} → A → M A
pure a s = ok (a, s)

abbrev pub fail : {A : Type 0} → M A
fail s = panic

infixl 5 ◌>>=◌ ◌>>◌
abbrev pub ◌>>=◌ : {A B : Type 0} → M A → (A → M B) → M B
◌>>=◌ m f s = elim (m s) [ ok (a, s') ↦ f a s' | panic ↦ panic ]

abbrev pub ◌>>◌ : {B : Type 0} → M (Unit {0}) → M B → M B
m >> k = m >>= λ _. k

abbrev pub lift : {A : Type 0} → Outcome A → M A
lift (ok a) s = ok (a, s)
lift panic s = panic

abbrev pub get : M Stack
get s = ok (s, s)

abbrev pub put : Stack → M (Unit {0})
put s' s = ok (tt, s')

-- An entry of an array of nodes or of indexes changed.
abbrev pub with_entry : {A : Type 0} → (ℕ → A) → ℕ → A → ℕ → A
with_entry f i a j = if i == j then a else f j

unfoldable pub invalidate_sub_nodes : Stack → Stack
invalidate_sub_nodes self = record self {
  nodes = λ i. if ltb self.top i && leb i self.maxtop then none else self.nodes i;
  maxtop = self.top;
}

unfoldable pub set_index : ℤ → Stack → Stack
unfolding invalidate_sub_nodes int_eq
set_index idx self =
    if int_eq idx (self.indexes self.top)
    then self
    else invalidate_sub_nodes (record self { indexes = with_entry self.indexes self.top idx })

-- `node()`; its users go through the pointer, and panic where it is nil.
abbrev pub current_node : M Node
current_node s = elim (s.nodes s.top) [ none ↦ panic | some n ↦ ok (n, s) ]

abbrev pub index : Stack → ℤ
index self = self.indexes self.top

-- `child()`.
abbrev pub child_at : List NodeDataChild → ℤ → Option NodeDataChild
child_at cs (pos i) = get_elem? cs i
child_at cs (negsuc i) = none

unfoldable pub child : M (Option NodeDataChild)
child = do n ← current_node; s ← get; pure (child_at (children n) (index s))

abbrev pub loaded : Option Node → Outcome (Option Node) → Outcome (Option Node)
loaded none o = o
loaded (some m) o = ok (some m)

-- `childNode` of a stack: nil out of range, else the node remembered below the top or a loaded one.
unfoldable pub child_node : Tree → ℕ → M (Option Node)
unfolding Nodes.child_node int_eq
child_node t idx = do
  n ← current_node
  s ← get
  if leb (length (children n)) idx
      then pure none
      else if int_eq (index s) (pos idx)
      then (if ltb (suc s.top) maximum_tree_depth
          then lift (loaded (s.nodes (suc s.top)) (Nodes.child_node t n idx))
          else fail)
      else lift (Nodes.child_node t n idx)

-- A node on top of the stack.
abbrev pub pushed : Option Node → Stack → Stack
pushed m self = record self {
  top = suc self.top;
  maxtop = if ltb self.maxtop (suc self.top) then suc self.top else self.maxtop;
  nodes = with_entry self.nodes (suc self.top) m;
}

abbrev pub next_of : ℤ → ℤ
next_of (pos i) = pos (suc i)
next_of (negsuc zero) = pos 0
next_of (negsuc (suc i)) = negsuc i

abbrev pub previous_of : ℤ → ℤ
previous_of (pos zero) = negsuc 0
previous_of (pos (suc i)) = pos i
previous_of (negsuc i) = negsuc (suc i)

-- `push`; a stack of `maximum_tree_depth` nodes has no room.
unfoldable pub push : ℤ → Option Node → M (Unit {0})
unfolding set_index
push idx m s =
    let s₁ = set_index idx s in
    if ltb (suc s₁.top) maximum_tree_depth then ok (tt, set_index (pos 0) (pushed m s₁)) else panic

-- `popNode`.
unfoldable pub pop_node : M (Unit {0})
pop_node s = elim s.top [ zero ↦ panic | suc t ↦ ok (tt, record s { top = t }) ]

-- The keys that `sort.Search` looks at; it stays inside of the node.
abbrev pub key_at : List NodeDataChild → ℕ → Bytes
key_at [] i = []
key_at (c ∷ cs) zero = c.key
key_at (c ∷ cs) (suc i) = key_at cs i

-- The insertion point in a leaf.
unfoldable pub leaf_index : Bytes → List NodeDataChild → ℕ
unfolding sort_search
leaf_index key cs = sort_search (length cs) (λ i. not (bytes_lt (key_at cs i) key))

-- The child to go to: the one before the first with a larger key, or the first.
unfoldable pub interior_index : Bytes → List NodeDataChild → ℕ
unfolding sort_search
interior_index key cs = sort_search (length cs) (λ i. bytes_lt key (key_at cs i)) - 1

-- The loop of `search`, with the node in hand. The stack is full after `maximum_tree_depth` rounds.
unfoldable pub search_loop : Tree → Bytes → ℕ → Node → M (Unit {0})
unfolding leaf_index interior_index child_node push set_index
search_loop t key zero n = fail
search_loop t key (suc fuel) n =
    if leafy n then (do s ← get; put (set_index (pos (leaf_index key (children n))) s)) else (do
      m ← child_node t (interior_index key (children n))
      elim m [
        | none ↦ fail
        | some m' ↦
            push (pos (interior_index key (children n))) (some m') >> search_loop t key fuel m'
      ])

-- `Stack.search`.
unfoldable pub search : Tree → Bytes → M (Unit {0})
unfolding search_loop
search t key s = elim (s.nodes 0) [
  | none ↦ panic
  | some n ↦ search_loop t key maximum_tree_depth n (record s { top = 0 })
]
