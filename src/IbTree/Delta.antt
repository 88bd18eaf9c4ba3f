-- ===== src/IbTree/Delta.antt =====
-- `IterateDelta` of ibtree/delta.go: the differences between two trees, found without a look at the
-- parts that they share.
use go_tfhfs.Common.{
  ℕ, zero, suc, Bool, true, false, Option, none, some, List, [], ◌∷◌, ◌++◌, Bytes, bytes_eq,
  bytes_lt, Outcome, ok, panic, if◌then◌else◌, ltb, ◌&&◌, pos,
}
use go_tfhfs.IbTree.Node.{Node, NodeDataChild, Tree, leafy}
use go_tfhfs.IbTree.Stack.{
  Stack, M, ◌>>=◌, ◌>>◌, child, current_node, index, set_index, next_of, pop_node,
}
use go_tfhfs.IbTree.Walk.{push_index}
pub mod Places
pub mod Moves
pub mod Descents
pub mod Differences
pub mod Advances
pub mod Lower
pub mod Comparisons
pub mod Meetings
pub mod Rounds
pub mod Iteration
pub mod Tests

-- The arguments of a `DeltaCallback`.
pub record Change : Type 0 where
  pub old : Option NodeDataChild
  pub new : Option NodeDataChild

-- `nextIndex` and `pushCurrentIndex`.
abbrev pub next_index : M (Unit {0})
next_index s = ok (tt, set_index (next_of (index s)) s)

abbrev pub push_current_index : Tree → M (Unit {0})
push_current_index t s = push_index t (index s) s

-- `popNode` and `nextIndex`.
unfoldable pub climb : M (Unit {0})
unfolding pop_node
climb = do pop_node; next_index

abbrev pub same_node : (Node → Node → Bool) → Option Node → Option Node → Bool
same_node same none none = true
same_node same (some a) (some b) = same a b
same_node same none (some b) = false
same_node same (some a) none = false

abbrev pub same_leafy : Bool → Bool → Bool
same_leafy true b = b
same_leafy false true = false
same_leafy false false = true

-- `*c == *c0`; `same` tells whether two pointers to nodes are the same.
unfoldable pub same_child : (Node → Node → Bool) → NodeDataChild → NodeDataChild → Bool
same_child same c c0 =
    bytes_eq c.key c0.key && bytes_eq c.value c0.value && same_node same c.child_node c0.child_node

-- A round ends the iteration, or gives changes and the two stacks.
abbrev pub Round : Type 0
Round = Outcome (Option (List Change × Stack × Stack))

abbrev pub done_with : {A : Type 0} → Outcome (A × Stack) → (Stack → Round) → Round
done_with (ok (a, s)) f = f s
done_with panic f = panic

-- The stack with the lower key: down to its leaves, or a change.
unfoldable pub look_old : Tree → Node → NodeDataChild → Stack → Stack → Round
unfolding push_index
look_old t n0 c0 s0 s =
    if leafy n0
    then done_with (next_index s0)
        (λ s0'. ok (some (record { old = some c0; new = none } ∷ [], s0', s)))
    else done_with (push_current_index t s0) (λ s0'. ok (some ([], s0', s)))

unfoldable pub look_new : Tree → Node → NodeDataChild → Stack → Stack → Round
unfolding push_index
look_new t n c s0 s =
    if leafy n
    then done_with (next_index s)
        (λ s'. ok (some (record { old = none; new = some c } ∷ [], s0, s')))
    else done_with (push_current_index t s) (λ s'. ok (some ([], s0, s')))

-- Equal keys: down where a node is no leaf, else an update.
unfoldable pub look_both :
    Tree → Node → Node → NodeDataChild → NodeDataChild → Stack → Stack → Round
unfolding push_index
look_both t n0 n c0 c s0 s =
    if leafy n0 && leafy n
    then ok (
        some (
          record { old = some c0; new = some c } ∷ [],
          set_index (next_of (index s0)) s0,
          set_index (next_of (index s)) s,
        ))
    else done_with (if leafy n0 then ok (tt, s0) else push_current_index t s0) (λ s0'.
      done_with (if leafy n then ok (tt, s) else push_current_index t s)
        (λ s'. ok (some ([], s0', s'))))

-- The rest of a round, with the nodes and the children where the stacks stand.
unfoldable pub compare_children :
    Tree
    → (Node → Node → Bool)
    → Node
    → Node
    → Option NodeDataChild
    → Option NodeDataChild
    → Stack
    → Stack
    → Round
unfolding look_old look_new look_both
compare_children t same n0 n none none s0 s = ok none
compare_children t same n0 n none (some c) s0 s = look_new t n c s0 s
compare_children t same n0 n (some c0) none s0 s = look_old t n0 c0 s0 s
compare_children t same n0 n (some c0) (some c) s0 s =
    if same_leafy (leafy n) (leafy n0) && same_child same c c0
    then ok (some ([], set_index (next_of (index s0)) s0, set_index (next_of (index s)) s))
    else if bytes_eq c.key c0.key
    then look_both t n0 n c0 c s0 s
    else if bytes_lt c0.key c.key
    then look_old t n0 c0 s0 s
    else look_new t n c s0 s

abbrev pub at_end : Option NodeDataChild → Stack → Bool
at_end none s = ltb 0 s.top
at_end (some c) s = false

-- One round of the loop.
unfoldable pub delta_round : Tree → (Node → Node → Bool) → Stack → Stack → Round
unfolding child climb compare_children
delta_round t same s0 s = elim (child s0) [
  | panic ↦ panic
  | ok (c0, _) ↦
      if at_end c0 s0
      then done_with (climb s0) (λ s0'. ok (some ([], s0', s)))
      else elim (child s) [
        | panic ↦ panic
        | ok (c, _) ↦
            if at_end c s
            then done_with (climb s) (λ s'. ok (some ([], s0, s')))
            else elim (current_node s0) [
              | panic ↦ panic
              | ok (n0, _) ↦ elim (current_node s) [
                | panic ↦ panic
                | ok (n, _) ↦ compare_children t same n0 n c0 c s0 s
              ]
            ]
      ]
]

abbrev pub preceded : List Change → Outcome (List Change) → Outcome (List Change)
preceded cs (ok rest) = ok (cs ++ rest)
preceded cs panic = panic

-- The loop, with fuel; it panics where there is none left.
unfoldable pub delta_loop : Tree → (Node → Node → Bool) → ℕ → Stack → Stack → Outcome (List Change)
unfolding delta_round
delta_loop t same zero s0 s = panic
delta_loop t same (suc fuel) s0 s = elim (delta_round t same s0 s) [
  | panic ↦ panic
  | ok none ↦ ok []
  | ok (some (cs, s0', s')) ↦ preceded cs (delta_loop t same fuel s0' s')
]

abbrev pub only_first : Node → ℕ → Option Node
only_first root zero = some root
only_first root (suc i) = none

abbrev pub rooted_stack : Node → Stack
rooted_stack root = record {
  nodes = only_first root;
  indexes = λ i. pos 0;
  top = 0;
  maxtop = 0;
  small_count = 0;
}

-- The changes from `original` to `self`, in the order of the callbacks.
unfoldable pub iterate_delta : Tree → (Node → Node → Bool) → ℕ → Node → Node → Outcome (List Change)
unfolding delta_loop
iterate_delta t same fuel self original =
    delta_loop t same fuel (rooted_stack original) (rooted_stack self)
