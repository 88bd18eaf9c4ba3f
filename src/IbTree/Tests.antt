-- ===== src/IbTree/Tests.antt =====
-- Runs of the tree, and instances of its theorems.
use go_tfhfs.Common.{
  ◌≡◌, ◌≢◌, ◌↔◌, All, if◌then◌else◌, refl, true, false, Option, none, some, List, [], ◌∷◌, Bytes,
  map_get, ok, panic, Outcome, pos, inl, arith, bytes_eq, bytes_lt, length, ◌<◌,
}
use go_tfhfs.IbTree.Node.{
  Node, Tree, NodeData, make_node, load_child, children, NodeDataChild, check_node_structure,
}
use go_tfhfs.IbTree.Stack.{Stack, leaf_index}
use go_tfhfs.IbTree.Walk.{get_value, next_key, prev_key}
use go_tfhfs.IbTree.Walk.Contents.{contents, IsTree, entries, IsSorted}
use go_tfhfs.IbTree.Edit.{rewritten}
use go_tfhfs.IbTree.Edit.Rewrites.{insertion_lem, check_node_structure_iff, IsNamed}
use go_tfhfs.IbTree.Edit.Removals.{deletion_lem}
use go_tfhfs.IbTree.Edit.Oversized.{set_entry, empty_root, new_transaction, set_oversized_panics}
use go_tfhfs.IbTree.KeyTree.{IsNext, IsPrev}
use go_tfhfs.IbTree.Walk.NextKeys.{next_key-IsNext}
use go_tfhfs.IbTree.Walk.Paths.{IsFilled}
use go_tfhfs.IbTree.Walk.PrevKeys.{prev_key-IsPrev}
use go_tfhfs.IbTree.Walk.Lookup.{IsReady, get_value-contents}

-- Two leaves, of which the second is on disk under the id 9.
abbrev pub second_leaf : NodeData
second_leaf = record {
  leafy = true;
  children = record { key = 5 ∷ []; value = 50 ∷ []; child_node = none } ∷ [];
}

abbrev pub on_disk : Bytes → Option NodeData
on_disk bid = some second_leaf

abbrev pub tree : Tree
tree = record {
  node_maximum_size = 512;
  half_size = 256;
  small_size = 128;
  placeholder_value = [];
  load_node = some on_disk;
  msgsize = λ nd. 64;
}

abbrev pub first_leaf : Node
first_leaf =
    make_node true
      (record { key = 1 ∷ []; value = 10 ∷ []; child_node = none }
        ∷ record { key = 3 ∷ []; value = 30 ∷ []; child_node = none }
        ∷ [])
      none

abbrev pub root : Node
root =
    make_node false
      (record { key = 1 ∷ []; value = []; child_node = some first_leaf }
        ∷ record { key = 5 ∷ []; value = 9 ∷ []; child_node = none }
        ∷ [])
      none

abbrev new_stack : Stack
new_stack = record { nodes = λ i. none; indexes = λ i. pos 0; top = 0; maxtop = 0; small_count = 0 }

pub root-IsTree : IsTree tree 1 root
unfolding load_child bytes_lt
root-IsTree = (
  refl,
  omega arith,
  (
    (first_leaf, refl, (refl, (refl, (tt, tt)))),
    (refl, (refl, tt)),
    (refl, (refl, tt)),
    refl,
    (
      (make_node true second_leaf.children (some (9 ∷ [])), refl, (refl, (tt, tt))),
      (refl, tt),
      (tt, tt),
      tt,
      tt,
    ),
  ),
)

new_stack-IsReady : IsReady tree root new_stack
new_stack-IsReady = record {
  coherent = record { inside = omega arith; empty_below = λ i h. refl; linked = λ i m e. cc };
  at_root = refl;
  rooted = inl refl;
}

get_value-contents_example :
    (s' : Stack) × (get_value tree root true (5 ∷ []) new_stack
      ≡ ok (map_get (5 ∷ []) (contents tree 1 root), s'))
    × IsReady tree root s'
get_value-contents_example =
    get_value-contents tree root 1 (5 ∷ []) new_stack root-IsTree (omega arith) new_stack-IsReady

-- A loaded child is not empty.
pub loaded_full :
    (n m : Node)
    → ◌≡◌ {A = Outcome (Option Node)} (ok (some n)) (ok (some m))
    → 0 < length (children n)
    → IsFilled tree 0 n
    → (0 < length (children m)) × IsFilled tree 0 m
loaded_full n m e h f = let same : n ≡ m = cc in (rw (← same) h, rw (← same) f)

pub root-IsFilled : IsFilled tree 1 root
unfolding load_child
root-IsFilled = (
  λ m e. loaded_full first_leaf m e (omega arith) (refl, (refl, tt)),
  (
    λ m e.
        loaded_full (make_node true second_leaf.children (some (9 ∷ []))) m e (omega arith)
          (refl, tt),
    tt,
  ),
)

next_key-IsNext_example :
    (r : Option Bytes) × (s' : Stack) × (next_key tree root true (3 ∷ []) new_stack ≡ ok (r, s'))
    × IsReady tree root s'
    × IsNext (λ j. map_get j (contents tree 1 root)) (3 ∷ []) r
next_key-IsNext_example =
    next_key-IsNext tree root 1 (3 ∷ []) new_stack root-IsTree root-IsFilled (omega arith)
      new_stack-IsReady

prev_key-IsPrev_example :
    (r : Option Bytes) × (s' : Stack) × (prev_key tree root true (5 ∷ []) new_stack ≡ ok (r, s'))
    × IsReady tree root s'
    × IsPrev (λ j. map_get j (contents tree 1 root)) (5 ∷ []) r
prev_key-IsPrev_example =
    prev_key-IsPrev tree root 1 (5 ∷ []) new_stack root-IsTree root-IsFilled (omega arith)
      new_stack-IsReady

abbrev result : Outcome (Option Bytes × Stack) → Option Bytes
result (ok (r, s)) = r
result panic = none

-- The next key is in the other leaf, which is on disk; so is the previous one, back.
next_leaf : result (next_key tree root true (3 ∷ []) new_stack) ≡ some (5 ∷ [])
unfolding next_key bytes_lt bytes_eq load_child
next_leaf = refl

previous_leaf : result (prev_key tree root true (5 ∷ []) new_stack) ≡ some (3 ∷ [])
unfolding prev_key bytes_lt bytes_eq load_child
previous_leaf = refl

holds_five : map_get (5 ∷ []) (contents tree 1 root) ≡ some (50 ∷ [])
unfolding map_get bytes_eq load_child
holds_five = refl

abbrev two_children : List NodeDataChild
two_children = children first_leaf

two_children-checked :
    check_node_structure (record { leafy = true; children = two_children }) ≡ ok tt
unfolding check_node_structure bytes_lt
two_children-checked = refl

no_two : map_get (2 ∷ []) (entries two_children) ≡ none
unfolding map_get bytes_eq
no_two = refl

abbrev two : NodeDataChild
two = record { key = 2 ∷ []; value = 20 ∷ []; child_node = none }

two-IsNamed : ◌≢◌ {A = Bytes} (2 ∷ []) []
two-IsNamed = ground arith

insertion_lem_example :
    (cs' : List NodeDataChild) × (rewritten false
        (pos (leaf_index (2 ∷ []) two_children))
        (some two)
        two_children
      ≡ ok cs')
    × (check_node_structure (record { leafy = true; children = cs' }) ≡ ok tt)
    × ((j : Bytes)
        → map_get j (entries cs')
          ≡ (if bytes_eq (2 ∷ []) j then some (20 ∷ []) else map_get j (entries two_children)))
insertion_lem_example = insertion_lem two true two_children two_children-checked two-IsNamed no_two

three_there : map_get (3 ∷ []) (entries two_children) ≡ some (30 ∷ [])
unfolding map_get bytes_eq
three_there = refl

deletion_lem_example :
    (cs' : List NodeDataChild) × (rewritten true
        (pos (leaf_index (3 ∷ []) two_children))
        none
        two_children
      ≡ ok cs')
    × (check_node_structure (record { leafy = true; children = cs' }) ≡ ok tt)
    × ((j : Bytes)
        → map_get j (entries cs')
          ≡ (if bytes_eq (3 ∷ []) j then none else map_get j (entries two_children)))
deletion_lem_example =
    deletion_lem (3 ∷ []) (30 ∷ []) true two_children two_children-checked three_there

check_node_structure_iff_example :
    (check_node_structure (record { leafy = true; children = two_children }) ≡ ok tt)
    ↔ (IsSorted two_children × All IsNamed two_children)
check_node_structure_iff_example =
    check_node_structure_iff (record { leafy = true; children = two_children })

-- A key above the largest goes to the end, and a deletion of the first entry leaves the other.
leaf_index_end : leaf_index (9 ∷ []) two_children ≡ 2
unfolding leaf_index bytes_lt
leaf_index_end = refl

-- Nodes of at most 32 bytes.
abbrev small_nodes : Tree
small_nodes = record tree { node_maximum_size = 32 }

set_oversized_panics_example :
    set_entry small_nodes empty_root true (1 ∷ 2 ∷ []) (3 ∷ []) (new_transaction empty_root) ≡ panic
set_oversized_panics_example = set_oversized_panics small_nodes 1 (2 ∷ []) (3 ∷ []) refl
