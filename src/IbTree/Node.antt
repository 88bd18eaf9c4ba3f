-- ===== src/IbTree/Node.antt =====
-- Nodes of the tree: the types of ibtree/ibtree.go and ibtree/ibtree_greenpack.go, and the check of
-- ibtree/nodedata.go. Nodes never change, so that a pointer to a node is the node.
use go_tfhfs.Common.{
  ℕ, ◌≡◌, refl, ap, Bool, Option, none, some, List, [], ◌∷◌, Bytes, bytes_lt, Outcome, ok, panic,
  if◌then◌else◌, get_elem?,
}

mutual
  pub data Node : Type 0 where
    node : Bool → Children → Option Bytes → Node

  -- `[]*NodeDataChild`: of each child the key, the value and the child node, if any is loaded.
  pub data Children : Type 0 where
    no_children : Children
    clean : Bytes → Bytes → Children → Children
    dirty : Bytes → Bytes → Node → Children → Children

pub record NodeDataChild : Type 0 where
  pub key : Bytes
  pub value : Bytes
  pub child_node : Option Node

pub record NodeData : Type 0 where
  pub leafy : Bool
  pub children : List NodeDataChild

abbrev pub to_list : Children → List NodeDataChild
to_list no_children = []
to_list (clean k v cs) = record { key = k; value = v; child_node = none } ∷ to_list cs
to_list (dirty k v n cs) = record { key = k; value = v; child_node = some n } ∷ to_list cs

abbrev pub add_child : Bytes → Bytes → Option Node → Children → Children
add_child k v none cs = clean k v cs
add_child k v (some n) cs = dirty k v n cs

abbrev pub from_list : List NodeDataChild → Children
from_list [] = no_children
from_list (c ∷ cs) = add_child c.key c.value c.child_node (from_list cs)

to_list-add_child :
    (k v : Bytes) (n : Option Node) (cs : Children)
    → to_list (add_child k v n cs) ≡ record { key = k; value = v; child_node = n } ∷ to_list cs
to_list-add_child k v none cs = refl
to_list-add_child k v (some n) cs = refl

pub to_list-from_list : (cs : List NodeDataChild) → to_list (from_list cs) ≡ cs
to_list-from_list [] = refl
to_list-from_list (c ∷ cs) =
    rw (to_list-add_child c.key c.value c.child_node (from_list cs))
      (ap (◌∷◌ c) (to_list-from_list cs))

abbrev pub leafy : Node → Bool
leafy (node l cs b) = l

abbrev pub children : Node → List NodeDataChild
children (node l cs b) = to_list cs

abbrev pub block_id : Node → Option Bytes
block_id (node l cs b) = b

abbrev pub node_data : Node → NodeData
node_data n = record { leafy = leafy n; children = children n }

abbrev pub make_node : Bool → List NodeDataChild → Option Bytes → Node
make_node l cs b = node l (from_list cs) b

-- `Tree`. The size of a node when it is written comes from generated code, and `load_node` is that
-- of the backend, if one is set.
pub record Tree : Type 0 where
  pub node_maximum_size : ℕ
  pub half_size : ℕ
  pub small_size : ℕ
  pub placeholder_value : Bytes
  pub load_node : Option (Bytes → Option NodeData)
  pub msgsize : NodeData → ℕ

-- The loop of `CheckNodeStructure`, after the key `k0`. A child is never nil here.
unfoldable pub check_after : Option Bytes → List NodeDataChild → Outcome (Unit {0})
check_after k0 [] = ok tt
check_after k0 (c ∷ cs) =
    let rest = check_after (some c.key) cs in
    elim c.key [
      | [] ↦ panic
      | x ∷ xs ↦ elim k0 [ none ↦ rest | some k ↦ if bytes_lt k c.key then rest else panic ]
    ]

unfoldable pub check_node_structure : NodeData → Outcome (Unit {0})
unfolding check_after
check_node_structure self = check_after none self.children

-- The rest of `childNode`: the child of a child entry, loaded from the backend where it is not in
-- memory; without a backend there is none.
unfoldable pub load_child : Option (Bytes → Option NodeData) → NodeDataChild → Outcome (Option Node)
load_child load c = elim c.child_node [
  | some n ↦ ok (some n)
  | none ↦ elim load [
    | none ↦ ok none
    | some f ↦ elim (f c.value) [
      | none ↦ panic
      | some nd ↦ ok (some (make_node nd.leafy nd.children (some c.value)))
    ]
  ]
]

-- `Node.childNode`.
unfoldable pub child_node : Tree → Node → ℕ → Outcome (Option Node)
unfolding load_child
child_node t self idx = elim (get_elem? (children self) idx) [
  | none ↦ panic
  | some c ↦ load_child t.load_node c
]
