-- ===== src/IbTree/Walk/Lookup.antt =====
-- `Get` of ibtree/ibtree.go finds what the tree holds.
use go_tfhfs.Common.{
  ℕ, zero, suc, ◌+◌, ◌<◌, ◌≡◌, refl, ◌⊎◌, inl, inr, true, false, Option, none, some, Bytes, map_get,
  ok, arith, if◌then◌else◌, get_elem?, pos, ◌==◌, ap, sym, ◌∙◌,
}
use go_tfhfs.IbTree.Node.{Node, NodeDataChild, Tree, leafy, children, load_child}
use go_tfhfs.IbTree.Node as Nodes
use go_tfhfs.IbTree.Stack.{
  Stack, ◌>>=◌, set_index, search, search_loop, leaf_index, interior_index, push, child_node,
  child_at, index, maximum_tree_depth,
}
use go_tfhfs.IbTree.Stack.Cache.{
  IsCoherent, IsChildAt, push_lem, child_node_lem, set_index-IsCoherent, top-set_index,
  indexes-set_index, nodes-set_index,
}
use go_tfhfs.IbTree.Walk.{get_value, search_from, found}
use go_tfhfs.IbTree.Walk.Contents.{contents, IsTree}
use go_tfhfs.IbTree.Walk.Places.{leaf_index-entries, interior_index-flat}

-- Where a search ends: at a place that holds the key's entry if the tree has one.
record IsFound (t : Tree) (key : Bytes) (root : Node) (r : Option Bytes) (s : Stack) : Type 0 where
  coherent : IsCoherent t s
  rooted : s.nodes 0 ≡ some root
  leaf :
      (n : Node) × (s.nodes s.top ≡ some n)
      × (◌≡◌ {A = Option Bytes} (found key (child_at (children n) (index s))) r)

module _ (t : Tree) (key : Bytes) (root : Node) where
  pub loads :
      (n m : Node) (c : NodeDataChild) (i : ℕ)
      → get_elem? (children n) i ≡ some c
      → load_child t.load_node c ≡ ok (some m)
      → IsChildAt t n (pos i) m
  unfolding Nodes.child_node
  loads n m c i at l = rw (at, Nodes.child_node) l

  at_leaf :
      (n : Node) (s : Stack)
      → IsTree t 0 n
      → IsCoherent t s
      → s.nodes 0 ≡ some root
      → s.nodes s.top ≡ some n
      → IsFound t key root
          (map_get key (contents t 0 n))
          (set_index (pos (leaf_index key (children n))) s)
  at_leaf n s tree h r at =
      let i = pos (leaf_index key (children n)) in
      record {
        coherent = set_index-IsCoherent t i s h;
        rooted = rw (nodes-set_index t i s 0 (omega arith)) r;
        leaf = (
          n,
          rw (top-set_index t i s, nodes-set_index t i s s.top (omega arith)) at,
          rw (top-set_index t i s, indexes-set_index t i s)
              (sym (leaf_index-entries key (children n) tree.1)),
        );
      }

  pub goes_down :
      (fuel : ℕ) (n m : Node) (s s₁ : Stack)
      → leafy n ≡ false
      → child_node t (interior_index key (children n)) s ≡ ok (some m, s)
      → push (pos (interior_index key (children n))) (some m) s ≡ ok (tt, s₁)
      → search_loop t key (suc fuel) n s ≡ search_loop t key fuel m s₁
  unfolding search_loop
  goes_down fuel n m s s₁ lf cn p = rw (lf, cn, ◌>>=◌, p) refl

  -- On a tree that fits the stack, the search ends in a leaf, and the stack stays coherent.
  search_loop-IsFound :
      (d fuel : ℕ) (n : Node) (s : Stack)
      → IsTree t d n
      → IsCoherent t s
      → s.nodes 0 ≡ some root
      → s.nodes s.top ≡ some n
      → s.top + d < maximum_tree_depth
      → d < fuel
      → (s' : Stack) × (search_loop t key fuel n s ≡ ok (tt, s'))
        × IsFound t key root (map_get key (contents t d n)) s'
  unfolding search_loop
  search_loop-IsFound d zero n s tree h r at room enough = absurd (omega arith)
  search_loop-IsFound zero (suc fuel) n s tree h r at room enough =
      (set_index (pos (leaf_index key (children n))) s, rw tree.0 refl, at_leaf n s tree h r at)
  search_loop-IsFound (suc d) (suc fuel) n s tree h r at room enough =
      let i = interior_index key (children n) in
      let (c, at_c, (m, l, below), lt, same) =
        interior_index-flat _ _ key (children n) tree.1 tree.2 in
      let is_child = loads n m c i at_c l in
      let (s₁, ran, h₁, top₁, at₁, kept, _, _, _) =
        push_lem t (pos i) n m s h at is_child (omega arith) in
      let (s₂, rest, found₂) =
        search_loop-IsFound d fuel m s₁ below h₁ (rw (kept 0 (omega arith)) r) (rw top₁ at₁)
          (omega (arith, top₁)) (omega arith) in
      (
        s₂,
        goes_down fuel n m s s₁ tree.0 (child_node_lem t i n m s h at lt is_child (omega arith)) ran
            ∙ rest,
        rw (same, l) found₂,
      )

-- A stack that is ready for a new operation on the tree: a new one, or one of this tree.
pub record IsReady (t : Tree) (root : Node) (s : Stack) : Type 0 where
  pub coherent : IsCoherent t s
  pub at_root : s.top ≡ 0
  pub rooted : (s.nodes 0 ≡ none) ⊎ (s.nodes 0 ≡ some root)

-- A stack that goes back to the root.
pub IsReady-at_root :
    (t : Tree) (root : Node) (s : Stack)
    → IsCoherent t s
    → s.nodes 0 ≡ some root
    → IsReady t root (record s { top = 0 })
IsReady-at_root t root s h r = record {
  coherent = record { inside = omega arith; empty_below = h.empty_below; linked = h.linked };
  at_root = refl;
  rooted = inr r;
}

abbrev with_root : Node → Stack → Stack
with_root root s = record s { nodes = λ i. if i == 0 then some root else s.nodes i }

with_root-IsCoherent :
    (t : Tree) (root : Node) (s : Stack)
    → s.nodes 0 ≡ none
    → IsCoherent t s
    → IsCoherent t (with_root root s)
with_root-IsCoherent t root s e h = record {
  inside = h.inside;
  empty_below = λ i lt. ground (arith, h.empty_below i);
  linked = λ i m l.
      let l' : s.nodes (suc i) ≡ some m = ground arith in
      let (n, at, c) = h.linked i m l' in (n, ground (arith, e, at), c);
}

-- `search_from` searches from the root, whatever the stack has done before.
pub search_from_lem :
    (t : Tree) (root : Node) (key : Bytes) (s : Stack)
    → IsReady t root s
    → (s' : Stack) × (search_from t root true key s ≡ search t key s')
      × IsCoherent t s'
      × (s'.top ≡ 0)
      × (s'.nodes 0 ≡ some root)
unfolding search_from
search_from_lem t root key s ready = elim ready.rooted [
  | inl e ↦ (
    with_root root s,
    rw (e, ready.at_root) refl,
    with_root-IsCoherent t root s e ready.coherent,
    ready.at_root,
    refl,
  )
  | inr e ↦ (s, rw (e, ready.at_root) refl, ready.coherent, ready.at_root, e)
]

pub search_starts :
    (t : Tree) (root : Node) (key : Bytes) (s : Stack)
    → s.nodes 0 ≡ some root
    → search t key s ≡ search_loop t key maximum_tree_depth root (record s { top = 0 })
unfolding search
search_starts t root key s r = rw (search, r) refl

search-IsFound :
    (t : Tree) (root : Node) (d : ℕ) (key : Bytes) (s : Stack)
    → IsTree t d root
    → d < maximum_tree_depth
    → IsCoherent t s
    → s.nodes 0 ≡ some root
    → (s' : Stack) × (search t key s ≡ ok (tt, s'))
      × IsFound t key root (map_get key (contents t d root)) s'
search-IsFound t root d key s tree few h r =
    let s₀ : Stack = record s { top = 0 } in
    let h₀ : IsCoherent t s₀ = record {
      inside = omega arith;
      empty_below = h.empty_below;
      linked = h.linked;
    } in
    let (s', ran, found_it) =
      search_loop-IsFound t key root d maximum_tree_depth root s₀ tree h₀ r r (omega arith) few in
    (s', search_starts t root key s r ∙ ran, found_it)

-- What `Get` does after the search.
lookup_after :
    (t : Tree) (root : Node) (key : Bytes) (r : Option Bytes) (s s' : Stack)
    → search_from t root true key s ≡ ok (tt, s')
    → IsFound t key root r s'
    → get_value t root true key s ≡ ok (r, record s' { top = 0 })
unfolding get_value
lookup_after t root key r s s' ran f =
    let (n, at, e) = f.leaf in rw (ran, ◌>>=◌, at) (ap (λ x. ok (x, record s' { top = 0 })) e)

-- As `get_value-contents`, and the stack has its root.
pub get_value_on_root :
    (t : Tree) (root : Node) (d : ℕ) (key : Bytes) (s : Stack)
    → IsTree t d root
    → d < maximum_tree_depth
    → IsReady t root s
    → (s' : Stack) × (get_value t root true key s ≡ ok (map_get key (contents t d root), s'))
      × IsReady t root s'
      × (s'.nodes 0 ≡ some root)
get_value_on_root t root d key s tree few ready =
    let (s₁, same, h₁, top₁, r₁) = search_from_lem t root key s ready in
    let (s₂, ran, f) = search-IsFound t root d key s₁ tree few h₁ r₁ in
    (
      record s₂ { top = 0 },
      lookup_after t root key _ s s₂ (same ∙ ran) f,
      IsReady-at_root t root s₂ f.coherent f.rooted,
      f.rooted,
    )

-- On a tree of at most ten levels whose keys are in order, and with a stack that is ready for it,
-- `Get` returns the value that the leaves hold for the key, if any, and leaves the stack ready.
pub get_value-contents :
    (t : Tree) (root : Node) (d : ℕ) (key : Bytes) (s : Stack)
    → IsTree t d root
    → d < maximum_tree_depth
    → IsReady t root s
    → (s' : Stack) × (get_value t root true key s ≡ ok (map_get key (contents t d root), s'))
      × IsReady t root s'
get_value-contents t root d key s tree few ready =
    let (s', ran, ready', at) = get_value_on_root t root d key s tree few ready in (s', ran, ready')
