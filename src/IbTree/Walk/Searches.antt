-- ===== src/IbTree/Walk/Searches.antt =====
-- A search of ibtree/ibstack.go, from the root to a leaf.
use go_tfhfs.Common.{
  ℕ, zero, suc, ◌+◌, ◌<◌, ◌≡◌, refl, some, ◌++◌, Bytes, ok, arith, get_elem?, pos, ◌∙◌, sym, ap,
  take, drop, length, ◌≤◌,
}
use go_tfhfs.IbTree.Node.{Node, NodeDataChild, Tree, children, load_child}
use go_tfhfs.IbTree.Stack.{
  Stack, leaf_index, interior_index, set_index, search_loop, maximum_tree_depth,
}
use go_tfhfs.IbTree.Stack.Cache.{
  IsCoherent, push_lem, child_node_lem, set_index-IsCoherent, top-set_index, indexes-set_index_at,
  nodes-set_index, indexes-set_index_other,
}
use go_tfhfs.IbTree.Walk.Contents.{entries, contents, IsTree}
use go_tfhfs.IbTree.Walk.Cuts.{leaf_index-cuts}
use go_tfhfs.IbTree.Walk.Lookup.{loads, goes_down}
use go_tfhfs.IbTree.Walk.Ordered.{Above, Below, From, All-append}
use go_tfhfs.IbTree.Walk.Paths.{
  IsFilled, after, before, Levels, Agree, after-Agree, before-Agree, Levels-Agree, filled_at,
}
use go_tfhfs.IbTree.Walk.Places.{leaf_index-IsFirst, interior_index-flat}
use go_tfhfs.IbTree.Walk.Ways.{IsWay, IsWay-down, entries_at, around}

module _ (t : Tree) (D : ℕ) (root : Node) (key : Bytes) where
  -- A search ends in a leaf at an index that the entries from `key` on follow.
  pub record IsEnd (s : Stack) : Type 0 where
    pub coherent : IsCoherent t s
    pub level : ℕ
    pub on_top : s.top ≡ level
    pub shallow : level < maximum_tree_depth
    pub rooted : s.nodes 0 ≡ some root
    pub leaf : Node
    pub place : ℕ
    pub at : s.nodes level ≡ some leaf
    pub here : s.indexes level ≡ pos place
    pub levels : Levels t 0 s (suc level)
    pub whole :
        contents t D root
        ≡ before t 0 s (suc level) ++ (entries (drop place (children leaf)) ++ after t 1 s level)
    pub below : Below key (before t 0 s (suc level))
    pub from : From key (entries (drop place (children leaf)))
    pub above : Above key (after t 1 s level)

  IsEnd-way :
      (n : Node) (s s' : Stack) (k : ℕ)
      → IsWay t D root key 0 n s k
      → IsTree t 0 n
      → IsFilled t 0 n
      → IsCoherent t s'
      → s'.top ≡ k
      → k < maximum_tree_depth
      → s'.nodes 0 ≡ some root
      → Agree t s s' k
      → s'.nodes k ≡ some n
      → s'.indexes k ≡ pos (leaf_index key (children n))
      → IsEnd s'
  IsEnd-way n s s' k w tree filled h top room r agree node index =
      let i = leaf_index key (children n) in
      let (lo, hi) = leaf_index-cuts key (children n) tree.1 in
      let b = before-Agree t 1 s s' k agree in
      let a = after-Agree t 1 s s' k agree in
      record {
        coherent = h;
        level = k;
        on_top = top;
        shallow = room;
        rooted = r;
        leaf = n;
        place = i;
        at = node;
        here = index;
        levels = (
          n,
          i,
          node,
          index,
          tree,
          filled,
          (leaf_index-IsFirst key (children n) tree.1).inside,
          Levels-Agree t 1 s s' k agree w.levels,
        );
        whole =
            rw (node, index, b, a, w.whole, entries_at t i (children n))
              (around (before t 1 s k) (entries (take i (children n))) _ (after t 1 s k));
        below = rw (node, index, b) (All-append _ (before t 1 s k) _ w.below lo);
        from = hi;
        above = rw a w.above;
      }

  ends_here :
      (n : Node) (s : Stack) (k : ℕ)
      → s.top ≡ k
      → IsWay t D root key 0 n s k
      → IsTree t 0 n
      → IsFilled t 0 n
      → IsCoherent t s
      → k < maximum_tree_depth
      → s.nodes 0 ≡ some root
      → s.nodes k ≡ some n
      → IsEnd (set_index (pos (leaf_index key (children n))) s)
  ends_here n s k top w tree filled h room r at =
      let i = pos (leaf_index key (children n)) in
      IsEnd-way n s (set_index i s) k w tree filled (set_index-IsCoherent t i s h)
        (top-set_index t i s ∙ top) room (nodes-set_index t i s 0 (omega arith) ∙ r)
        (λ j lt. (
          nodes-set_index t i s j (omega (arith, top)),
          indexes-set_index_other t i s j (omega (arith, top)),
        ))
        (nodes-set_index t i s k (omega (arith, top)) ∙ at) (indexes-set_index_at t i s k (sym top))

  IsWay-next :
      (d : ℕ) (n m : Node) (c : NodeDataChild) (s s₁ : Stack) (k : ℕ)
      → s.top ≡ k
      → IsWay t D root key (suc d) n s k
      → IsTree t (suc d) n
      → IsFilled t (suc d) n
      → get_elem? (children n) (interior_index key (children n)) ≡ some c
      → interior_index key (children n) < length (children n)
      → load_child t.load_node c ≡ ok (some m)
      → s.nodes k ≡ some n
      → ((i : ℕ) → i ≤ s.top → s₁.nodes i ≡ s.nodes i)
      → s₁.indexes s.top ≡ pos (interior_index key (children n))
      → ((i : ℕ) → i < s.top → s₁.indexes i ≡ s.indexes i)
      → IsWay t D root key d m s₁ (suc k)
  IsWay-next d n m c s s₁ k top w tree filled at_c lt l at kept index kept_index =
      IsWay-down t D root key d n m c s s₁ k w tree filled at_c lt l
        (λ i lt. (kept i (omega (arith, top)), kept_index i (omega (arith, top))))
        (kept k (omega (arith, top)) ∙ at) (rw (← top) index)

  -- On a tree that fits the stack and has no empty nodes, the search ends in such a place.
  pub search_loop-IsEnd :
      (d fuel : ℕ) (n : Node) (s : Stack) (k : ℕ)
      → s.top ≡ k
      → IsWay t D root key d n s k
      → IsTree t d n
      → IsFilled t d n
      → IsCoherent t s
      → s.nodes 0 ≡ some root
      → s.nodes k ≡ some n
      → k + d < maximum_tree_depth
      → d < fuel
      → (s' : Stack) × (search_loop t key fuel n s ≡ ok (tt, s')) × IsEnd s'
  unfolding search_loop
  search_loop-IsEnd d zero n s k top w tree filled h r at room enough = absurd (omega arith)
  search_loop-IsEnd zero (suc fuel) n s k top w tree filled h r at room enough = (
    set_index (pos (leaf_index key (children n))) s,
    rw tree.0 refl,
    ends_here n s k top w tree filled h (omega arith) r at,
  )
  search_loop-IsEnd (suc d) (suc fuel) n s k top w tree filled h r at room enough =
      let i = interior_index key (children n) in
      let (c, at_c, (m, l, below), lt, same) =
        interior_index-flat _ _ key (children n) tree.1 tree.2 in
      let is_child = loads t key root n m c i at_c l in
      let (s₁, ran, h₁, top₁, at₁, kept, index₁, _, kept_index) =
        push_lem t (pos i) n m s h (rw top at) is_child (omega arith) in
      let (s₂, rest, end) =
        search_loop-IsEnd d fuel m s₁ (suc k) (top₁ ∙ ap suc top)
          (IsWay-next d n m c s s₁ k top w tree filled at_c lt l at kept index₁ kept_index) below
          (filled_at t d (children n) i c m filled at_c l).1 h₁ (kept 0 (omega arith) ∙ r)
          (ap (λ (j : ℕ). s₁.nodes (suc j)) (sym top) ∙ at₁) (omega arith) (omega arith) in
      (
        s₂,
        goes_down t key root fuel n m s s₁ tree.0
              (child_node_lem t i n m s h (rw top at) lt is_child (omega arith)) ran
            ∙ rest,
        end,
      )
