-- ===== src/IbTree/Walk/Entering.antt =====
-- A step down in ibtree/ibstack.go, from an interior node to a child.
use go_tfhfs.Common.{ℕ, suc, ◌<◌, ◌≡◌, some, [], ok, arith, get_elem?, pos, ◌∙◌, sym, ap, length}
use go_tfhfs.IbTree.Node.{Node, NodeDataChild, Tree, children, load_child}
use go_tfhfs.IbTree.Stack.{Stack, ◌>>=◌, push, child_node, maximum_tree_depth}
use go_tfhfs.IbTree.Stack.Cache.{IsCoherent, push_lem, child_node_lem}
use go_tfhfs.IbTree.Walk.{push_index}
use go_tfhfs.IbTree.Walk.Contents.{IsTree}
use go_tfhfs.IbTree.Walk.Lookup.{loads}
use go_tfhfs.IbTree.Walk.Paths.{IsFilled, filled_at, Agree}
use go_tfhfs.IbTree.Walk.Landing.{child_of, part_of}

module _ (t : Tree) (root : Node) where
  -- One round of the way down.
  pushes :
      (n m : Node) (c : NodeDataChild) (s s₁ : Stack) (i : ℕ)
      → child_node t i s ≡ ok (some m, s)
      → push (pos i) (some m) s ≡ ok (tt, s₁)
      → push_index t (pos i) s ≡ ok (tt, s₁)
  unfolding push_index
  pushes n m c s s₁ i cn p = rw (cn, ◌>>=◌) p

  -- A child pushed onto its parent.
  pub record Entered (h : ℕ) (m : Node) (s s₁ : Stack) (k i : ℕ) : Type 0 where
    pub ran : push_index t (pos i) s ≡ ok (tt, s₁)
    pub tree : IsTree t h m
    pub filled : IsFilled t h m
    pub full : 0 < length (children m)
    pub coherent : IsCoherent t s₁
    pub rooted : s₁.nodes 0 ≡ some root
    pub on_top : s₁.top ≡ suc k
    pub at : s₁.nodes (suc k) ≡ some m
    pub index : s₁.indexes (suc k) ≡ pos 0
    pub kept : Agree t s s₁ k
    pub parent : s₁.nodes k ≡ s.nodes k
    pub parent_index : s₁.indexes k ≡ pos i

  pub enters :
      (h : ℕ) (n : Node) (s : Stack) (k i : ℕ)
      → s.top ≡ k
      → IsTree t (suc h) n
      → IsFilled t (suc h) n
      → IsCoherent t s
      → s.nodes 0 ≡ some root
      → s.nodes k ≡ some n
      → i < length (children n)
      → suc k < maximum_tree_depth
      → (c : NodeDataChild) × (m : Node) × (s₁ : Stack) × (get_elem? (children n) i ≡ some c)
        × (load_child t.load_node c ≡ ok (some m))
        × Entered h m s s₁ k i
  enters h n s k i top tree filled co r at lt room =
      let (c, at_c, e) = child_of (children n) i lt in
      let (m, l, below) = part_of _ _ (children n) i c tree.2 at_c in
      let (full, filled') = filled_at t h (children n) i c m filled at_c l in
      let is_child = loads t [] root n m c i at_c l in
      let at' : s.nodes s.top ≡ some n = ap s.nodes top ∙ at in
      let (s₁, ran, h₁, top₁, at₁, kept, index₀, index₁, kept_index) =
        push_lem t (pos i) n m s co at' is_child (omega (arith, top)) in
      let up : suc k ≡ suc s.top = ap suc (sym top) in
      (
        c,
        m,
        s₁,
        at_c,
        l,
        record {
          ran =
              pushes n m c s s₁ i (child_node_lem t i n m s co at' lt is_child (omega (arith, top)))
                ran;
          tree = below;
          filled = filled';
          full = full;
          coherent = h₁;
          rooted = kept 0 (omega arith) ∙ r;
          on_top = top₁ ∙ ap suc top;
          at = ap s₁.nodes up ∙ at₁;
          index = ap s₁.indexes up ∙ index₁;
          kept = λ j lt. (kept j (omega (arith, top)), kept_index j (omega (arith, top)));
          parent = kept k (omega (arith, top));
          parent_index = ap s₁.indexes (sym top) ∙ index₀;
        },
      )
