-- ===== src/IbTree/Delta/Places.antt =====
-- Where a stack of `IterateDelta` (ibtree/delta.go) stands: the entries that are left, and how far
-- it has to go.
use go_tfhfs.Common.{
  ℕ, zero, suc, ◌+◌, ◌<◌, ◌≡◌, refl, Option, none, some, List, [], ◌∷◌, ◌++◌, Outcome, ok, panic,
  arith, get_elem?, pos, ◌∙◌, ap, drop, length,
}
use go_tfhfs.IbTree.Node.{Node, NodeDataChild, Tree, children, load_child}
use go_tfhfs.IbTree.Stack.{Stack, ◌>>=◌, maximum_tree_depth, child, current_node, child_at, index}
use go_tfhfs.IbTree.Stack.Cache.{IsCoherent}
use go_tfhfs.IbTree.Walk.Contents.{Entries, IsTree}
use go_tfhfs.IbTree.Walk.Ordered.{IsOrdered}
use go_tfhfs.IbTree.Walk.Paths.{IsFilled, under, after, Levels, Agree, after_index, of_node}

child_lem :
    (n : Node) (s : Stack)
    → s.nodes s.top ≡ some n
    → child s ≡ ok (child_at (children n) (index s), s)
unfolding child
child_lem n s at = rw (child, ◌>>=◌, at) refl

abbrev pub total : (NodeDataChild → ℕ) → List NodeDataChild → ℕ
total f [] = 0
total f (c ∷ cs) = f c + total f cs

abbrev pub of_child_weight : (Node → ℕ) → Outcome (Option Node) → ℕ
of_child_weight f (ok (some m)) = f m
of_child_weight f (ok none) = 0
of_child_weight f panic = 0

-- The steps under a node with `d` levels below it.
abbrev pub node_weight : Tree → ℕ → Node → ℕ
node_weight t zero n = length (children n)
node_weight t (suc d) n =
    total (λ c. 2 + of_child_weight (node_weight t d) (load_child t.load_node c)) (children n)

abbrev pub weigh : Tree → ℕ → List NodeDataChild → ℕ
weigh t zero cs = length cs
weigh t (suc d) cs =
    total (λ c. 2 + of_child_weight (node_weight t d) (load_child t.load_node c)) cs

module _ (t : Tree) where
  -- The steps that are left in the first `k` nodes of the stack.
  abbrev pub pending : ℕ → Stack → ℕ → ℕ
  pending h s zero = 0
  pending h s (suc k) =
      suc (weigh t h (of_node (after_index (s.indexes k)) (s.nodes k)) + pending (suc h) s k)

  pub pending-Agree :
      (h : ℕ) (s s' : Stack) (k : ℕ) → Agree t s s' k → pending h s' k ≡ pending h s k
  pending-Agree h s s' zero a = refl
  pending-Agree h s s' (suc k) a =
      let (p, q) = a k (omega arith) in
      rw (p, q, pending-Agree (suc h) s s' k (λ i lt. a i (omega arith))) refl

  pub record IsAt (s : Stack) (es : Entries) (w : ℕ) : Type 0 where
    pub height : ℕ
    pub level : ℕ
    pub node : Node
    pub place : ℕ
    pub on_top : s.top ≡ level
    pub shallow : level + height < maximum_tree_depth
    pub root : Node
    pub rooted : s.nodes 0 ≡ some root
    pub coherent : IsCoherent t s
    pub at : s.nodes level ≡ some node
    pub here : s.indexes level ≡ pos place
    pub tree : IsTree t height node
    pub filled : IsFilled t height node
    pub levels : Levels t (suc height) s level
    pub ordered : IsOrdered es
    pub left : es ≡ under t height (drop place (children node)) ++ after t (suc height) s level
    pub weight : w ≡ weigh t height (drop place (children node)) + pending (suc height) s level

  module _ (s : Stack) (es : Entries) (w : ℕ) (a : IsAt s es w) where
    pub at_top : s.nodes s.top ≡ some a.node
    at_top = ap s.nodes a.on_top ∙ a.at

    pub index_here : index s ≡ pos a.place
    index_here = ap s.indexes a.on_top ∙ a.here

    pub current_node-IsAt : current_node s ≡ ok (a.node, s)
    current_node-IsAt = rw (current_node, at_top) refl

    pub child-IsAt : child s ≡ ok (get_elem? (children a.node) a.place, s)
    child-IsAt =
        child_lem a.node s at_top ∙ ap (λ j. ok (child_at (children a.node) j, s)) index_here
