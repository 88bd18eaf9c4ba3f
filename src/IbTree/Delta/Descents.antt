-- ===== src/IbTree/Delta/Descents.antt =====
-- The moves of a stack of `IterateDelta` (ibtree/delta.go) down to a child.
use go_tfhfs.Common.{
  ℕ, suc, ◌+◌, ◌<◌, ◌≡◌, refl, some, zero, List, ◌∷◌, ◌++◌, ok, arith, get_elem?, pos, ◌∙◌, sym, ap,
  drop, length,
}
use mathlib.Core.List.{append_assoc}
use mathlib.Core.Path.{subst}
use go_tfhfs.IbTree.Delta.{push_current_index}
use go_tfhfs.IbTree.Delta.Places.{
  IsAt, weigh, node_weight, pending, pending-Agree, of_child_weight, index_here,
}
use go_tfhfs.IbTree.Delta.Moves.{pending_at, inside}
use go_tfhfs.IbTree.Node.{Node, NodeDataChild, Tree, children, load_child}
use go_tfhfs.IbTree.Stack.{Stack, maximum_tree_depth}
use go_tfhfs.IbTree.Stack.Cache.{IsCoherent}
use go_tfhfs.IbTree.Walk.{push_index}
use go_tfhfs.IbTree.Walk.Contents.{Entries, IsTree, contents, of_child}
use go_tfhfs.IbTree.Walk.Entering.{enters}
use go_tfhfs.IbTree.Walk.Landing.{drop_at}
use go_tfhfs.IbTree.Walk.Ordered.{IsOrdered}
use go_tfhfs.IbTree.Walk.Paths.{
  IsFilled, under, under-children, after, after-Agree, Levels, Levels-Agree,
}
use go_tfhfs.IbTree.Walk.Rounds.{after_here}

module _ (t : Tree) where
  -- The entries and the steps under a child that is loaded.
  under_loaded :
      (h : ℕ) (c : NodeDataChild) (m : Node) (cs : List NodeDataChild)
      → load_child t.load_node c ≡ ok (some m)
      → under t (suc h) (c ∷ cs) ≡ under t h (children m) ++ under t (suc h) cs
  under_loaded h c m cs l =
      ap (λ (x : Entries). x ++ under t (suc h) cs)
        (ap (of_child (contents t h)) l ∙ sym (under-children t h m))

  pub weigh-children : (h : ℕ) (m : Node) → weigh t h (children m) ≡ node_weight t h m
  weigh-children zero m = refl
  weigh-children (suc h) m = refl

  weigh_loaded :
      (h : ℕ) (c : NodeDataChild) (m : Node) (cs : List NodeDataChild)
      → load_child t.load_node c ≡ ok (some m)
      → weigh t (suc h) (c ∷ cs) ≡ 2 + weigh t h (children m) + weigh t (suc h) cs
  weigh_loaded h c m cs l =
      omega (arith, ap (of_child_weight (node_weight t h)) l, weigh-children h m)

  down-IsAt :
      (s : Stack) (es : Entries) (w h k i : ℕ) (n root : Node)
      → s.top ≡ k
      → k + suc h < maximum_tree_depth
      → s.nodes 0 ≡ some root
      → IsCoherent t s
      → s.nodes k ≡ some n
      → IsTree t (suc h) n
      → IsFilled t (suc h) n
      → Levels t (suc (suc h)) s k
      → IsOrdered es
      → es ≡ under t (suc h) (drop i (children n)) ++ after t (suc (suc h)) s k
      → w ≡ weigh t (suc h) (drop i (children n)) + pending t (suc (suc h)) s k
      → i < length (children n)
      → (s' : Stack) × (w' : ℕ) × (push_index t (pos i) s ≡ ok (tt, s'))
        × (w' < w)
        × IsAt t s' es w'
  down-IsAt s es w h k i n root top room r co at tree filled levels ordered left weight lt =
      let (c, m, s₁, at_c, l, e) =
        enters t root h n s k i top tree filled co r at lt (omega arith) in
      let cs = drop (suc i) (children n) in
      let parts : drop i (children n) ≡ c ∷ cs = drop_at (children n) i c at_c in
      let parent : s₁.nodes k ≡ some n = e.parent ∙ at in
      let here = after_here t (suc h) k n s₁ i parent e.parent_index in
      let here_w = pending_at t (suc h) k n s₁ i parent e.parent_index in
      (
        s₁,
        weigh t h (children m) + pending t (suc h) s₁ (suc k),
        e.ran,
        omega (
          arith,
          weight,
          ap (weigh t (suc h)) parts,
          weigh_loaded h c m cs l,
          here_w,
          pending-Agree t (suc (suc h)) s s₁ k e.kept,
        ),
        record {
          height = h;
          level = suc k;
          node = m;
          place = 0;
          on_top = e.on_top;
          shallow = omega arith;
          root = root;
          rooted = e.rooted;
          coherent = e.coherent;
          at = e.at;
          here = e.index;
          tree = e.tree;
          filled = e.filled;
          levels = (
            n,
            i,
            parent,
            e.parent_index,
            tree,
            filled,
            omega arith,
            Levels-Agree t (suc (suc h)) s s₁ k e.kept levels,
          );
          ordered = ordered;
          left =
              left
              ∙ ap (λ x. under t (suc h) x ++ after t (suc (suc h)) s k) parts
              ∙ ap (λ (x : Entries). x ++ after t (suc (suc h)) s k) (under_loaded h c m cs l)
              ∙ append_assoc (under t h (children m)) (under t (suc h) cs)
                  (after t (suc (suc h)) s k)
              ∙ ap (◌++◌ (under t h (children m))) (
                  ap (◌++◌ (under t (suc h) cs)) (sym (after-Agree t (suc (suc h)) s s₁ k e.kept))
                  ∙ sym here);
          weight = refl;
        },
      )

  -- Down into the child where the stack stands in an interior node.
  pub push-IsAt :
      (s : Stack) (es : Entries) (w : ℕ) (a : IsAt t s es w) (c : NodeDataChild) (h : ℕ)
      → get_elem? (children a.node) a.place ≡ some c
      → a.height ≡ suc h
      → (s' : Stack) × (w' : ℕ) × (push_current_index t s ≡ ok (tt, s'))
        × (w' < w)
        × IsAt t s' es w'
  push-IsAt s es w a c h at_c e =
      let k = a.level in
      let cs = drop a.place (children a.node) in
      let (s', w', ran, less, there) =
        down-IsAt s es w h k a.place a.node a.root a.on_top (omega (arith, a.shallow, e)) a.rooted
          a.coherent a.at (subst (λ x. IsTree t x a.node) e a.tree)
          (subst (λ x. IsFilled t x a.node) e a.filled)
          (subst (λ x. Levels t (suc x) s k) e a.levels) a.ordered
          (a.left ∙ ap (λ x. under t x cs ++ after t (suc x) s k) e)
          (a.weight ∙ ap (λ x. weigh t x cs + pending t (suc x) s k) e)
          (inside (children a.node) a.place c at_c) in
      (s', w', ap (λ j. push_index t j s) (index_here t s es w a) ∙ ran, less, there)
