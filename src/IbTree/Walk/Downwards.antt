-- ===== src/IbTree/Walk/Downwards.antt =====
-- The way down of `goNextLeaf` in ibtree/ibstack.go, to the first entry under a child.
use go_tfhfs.Common.{
  ℕ, zero, suc, ◌+◌, ◌<◌, ◌≡◌, refl, true, false, some, ok, arith, pos, ℤ, ◌∙◌, sym, ap, drop,
  length,
}
use mathlib.Core.Path.{subst}
use go_tfhfs.IbTree.Node.{Node, Tree, leafy, children}
use go_tfhfs.IbTree.Stack.{Stack, ◌>>=◌, child_at, maximum_tree_depth}
use go_tfhfs.IbTree.Stack.Cache.{IsCoherent}
use go_tfhfs.IbTree.Walk.{go_down_first, push_index, key_of}
use go_tfhfs.IbTree.Walk.Contents.{IsTree}
use go_tfhfs.IbTree.Walk.Ordered.{first_key}
use go_tfhfs.IbTree.Walk.Paths.{IsFilled, under}
use go_tfhfs.IbTree.Walk.Landing.{Lands, first_key-head, first_at, has_first}
use go_tfhfs.IbTree.Walk.Entering.{enters}

module _ (t : Tree) (root : Node) where
  down_leaf :
      (fuel : ℕ) (m : Node) (s s₁ : Stack) (i : ℕ)
      → push_index t (pos i) s ≡ ok (tt, s₁)
      → s₁.nodes s₁.top ≡ some m
      → leafy m ≡ true
      → go_down_first t (suc fuel) (pos i) s ≡ ok (tt, s₁)
  unfolding go_down_first
  down_leaf fuel m s s₁ i p at lf = rw (p, ◌>>=◌, at, lf) refl

  down_on :
      (fuel : ℕ) (m : Node) (s s₁ : Stack) (i : ℕ)
      → push_index t (pos i) s ≡ ok (tt, s₁)
      → s₁.nodes s₁.top ≡ some m
      → leafy m ≡ false
      → go_down_first t (suc fuel) (pos i) s ≡ go_down_first t fuel (pos 0) s₁
  unfolding go_down_first
  down_on fuel m s s₁ i p at lf = rw (p, ◌>>=◌, at, lf) refl

  -- From an interior node, the way down to the child at an index ends at the first entry under it.
  pub go_down_first-Lands :
      (h fuel : ℕ) (n : Node) (s : Stack) (k i : ℕ)
      → s.top ≡ k
      → IsTree t (suc h) n
      → IsFilled t (suc h) n
      → IsCoherent t s
      → s.nodes 0 ≡ some root
      → s.nodes k ≡ some n
      → i < length (children n)
      → k + suc h < maximum_tree_depth
      → h < fuel
      → (s' : Stack) × (go_down_first t fuel (pos i) s ≡ ok (tt, s'))
        × Lands t root (first_key (under t (suc h) (drop i (children n)))) s'
  go_down_first-Lands h zero n s k i top tree filled co r at lt room enough = absurd (omega arith)
  go_down_first-Lands zero (suc fuel) n s k i top tree filled co r at lt room enough =
      let (c, m, s₁, at_c, l, e) =
        enters t root 0 n s k i top tree filled co r at lt (omega arith) in
      let (x, first) = has_first t 0 m e.tree e.filled e.full in
      (
        s₁,
        down_leaf fuel m s s₁ i e.ran (ap s₁.nodes e.on_top ∙ e.at) e.tree.0,
        record {
          coherent = e.coherent;
          rooted = e.rooted;
          level = suc k;
          on_top = e.on_top;
          leaf = m;
          at = e.at;
          key =
              ap (λ (j : ℤ). key_of (child_at (children m) j)) e.index
              ∙ first_key-head (children m)
              ∙ first
              ∙ sym (first_at t 0 (children n) i c m x at_c l first);
        },
      )
  go_down_first-Lands (suc h) (suc fuel) n s k i top tree filled co r at lt room enough =
      let (c, m, s₁, at_c, l, e) =
        enters t root (suc h) n s k i top tree filled co r at lt (omega arith) in
      let (x, first) = has_first t (suc h) m e.tree e.filled e.full in
      let (s₂, rest, lands) =
        go_down_first-Lands h fuel m s₁ (suc k) 0 e.on_top e.tree e.filled e.coherent e.rooted e.at
          e.full (omega arith) (omega arith) in
      (
        s₂,
        down_on fuel m s s₁ i e.ran (ap s₁.nodes e.on_top ∙ e.at) e.tree.0 ∙ rest,
        subst (λ y. Lands t root y s₂)
            (first ∙ sym (first_at t (suc h) (children n) i c m x at_c l first)) lands,
      )
