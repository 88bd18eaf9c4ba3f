-- ===== src/IbTree/Walk/Previous.antt =====
-- `goPreviousLeaf` of ibtree/ibstack.go: the step to the entry before.
use go_tfhfs.Common.{
  ℕ, zero, suc, ◌+◌, ◌<◌, ◌≡◌, refl, true, some, [], ◌++◌, ok, arith, pos, negsuc, ◌∙◌, sym, ap,
  take, length, append_right-nil, Bool,
}
use mathlib.Core.Path.{subst}
use go_tfhfs.IbTree.Node.{Node, Tree, children}
use go_tfhfs.IbTree.Stack.{Stack, index, set_index, child_at, maximum_tree_depth, previous_of}
use go_tfhfs.IbTree.Stack.Cache.{IsCoherent}
use go_tfhfs.IbTree.Walk.{go_down_last, key_of, go_previous_leaf, is_index}
use go_tfhfs.IbTree.Walk.Contents.{IsTree}
use go_tfhfs.IbTree.Walk.Landing.{Lands, child_of}
use go_tfhfs.IbTree.Walk.Lasts.{last_key-append, last_in_leaf, has_last_under}
use go_tfhfs.IbTree.Walk.Ordered.{last_key}
use go_tfhfs.IbTree.Walk.Paths.{IsFilled, under, before, Levels, Levels-Agree, Agree, before-Agree}
use go_tfhfs.IbTree.Walk.Rounds.{Lands-set_index}
use go_tfhfs.IbTree.Walk.Backward.{
  previous_in_leaf, previous_down, previous_up, previous_end, past_start, go_down_last-Lands,
}

module _ (t : Tree) (root : Node) where
  before_here :
      (h k : ℕ) (n : Node) (s : Stack) (i : ℕ)
      → s.nodes k ≡ some n
      → s.indexes k ≡ pos i
      → before t h s (suc k) ≡ before t (suc h) s k ++ under t h (take i (children n))
  before_here h k n s i at here = rw (at, here) refl

  under-nil : (h : ℕ) → under t h [] ≡ []
  under-nil zero = refl
  under-nil (suc h) = refl

  -- A node with nothing before the place.
  pass :
      (h k : ℕ) (n : Node) (s : Stack)
      → s.nodes k ≡ some n
      → s.indexes k ≡ pos 0
      → before t h s (suc k) ≡ before t (suc h) s k
  pass h k n s at here =
      before_here h k n s 0 at here
      ∙ ap (◌++◌ (before t (suc h) s k)) (under-nil h)
      ∙ append_right-nil (before t (suc h) s k)

  previous_inside :
      (h fuel k : ℕ) (n : Node) (s : Stack) (i : ℕ)
      → s.top ≡ k
      → s.nodes k ≡ some n
      → s.indexes k ≡ pos (suc i)
      → IsTree t h n
      → IsFilled t h n
      → IsCoherent t s
      → s.nodes 0 ≡ some root
      → k + h < maximum_tree_depth
      → i < length (children n)
      → (b : Bool) × (s' : Stack) × (go_previous_leaf t (suc fuel) s ≡ ok (b, s'))
        × Lands t root (last_key (before t h s (suc k))) s'
  previous_inside zero fuel k n s i top at here tree filled co r room lt =
      let at' = ap s.nodes top ∙ at in
      let previous : previous_of (index s) ≡ pos i = ap previous_of (ap s.indexes top ∙ here) in
      let (c, at_c, e) = child_of (children n) i lt in
      (
        true,
        set_index (previous_of (index s)) s,
        previous_in_leaf t fuel n s at' (ap is_index previous) tree.0,
        Lands-set_index t root _ n s k (previous_of (index s)) top co r at (
            ap (λ y. key_of (child_at (children n) y)) previous
            ∙ ap key_of at_c
            ∙ sym (last_key-append (before t 1 s k) _ c.key (last_in_leaf t (children n) i c at_c))
            ∙ sym (ap last_key (before_here 0 k n s (suc i) at here))),
      )
  previous_inside (suc h) fuel k n s i top at here tree filled co r room lt =
      let at' = ap s.nodes top ∙ at in
      let previous : previous_of (index s) ≡ pos i = ap previous_of (ap s.indexes top ∙ here) in
      let (x, last) = has_last_under t h n i tree filled lt in
      let (idx, s₁, ran, l) =
        go_down_last-Lands t root h maximum_tree_depth n s k i top tree filled co r at lt room
          (omega arith) in
      (
        true,
        set_index idx s₁,
        previous_down t fuel n s s₁ idx at' (ap is_index previous) tree.0
            (ap (λ y. go_down_last t maximum_tree_depth y s) previous ∙ ran),
        subst (λ y. Lands t root y (set_index idx s₁))
            (last
              ∙ sym (last_key-append (before t (suc (suc h)) s k) _ x last)
              ∙ sym (ap last_key (before_here (suc h) k n s (suc i) at here)))
            l,
      )

  -- `goPreviousLeaf` ends at the last entry before the place where it starts, if there is one.
  pub go_previous_leaf-Lands :
      (h fuel k : ℕ) (s : Stack)
      → s.top ≡ k
      → Levels t h s (suc k)
      → IsCoherent t s
      → s.nodes 0 ≡ some root
      → k + h < maximum_tree_depth
      → k < fuel
      → (b : Bool) × (s' : Stack) × (go_previous_leaf t fuel s ≡ ok (b, s'))
        × Lands t root (last_key (before t h s (suc k))) s'
  go_previous_leaf-Lands h zero k s top l co r room enough = absurd (omega arith)
  go_previous_leaf-Lands h (suc fuel) zero s top (n, zero, at, here, tree, filled, bound, l) co r
        room enough =
      let here' : index s ≡ pos 0 = ap s.indexes top ∙ here in
      (
        true,
        set_index (negsuc 0) s,
        previous_end t fuel n s (ap s.nodes top ∙ at) (ap (λ j. is_index (previous_of j)) here') top
            ∙ past_start t s here',
        Lands-set_index t root _ n s 0 (negsuc 0) top co r at
            (sym (ap last_key (pass h 0 n s at here))),
      )
  go_previous_leaf-Lands h (suc fuel) (suc k) s top (n, zero, at, here, tree, filled, bound, l) co r
        room enough =
      let popped : Stack = record s { top = k } in
      let same : Agree t s popped (suc k) = λ j lt. (refl, refl) in
      let co' : IsCoherent t popped = record {
        inside = omega (arith, co.inside, top);
        empty_below = co.empty_below;
        linked = co.linked;
      } in
      let (b, s', ran, lands) =
        go_previous_leaf-Lands (suc h) fuel k popped refl
          (Levels-Agree t (suc h) s popped (suc k) same l) co' r (omega arith) (omega arith) in
      (
        b,
        s',
        previous_up t fuel n s k (ap s.nodes top ∙ at)
              (ap (λ j. is_index (previous_of j)) (ap s.indexes top ∙ here)) top
            ∙ ran,
        subst (λ y. Lands t root (last_key y) s')
            (before-Agree t (suc h) s popped (suc k) same ∙ sym (pass h (suc k) n s at here)) lands,
      )
  go_previous_leaf-Lands h (suc fuel) k s top (n, suc i, at, here, tree, filled, bound, l) co r room
        enough =
      previous_inside h fuel k n s i top at here tree filled co r room (omega arith)
