-- ===== src/IbTree/Walk/Backward.antt =====
-- The rounds of `goPreviousLeaf` in ibtree/ibstack.go, and its way down to the last entry under a
-- child.
use go_tfhfs.Common.{
  ℕ, zero, suc, ◌+◌, ◌<◌, ◌≡◌, refl, true, false, some, ok, arith, pos, negsuc, ℤ, ◌∙◌, sym, ap,
  take, length,
}
use mathlib.Core.Path.{subst}
use go_tfhfs.IbTree.Node.{Node, Tree, leafy, children}
use go_tfhfs.IbTree.Stack.{
  Stack, ◌>>=◌, index, set_index, child_at, maximum_tree_depth, previous_of,
}
use go_tfhfs.IbTree.Stack.Cache.{IsCoherent, int_eq_self}
use go_tfhfs.IbTree.Walk.{
  go_down_last, push_index, last_index, key_of, go_previous_leaf, go_past_start, is_index,
}
use go_tfhfs.IbTree.Walk.Contents.{entries, IsTree}
use go_tfhfs.IbTree.Walk.Entering.{enters}
use go_tfhfs.IbTree.Walk.Landing.{Lands}
use go_tfhfs.IbTree.Walk.Lasts.{last_of, last_in_leaf, last_at, has_last}
use go_tfhfs.IbTree.Walk.Ordered.{last_key}
use go_tfhfs.IbTree.Walk.Paths.{IsFilled, under}
use go_tfhfs.IbTree.Walk.Rounds.{Lands-set_index, suc-ne-zero}

module _ (t : Tree) where
  pub down_leaf :
      (fuel : ℕ) (m : Node) (s s₁ : Stack) (i : ℕ)
      → push_index t (pos i) s ≡ ok (tt, s₁)
      → s₁.nodes s₁.top ≡ some m
      → leafy m ≡ true
      → go_down_last t (suc fuel) (pos i) s ≡ ok (last_index m, s₁)
  unfolding go_down_last
  down_leaf fuel m s s₁ i p at lf = rw (p, ◌>>=◌, at, lf) refl

  pub down_on :
      (fuel : ℕ) (m : Node) (s s₁ : Stack) (i : ℕ)
      → push_index t (pos i) s ≡ ok (tt, s₁)
      → s₁.nodes s₁.top ≡ some m
      → leafy m ≡ false
      → go_down_last t (suc fuel) (pos i) s ≡ go_down_last t fuel (last_index m) s₁
  unfolding go_down_last
  down_on fuel m s s₁ i p at lf = rw (p, ◌>>=◌, at, lf) refl

  pub previous_in_leaf :
      (fuel : ℕ) (n : Node) (s : Stack)
      → s.nodes s.top ≡ some n
      → is_index (previous_of (index s)) ≡ true
      → leafy n ≡ true
      → go_previous_leaf t (suc fuel) s ≡ ok (true, set_index (previous_of (index s)) s)
  unfolding go_previous_leaf
  previous_in_leaf fuel n s at inside lf = rw (go_previous_leaf, at, ◌>>=◌, inside, lf) refl

  pub previous_down :
      (fuel : ℕ) (n : Node) (s s₁ : Stack) (idx : ℤ)
      → s.nodes s.top ≡ some n
      → is_index (previous_of (index s)) ≡ true
      → leafy n ≡ false
      → go_down_last t maximum_tree_depth (previous_of (index s)) s ≡ ok (idx, s₁)
      → go_previous_leaf t (suc fuel) s ≡ ok (true, set_index idx s₁)
  unfolding go_previous_leaf
  previous_down fuel n s s₁ idx at inside lf ran =
      rw (go_previous_leaf, at, ◌>>=◌, inside, lf, ran) refl

  pub previous_up :
      (fuel : ℕ) (n : Node) (s : Stack) (k : ℕ)
      → s.nodes s.top ≡ some n
      → is_index (previous_of (index s)) ≡ false
      → s.top ≡ suc k
      → go_previous_leaf t (suc fuel) s ≡ go_previous_leaf t fuel (record s { top = k })
  unfolding go_previous_leaf
  previous_up fuel n s k at outside top =
      rw (go_previous_leaf, at, ◌>>=◌, outside, top, suc-ne-zero k) refl

  pub previous_end :
      (fuel : ℕ) (n : Node) (s : Stack)
      → s.nodes s.top ≡ some n
      → is_index (previous_of (index s)) ≡ false
      → s.top ≡ 0
      → go_previous_leaf t (suc fuel) s ≡ go_past_start s
  unfolding go_previous_leaf
  previous_end fuel n s at outside top = rw (go_previous_leaf, at, ◌>>=◌, outside, top) refl

  pub past_start :
      (s : Stack) → index s ≡ pos 0 → go_past_start s ≡ ok (true, set_index (negsuc 0) s)
  past_start s here = rw (go_past_start, here, int_eq_self (pos 0)) refl

module _ (t : Tree) (root : Node) where
  -- From an interior node, the way down to the child at an index ends at the last entry under it.
  pub go_down_last-Lands :
      (h fuel : ℕ) (n : Node) (s : Stack) (k i : ℕ)
      → s.top ≡ k
      → IsTree t (suc h) n
      → IsFilled t (suc h) n
      → IsCoherent t s
      → s.nodes 0 ≡ some root
      → s.nodes k ≡ some n
      → i < length (children n)
      → k + suc h < maximum_tree_depth
      → h < fuel
      → (idx : ℤ) × (s' : Stack) × (go_down_last t fuel (pos i) s ≡ ok (idx, s'))
        × Lands t root (last_key (under t (suc h) (take (suc i) (children n)))) (set_index idx s')
  go_down_last-Lands h zero n s k i top tree filled co r at lt room enough = absurd (omega arith)
  go_down_last-Lands zero (suc fuel) n s k i top tree filled co r at lt room enough =
      let (c, m, s₁, at_c, l, e) =
        enters t root 0 n s k i top tree filled co r at lt (omega arith) in
      let (x, last) = has_last t 0 m e.tree e.filled e.full in
      let (j, d, len, at_d, all) = last_of (children m) e.full in
      let index : last_index m ≡ pos j = ap (λ y. previous_of (pos y)) len in
      (
        last_index m,
        s₁,
        down_leaf t fuel m s s₁ i e.ran (ap s₁.nodes e.on_top ∙ e.at) e.tree.0,
        Lands-set_index t root _ m s₁ (suc k) (last_index m) e.on_top e.coherent e.rooted e.at (
            ap (λ y. key_of (child_at (children m) y)) index
            ∙ ap key_of at_d
            ∙ sym (last_in_leaf t (children m) j d at_d)
            ∙ ap (λ y. last_key (entries y)) all
            ∙ last
            ∙ sym (last_at t 0 (children n) i c m x at_c l last)),
      )
  go_down_last-Lands (suc h) (suc fuel) n s k i top tree filled co r at lt room enough =
      let (c, m, s₁, at_c, l, e) =
        enters t root (suc h) n s k i top tree filled co r at lt (omega arith) in
      let (x, last) = has_last t (suc h) m e.tree e.filled e.full in
      let (j, d, len, at_d, all) = last_of (children m) e.full in
      let index : last_index m ≡ pos j = ap (λ y. previous_of (pos y)) len in
      let (idx, s₂, rest, lands) =
        go_down_last-Lands h fuel m s₁ (suc k) j e.on_top e.tree e.filled e.coherent e.rooted e.at
          (omega (arith, len)) (omega arith) (omega arith) in
      (
        idx,
        s₂,
        down_on t fuel m s s₁ i e.ran (ap s₁.nodes e.on_top ∙ e.at) e.tree.0
            ∙ ap (λ y. go_down_last t fuel y s₁) index
            ∙ rest,
        subst (λ y. Lands t root y (set_index idx s₂))
            (ap (λ y. last_key (under t (suc h) y)) all
              ∙ last
              ∙ sym (last_at t (suc h) (children n) i c m x at_c l last))
            lands,
      )
