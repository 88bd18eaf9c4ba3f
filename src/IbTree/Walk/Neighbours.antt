-- ===== src/IbTree/Walk/Neighbours.antt =====
-- `goNextLeaf` and `NextKey` of ibtree/: the step to the next entry, and the next key.
use go_tfhfs.Common.{
  ℕ, zero, suc, ◌+◌, ◌≤◌, ◌<◌, ◌≡◌, refl, true, some, [], ◌++◌, ok, arith, pos, ◌∙◌, sym, ap, drop,
  length, ltb, Bool, Bool-cases, inl, inr, ℤ,
}
use mathlib.Core.Path.{subst}
use go_tfhfs.IbTree.Node.{Node, Tree, children}
use go_tfhfs.IbTree.Stack.{
  Stack, index, set_index, invalidate_sub_nodes, child_at, maximum_tree_depth, next_of,
}
use go_tfhfs.IbTree.Stack.Cache.{IsCoherent}
use go_tfhfs.IbTree.Walk.{go_down_first, go_next_leaf, inside_node, key_of}
use go_tfhfs.IbTree.Walk.Contents.{Entries, IsTree}
use go_tfhfs.IbTree.Walk.Downwards.{go_down_first-Lands}
use go_tfhfs.IbTree.Walk.Landing.{
  Lands, first_key-drop, nothing_left, has_first_under, first_key-append_right,
}
use go_tfhfs.IbTree.Walk.Rounds.{
  next_in_leaf, next_down, next_up, next_end, after_here, Lands-invalidate_sub_nodes,
  Lands-set_index, past_end-Lands,
}
use go_tfhfs.IbTree.Walk.Ordered.{first_key}
use go_tfhfs.IbTree.Walk.Paths.{IsFilled, under, after, Levels, Levels-Agree, Agree, after-Agree}

-- A node with nothing after the place.
pass :
    (t : Tree) (h k : ℕ) (n : Node) (s : Stack) (i : ℕ)
    → s.nodes k ≡ some n
    → s.indexes k ≡ pos i
    → length (children n) ≤ suc i
    → after t h s (suc k) ≡ after t (suc h) s k
pass t h k n s i at here le =
    after_here t h k n s i at here
    ∙ ap (λ (x : Entries). x ++ after t (suc h) s k) (nothing_left t h (children n) (suc i) le)

module _ (t : Tree) (root : Node) where
  -- Where the node on top has an entry after the place.
  next_inside :
      (h fuel k : ℕ) (n : Node) (s : Stack) (i : ℕ)
      → s.top ≡ k
      → s.nodes k ≡ some n
      → s.indexes k ≡ pos i
      → IsTree t h n
      → IsFilled t h n
      → IsCoherent t s
      → s.nodes 0 ≡ some root
      → k + h < maximum_tree_depth
      → ltb (suc i) (length (children n)) ≡ true
      → (es : Entries)
      → (b : Bool) × (s' : Stack) × (go_next_leaf t (suc fuel) s ≡ ok (b, s'))
        × Lands t root (first_key (under t h (drop (suc i) (children n)) ++ es)) s'
  next_inside zero fuel k n s i top at here tree filled co r room inside es =
      let at' = ap s.nodes top ∙ at in
      let next : next_of (index s) ≡ pos (suc i) = ap next_of (ap s.indexes top ∙ here) in
      let s' = set_index (next_of (index s)) s in
      (
        true,
        invalidate_sub_nodes s',
        next_in_leaf t fuel n s at' (ap (λ j. inside_node j n) next ∙ inside) tree.0,
        Lands-invalidate_sub_nodes t root _ s' (
            Lands-set_index t root _ n s k (next_of (index s)) top co r at (
              ap (λ (j : ℤ). key_of (child_at (children n) j)) next
              ∙ first_key-drop (children n) (suc i) es (ground arith))),
      )
  next_inside (suc h) fuel k n s i top at here tree filled co r room inside es =
      let at' = ap s.nodes top ∙ at in
      let next : next_of (index s) ≡ pos (suc i) = ap next_of (ap s.indexes top ∙ here) in
      let lt : suc i < length (children n) = ground arith in
      let (x, first) = has_first_under t h n (suc i) tree filled lt in
      let (s₁, ran, l) =
        go_down_first-Lands t root h maximum_tree_depth n s k (suc i) top tree filled co r at lt
          room (omega arith) in
      (
        true,
        invalidate_sub_nodes s₁,
        next_down t fuel n s s₁ at' (ap (λ j. inside_node j n) next ∙ inside) tree.0
            (ap (λ j. go_down_first t maximum_tree_depth j s) next ∙ ran),
        Lands-invalidate_sub_nodes t root _ s₁
            (subst (λ y. Lands t root y s₁) (first_key-append_right _ es x first) l),
      )

  -- `goNextLeaf` ends at the first entry after the place where it starts, if there is one.
  pub go_next_leaf-Lands :
      (h fuel k : ℕ) (s : Stack)
      → s.top ≡ k
      → Levels t h s (suc k)
      → IsCoherent t s
      → s.nodes 0 ≡ some root
      → k + h < maximum_tree_depth
      → k < fuel
      → (b : Bool) × (s' : Stack) × (go_next_leaf t fuel s ≡ ok (b, s'))
        × Lands t root (first_key (after t h s (suc k))) s'
  go_next_leaf-Lands h zero k s top l co r room enough = absurd (omega arith)
  go_next_leaf-Lands h (suc fuel) zero s top (n, i, at, here, tree, filled, bound, l) co r room
        enough =
      elim (Bool-cases (ltb (suc i) (length (children n)))) [
        | inl inside ↦
            rw (after_here t h 0 n s i at here)
              (next_inside h fuel 0 n s i top at here tree filled co r room inside [])
        | inr outside ↦
            let (b, s', ran, lands) = past_end-Lands t root n s top co r at in
            (
              b,
              s',
              next_end t fuel n s (ap s.nodes top ∙ at)
                    (ap (λ j. inside_node (next_of j) n) (ap s.indexes top ∙ here) ∙ outside) top
                  ∙ ran,
              subst (λ y. Lands t root (first_key y) s')
                  (sym (pass t h 0 n s i at here (ground arith))) lands,
            )
      ]
  go_next_leaf-Lands h (suc fuel) (suc k) s top (n, i, at, here, tree, filled, bound, l) co r room
        enough =
      elim (Bool-cases (ltb (suc i) (length (children n)))) [
        | inl inside ↦
            rw (after_here t h (suc k) n s i at here)
              (next_inside h fuel (suc k) n s i top at here tree filled co r room inside _)
        | inr outside ↦
            let popped : Stack = record s { top = k } in
            let same : Agree t s popped (suc k) = λ j lt. (refl, refl) in
            let co' : IsCoherent t popped = record {
              inside = omega (arith, co.inside, top);
              empty_below = co.empty_below;
              linked = co.linked;
            } in
            let (b, s', ran, lands) =
              go_next_leaf-Lands (suc h) fuel k popped refl
                (Levels-Agree t (suc h) s popped (suc k) same l) co' r (omega arith)
                (omega arith) in
            (
              b,
              s',
              next_up t fuel n s k (ap s.nodes top ∙ at)
                    (ap (λ j. inside_node (next_of j) n) (ap s.indexes top ∙ here) ∙ outside) top
                  ∙ ran,
              subst (λ y. Lands t root (first_key y) s')
                  (after-Agree t (suc h) s popped (suc k) same
                    ∙ sym (pass t h (suc k) n s i at here (ground arith)))
                  lands,
            )
      ]
