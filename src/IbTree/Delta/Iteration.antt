-- ===== src/IbTree/Delta/Iteration.antt =====
-- `IterateDelta` of ibtree/delta.go finds the differences between two trees.
use go_tfhfs.Common.{
  ℕ, zero, suc, ◌+◌, ◌<◌, ◌≡◌, refl, inl, inr, Bool, true, none, some, List, [], ◌++◌, ok, arith,
  ◌∙◌, sym, append_right-nil,
}
use go_tfhfs.IbTree.Delta.{Change, delta_round, delta_loop, iterate_delta, only_first, rooted_stack}
use go_tfhfs.IbTree.Delta.Differences.{IsDelta, no_changes}
use go_tfhfs.IbTree.Delta.Places.{IsAt, node_weight}
use go_tfhfs.IbTree.Delta.Descents.{weigh-children}
use go_tfhfs.IbTree.Delta.Rounds.{delta_round_lem}
use go_tfhfs.IbTree.Node.{Node, Tree, children}
use go_tfhfs.IbTree.Stack.{Stack, maximum_tree_depth}
use go_tfhfs.IbTree.Walk.Contents.{Entries, IsTree, contents}
use go_tfhfs.IbTree.Walk.Ordered.{contents-IsOrdered}
use go_tfhfs.IbTree.Walk.Paths.{IsFilled, under, under-children}

module _ (t : Tree) (same : Node → Node → Bool) where
  loop_ends :
      (fuel : ℕ) (s0 s : Stack)
      → delta_round t same s0 s ≡ ok none
      → delta_loop t same (suc fuel) s0 s ≡ ok []
  unfolding delta_loop
  loop_ends fuel s0 s e = rw (delta_loop, e) refl

  loop_goes_on :
      (fuel : ℕ) (s0 s s0' s' : Stack) (cs rest : List Change)
      → delta_round t same s0 s ≡ ok (some (cs, s0', s'))
      → delta_loop t same fuel s0' s' ≡ ok rest
      → delta_loop t same (suc fuel) s0 s ≡ ok (cs ++ rest)
  unfolding delta_loop
  loop_goes_on fuel s0 s s0' s' cs rest e more = rw (delta_loop, e, more) refl

  -- With more fuel than there are steps left, the loop ends with the changes that are left.
  delta_loop-IsDelta :
      ((a b : Node) → same a b ≡ true → a ≡ b)
      → (fuel : ℕ) (s0 s : Stack) (old new : Entries) (w0 w : ℕ) → IsAt t s0 old w0
      → IsAt t s new w
      → w0 + w < fuel
      → (cs : List Change) × (delta_loop t same fuel s0 s ≡ ok cs) × IsDelta old new cs
  delta_loop-IsDelta sound zero s0 s old new w0 w a0 a enough = absurd (omega arith)
  delta_loop-IsDelta sound (suc fuel) s0 s old new w0 w a0 a enough =
      elim (delta_round_lem t same sound s0 s old new w0 w a0 a) [
        | inl (e, no_old, no_new) ↦ ([], loop_ends fuel s0 s e, rw (no_old, no_new) no_changes)
        | inr r ↦
            let (cs, more, d) =
              delta_loop-IsDelta sound fuel r.s0' r.s' r.old' r.new' r.w0' r.w' r.at0 r.at
                (omega (arith, r.less)) in
            (r.out ++ cs, loop_goes_on fuel s0 s r.s0' r.s' r.out cs r.ran more, r.delta cs d)
      ]

nothing_below : (root : Node) (i : ℕ) → 0 < i → only_first root i ≡ none
nothing_below root zero h = absurd (omega arith)
nothing_below root (suc i) h = refl

rooted_stack-IsAt :
    (t : Tree) (d : ℕ) (root : Node)
    → IsTree t d root
    → IsFilled t d root
    → d < maximum_tree_depth
    → IsAt t (rooted_stack root) (contents t d root) (node_weight t d root)
rooted_stack-IsAt t d root tree filled few = record {
  height = d;
  level = 0;
  node = root;
  place = 0;
  on_top = refl;
  shallow = omega arith;
  root = root;
  rooted = refl;
  coherent = record {
    inside = omega arith;
    empty_below = nothing_below root;
    linked = λ i m e. cc;
  };
  at = refl;
  here = refl;
  tree = tree;
  filled = filled;
  levels = tt;
  ordered = contents-IsOrdered t d root tree;
  left = sym (append_right-nil (under t d (children root)) ∙ under-children t d root);
  weight = omega (arith, weigh-children t d root);
}

-- For two trees of at most ten levels whose keys are in order, in which no node below the top is
-- empty and no entry of a leaf has a child node, where the test of two pointers holds only for the
-- same node, and with more fuel than there are entries and twice the child nodes in both,
-- `IterateDelta` never panics and ends, and its callbacks give each key whose value differs once, in
-- the order of the keys, with its values in both trees, and no other key.
pub iterate_delta-IsDelta :
    (t : Tree) (same : Node → Node → Bool) (fuel : ℕ) (self original : Node) (d d0 : ℕ)
    → ((a b : Node) → same a b ≡ true → a ≡ b)
    → IsTree t d self
    → IsFilled t d self
    → d < maximum_tree_depth
    → IsTree t d0 original
    → IsFilled t d0 original
    → d0 < maximum_tree_depth
    → node_weight t d0 original + node_weight t d self < fuel
    → (cs : List Change) × (iterate_delta t same fuel self original ≡ ok cs)
      × IsDelta (contents t d0 original) (contents t d self) cs
unfolding iterate_delta
iterate_delta-IsDelta t same fuel self original d d0 sound tree filled few tree0 filled0 few0
      enough =
    delta_loop-IsDelta t same sound fuel (rooted_stack original) (rooted_stack self) _ _
      (node_weight t d0 original) (node_weight t d self)
      (rooted_stack-IsAt t d0 original tree0 filled0 few0)
      (rooted_stack-IsAt t d self tree filled few) enough
