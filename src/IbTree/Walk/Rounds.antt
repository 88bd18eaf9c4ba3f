-- ===== src/IbTree/Walk/Rounds.antt =====
-- The rounds of `goNextLeaf` in ibtree/ibstack.go.
use go_tfhfs.Common.{
  ℕ, suc, ◌≡◌, refl, true, false, Option, none, some, ◌++◌, Bytes, ok, arith, pos, ◌∙◌, sym, ap,
  drop, length, ◌==◌, Bool, Bool-cases, inl, inr, ℤ, int_eq,
}
use go_tfhfs.IbTree.Node.{Node, Tree, leafy, children}
use go_tfhfs.IbTree.Stack.{
  Stack, ◌>>=◌, index, set_index, invalidate_sub_nodes, child_at, maximum_tree_depth, next_of,
}
use go_tfhfs.IbTree.Stack.Cache.{
  IsCoherent, int_eq-eq, set_index-IsCoherent, top-set_index, nodes-set_index, indexes-set_index_at,
  invalidate_sub_nodes-IsCoherent, top-invalidate_sub_nodes, indexes-invalidate_sub_nodes,
  nodes-invalidate_sub_nodes,
}
use go_tfhfs.IbTree.Walk.{go_down_first, go_next_leaf, go_past_end, inside_node, key_of}
use go_tfhfs.IbTree.Walk.Landing.{Lands, no_child}
use go_tfhfs.IbTree.Walk.Paths.{under, after}

pub suc-ne-zero : (k : ℕ) → (suc k == 0) ≡ false
suc-ne-zero k = ground arith

module _ (t : Tree) where
  pub next_in_leaf :
      (fuel : ℕ) (n : Node) (s : Stack)
      → s.nodes s.top ≡ some n
      → inside_node (next_of (index s)) n ≡ true
      → leafy n ≡ true
      → go_next_leaf t (suc fuel) s
        ≡ ok (true, invalidate_sub_nodes (set_index (next_of (index s)) s))
  unfolding go_next_leaf
  next_in_leaf fuel n s at inside lf = rw (go_next_leaf, at, ◌>>=◌, inside, lf) refl

  pub next_down :
      (fuel : ℕ) (n : Node) (s s₁ : Stack)
      → s.nodes s.top ≡ some n
      → inside_node (next_of (index s)) n ≡ true
      → leafy n ≡ false
      → go_down_first t maximum_tree_depth (next_of (index s)) s ≡ ok (tt, s₁)
      → go_next_leaf t (suc fuel) s ≡ ok (true, invalidate_sub_nodes s₁)
  unfolding go_next_leaf
  next_down fuel n s s₁ at inside lf ran = rw (go_next_leaf, at, ◌>>=◌, inside, lf, ran) refl

  pub next_up :
      (fuel : ℕ) (n : Node) (s : Stack) (k : ℕ)
      → s.nodes s.top ≡ some n
      → inside_node (next_of (index s)) n ≡ false
      → s.top ≡ suc k
      → go_next_leaf t (suc fuel) s ≡ go_next_leaf t fuel (record s { top = k })
  unfolding go_next_leaf
  next_up fuel n s k at outside top = rw (go_next_leaf, at, ◌>>=◌, outside, top, suc-ne-zero k) refl

  pub next_end :
      (fuel : ℕ) (n : Node) (s : Stack)
      → s.nodes s.top ≡ some n
      → inside_node (next_of (index s)) n ≡ false
      → s.top ≡ 0
      → go_next_leaf t (suc fuel) s ≡ go_past_end n s
  unfolding go_next_leaf
  next_end fuel n s at outside top = rw (go_next_leaf, at, ◌>>=◌, outside, top) refl

  -- What is after the way of the stack, level by level.
  pub after_here :
      (h k : ℕ) (n : Node) (s : Stack) (i : ℕ)
      → s.nodes k ≡ some n
      → s.indexes k ≡ pos i
      → after t h s (suc k) ≡ under t h (drop (suc i) (children n)) ++ after t (suc h) s k
  after_here h k n s i at here = rw (at, here) refl

  module _ (root : Node) where
    pub Lands-invalidate_sub_nodes :
        (r : Option Bytes) (s : Stack) → Lands t root r s → Lands t root r (invalidate_sub_nodes s)
    Lands-invalidate_sub_nodes r s l = record {
      coherent = invalidate_sub_nodes-IsCoherent t s l.coherent;
      rooted = nodes-invalidate_sub_nodes t s 0 (omega arith) ∙ l.rooted;
      level = l.level;
      on_top = top-invalidate_sub_nodes t s ∙ l.on_top;
      leaf = l.leaf;
      at = nodes-invalidate_sub_nodes t s l.level (omega (arith, l.on_top)) ∙ l.at;
      key =
          ap (λ (j : ℤ). key_of (child_at (children l.leaf) j))
            (indexes-invalidate_sub_nodes t s l.level)
          ∙ l.key;
    }

    -- The index of the top changed.
    pub Lands-set_index :
        (r : Option Bytes) (n : Node) (s : Stack) (k : ℕ) (idx : ℤ)
        → s.top ≡ k
        → IsCoherent t s
        → s.nodes 0 ≡ some root
        → s.nodes k ≡ some n
        → key_of (child_at (children n) idx) ≡ r
        → Lands t root r (set_index idx s)
    Lands-set_index r n s k idx top h rooted at e = record {
      coherent = set_index-IsCoherent t idx s h;
      rooted = nodes-set_index t idx s 0 (omega arith) ∙ rooted;
      level = k;
      on_top = top-set_index t idx s ∙ top;
      leaf = n;
      at = nodes-set_index t idx s k (omega (arith, top)) ∙ at;
      key =
          ap (λ (j : ℤ). key_of (child_at (children n) j))
            (indexes-set_index_at t idx s k (sym top))
          ∙ e;
    }

    pub past_end-Lands :
        (n : Node) (s : Stack)
        → s.top ≡ 0
        → IsCoherent t s
        → s.nodes 0 ≡ some root
        → s.nodes 0 ≡ some n
        → (b : Bool) × (s' : Stack) × (go_past_end n s ≡ ok (b, s')) × Lands t root none s'
    past_end-Lands n s top h r at =
        let len = pos (length (children n)) in
        elim (Bool-cases (int_eq (index s) len)) [
          | inl e ↦ (
            false,
            s,
            rw e refl,
            record {
              coherent = h;
              rooted = r;
              level = 0;
              on_top = top;
              leaf = n;
              at = at;
              key =
                  ap (λ (j : ℤ). key_of (child_at (children n) j))
                    (ap s.indexes (sym top) ∙ int_eq-eq (index s) len e)
                  ∙ no_child (children n);
            },
          )
          | inr e ↦ (
            true,
            set_index len s,
            rw e refl,
            Lands-set_index none n s 0 len top h r at (no_child (children n)),
          )
        ]
