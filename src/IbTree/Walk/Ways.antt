-- ===== src/IbTree/Walk/Ways.antt =====
-- The stack of ibtree/ibstack.go after a search, with all that the tree holds before and after it.
use go_tfhfs.Common.{
  ℕ, suc, ◌<◌, ◌≡◌, some, ◌∷◌, ◌++◌, Bytes, ok, arith, get_elem?, pos, ◌∙◌, sym, ap, take, drop,
  length, List, append_right-nil, take-append-drop,
}
use mathlib.Core.List.{append_assoc}
use go_tfhfs.IbTree.Node.{Node, NodeDataChild, Tree, children, load_child}
use go_tfhfs.IbTree.Stack.{Stack, interior_index}
use go_tfhfs.IbTree.Walk.Contents.{Entries, entries, contents, IsTree, of_child}
use go_tfhfs.IbTree.Walk.Cuts.{split_at, interior_index-cuts}
use go_tfhfs.IbTree.Walk.Ordered.{Above, Below, All-append}
use go_tfhfs.IbTree.Walk.Paths.{
  IsFilled, under, under-append, after, before, Levels, Agree, after-Agree, before-Agree,
  Levels-Agree,
}

regroup : (a x m y z : Entries) → a ++ ((x ++ (m ++ y)) ++ z) ≡ (a ++ x) ++ (m ++ (y ++ z))
regroup a x m y z =
    ap (◌++◌ a) (append_assoc x (m ++ y) z ∙ ap (◌++◌ x) (append_assoc m y z))
    ∙ sym (append_assoc a x (m ++ (y ++ z)))

-- The entries of an interior node around one child.
flat_at :
    (t : Tree) (d : ℕ) (n m : Node) (c : NodeDataChild) (i : ℕ)
    → get_elem? (children n) i ≡ some c
    → load_child t.load_node c ≡ ok (some m)
    → contents t (suc d) n
      ≡ under t (suc d) (take i (children n))
        ++ (contents t d m ++ under t (suc d) (drop (suc i) (children n)))
flat_at t d n m c i at l =
    ap (under t (suc d)) (split_at (children n) i c at)
    ∙ under-append t (suc d) (take i (children n)) (c ∷ drop (suc i) (children n))
    ∙ ap
        (λ (x : Entries).
          under t (suc d) (take i (children n))
          ++ (x ++ under t (suc d) (drop (suc i) (children n))))
        (ap (of_child (contents t d)) l)

pub entries_at :
    (t : Tree) (i : ℕ) (cs : List NodeDataChild)
    → entries cs ≡ entries (take i cs) ++ entries (drop i cs)
entries_at t i cs =
    ap entries (sym (take-append-drop i cs)) ∙ under-append t 0 (take i cs) (drop i cs)

pub around : (a x y z : Entries) → a ++ ((x ++ y) ++ z) ≡ (a ++ x) ++ (y ++ z)
around a x y z = ap (◌++◌ a) (append_assoc x y z) ∙ sym (append_assoc a x (y ++ z))

module _ (t : Tree) (D : ℕ) (root : Node) (key : Bytes) where
  -- The first `k` nodes of the stack lead to a node `n` with `d` levels below it, where the entries
  -- with keys from `key` on start.
  pub record IsWay (d : ℕ) (n : Node) (s : Stack) (k : ℕ) : Type 0 where
    pub levels : Levels t (suc d) s k
    pub whole : contents t D root ≡ before t (suc d) s k ++ (contents t d n ++ after t (suc d) s k)
    pub below : Below key (before t (suc d) s k)
    pub above : Above key (after t (suc d) s k)

  pub IsWay-start : (s : Stack) → IsWay D root s 0
  IsWay-start s = record {
    levels = tt;
    whole = sym (append_right-nil (contents t D root));
    below = tt;
    above = tt;
  }

  pub IsWay-down :
      (d : ℕ) (n m : Node) (c : NodeDataChild) (s s₁ : Stack) (k : ℕ)
      → IsWay (suc d) n s k
      → IsTree t (suc d) n
      → IsFilled t (suc d) n
      → get_elem? (children n) (interior_index key (children n)) ≡ some c
      → interior_index key (children n) < length (children n)
      → load_child t.load_node c ≡ ok (some m)
      → Agree t s s₁ k
      → s₁.nodes k ≡ some n
      → s₁.indexes k ≡ pos (interior_index key (children n))
      → IsWay d m s₁ (suc k)
  IsWay-down d n m c s s₁ k w tree filled at lt l agree node index =
      let i = interior_index key (children n) in
      let (lo, hi) = interior_index-cuts _ _ key (children n) tree.1 tree.2 in
      let b = before-Agree t (suc (suc d)) s s₁ k agree in
      let a = after-Agree t (suc (suc d)) s s₁ k agree in
      record {
        levels = (
          n,
          i,
          node,
          index,
          tree,
          filled,
          omega arith,
          Levels-Agree t (suc (suc d)) s s₁ k agree w.levels,
        );
        whole =
            rw (node, index, b, a, w.whole, flat_at t d n m c i at l)
              (regroup (before t (suc (suc d)) s k) _ (contents t d m) _
                (after t (suc (suc d)) s k));
        below = rw (node, index, b) (All-append _ (before t (suc (suc d)) s k) _ w.below lo);
        above = rw (node, index, a) (All-append _ _ (after t (suc (suc d)) s k) hi w.above);
      }
