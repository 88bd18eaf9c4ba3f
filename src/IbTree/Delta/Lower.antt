-- ===== src/IbTree/Delta/Lower.antt =====
-- The least key from a child of a node of ibtree/ on, and the height of a node.
use go_tfhfs.Common.{
  ℕ, zero, suc, ◌≡◌, refl, false, Option, some, List, Outcome, [], ◌∷◌, ◌++◌, ok, arith, get_elem?,
  ◌∙◌, ap, Bytes, bytes_lt, bytes_lt_irrefl, bytes_lt_trans, append_right-nil,
}
use mathlib.Core.Path.{subst}
use go_tfhfs.IbTree.Delta.Moves.{next-IsAt, under_child}
use go_tfhfs.IbTree.Delta.Places.{IsAt}
use go_tfhfs.IbTree.Node.{Node, NodeDataChild, Tree, leafy, children, load_child}
use go_tfhfs.IbTree.Stack.{Stack}
use go_tfhfs.IbTree.Walk.Contents.{Entries, IsTree, IsParts, contents, of_child}
use go_tfhfs.IbTree.Walk.Landing.{child_of, part_of, has_first}
use go_tfhfs.IbTree.Walk.Ordered.{Above, From, IsOrdered, All-append, first_key}
use go_tfhfs.IbTree.Walk.Paths.{IsFilled, filled_at}

lo_of :
    (P : NodeDataChild → Type 0) (f : NodeDataChild → Entries) (cs : List NodeDataChild) (i : ℕ)
    (c : NodeDataChild)
    → IsParts P f cs
    → get_elem? cs i ≡ some c
    → From c.key (f c)
lo_of P f [] i c h at = cc
lo_of P f (d ∷ cs) zero c h at = let same : d ≡ c = cc in rw (← same) h.1
lo_of P f (d ∷ cs) (suc i) c (p, from, until, up, rest) at = lo_of P f cs i c rest at

tail_From : (k j : Bytes) (es : Entries) → bytes_lt j k ≡ false → Above j es → From k es
tail_From k j [] h a = tt
tail_From k j (e ∷ es) h a = (ground (arith, bytes_lt_trans j e.0 k, a.0), tail_From k j es h a.1)

From-first :
    (k x : Bytes) (xs ys : Entries)
    → first_key xs ≡ some x
    → From k xs
    → IsOrdered (xs ++ ys)
    → From k (xs ++ ys)
From-first k x [] ys e f o = cc
From-first k x (e' ∷ xs) ys e f o = (f.0, tail_From k e'.0 (xs ++ ys) f.0 o.0)

loaded_once : (o : Outcome (Option Node)) (a b : Node) → o ≡ ok (some a) → o ≡ ok (some b) → a ≡ b
loaded_once o a b e e' = ground arith

module _ (t : Tree) where
  -- The entries from a child on have its key or larger ones.
  From-child :
      (h : ℕ) (n : Node) (i : ℕ) (c : NodeDataChild) (es rest : Entries)
      → IsTree t h n
      → IsFilled t h n
      → get_elem? (children n) i ≡ some c
      → es ≡ under_child t h c ++ rest
      → IsOrdered es
      → From c.key es
  From-child zero n i c es rest tree filled at whole o = rw whole (
    bytes_lt_irrefl c.key,
    tail_From c.key c.key rest (bytes_lt_irrefl c.key) (subst IsOrdered whole o).0,
  )
  From-child (suc h) n i c es rest tree filled at whole o =
      let (m, l, below) = part_of _ _ (children n) i c tree.2 at in
      let (ne, filled') = filled_at t h (children n) i c m filled at l in
      let (x, first) = has_first t h m below filled' ne in
      let f = of_child (contents t h) (load_child t.load_node c) in
      rw whole (
        From-first c.key x (f ++ []) rest
          (ap first_key (append_right-nil f ∙ ap (of_child (contents t h)) l) ∙ first)
          (All-append _ f [] (lo_of _ _ (children n) i c tree.2 at) tt) (subst IsOrdered whole o))

  pub From-here :
      (s : Stack) (es : Entries) (w : ℕ) (a : IsAt t s es w) (c : NodeDataChild)
      → get_elem? (children a.node) a.place ≡ some c
      → From c.key es
  From-here s es w a c at =
      let (rest, w', parts, less, there) = next-IsAt t s es w a c at in
      From-child a.height a.node a.place c es rest a.tree a.filled at parts a.ordered

  -- The height of a tree shows in its nodes.
  IsTree-height : (h h' : ℕ) (n : Node) → IsTree t h n → IsTree t h' n → h ≡ h'
  IsTree-height zero zero n p q = refl
  IsTree-height zero (suc h') n p q = cc
  IsTree-height (suc h) zero n p q = cc
  IsTree-height (suc h) (suc h') n p q =
      let (c, at, e) = child_of (children n) 0 p.1 in
      let (m, l, below) = part_of _ _ (children n) 0 c p.2 at in
      let (m', l', below') = part_of _ _ (children n) 0 c q.2 at in
      let same : m' ≡ m = loaded_once (load_child t.load_node c) m' m l' l in
      ap suc (IsTree-height h h' m below (subst (IsTree t h') same below'))

  -- A child that both stacks have has the same entries for both.
  pub under_child-height :
      (h h' : ℕ) (n n' : Node) (i i' : ℕ) (c : NodeDataChild)
      → IsTree t h n
      → IsTree t h' n'
      → leafy n ≡ leafy n'
      → get_elem? (children n) i ≡ some c
      → get_elem? (children n') i' ≡ some c
      → under_child t h c ≡ under_child t h' c
  under_child-height zero zero n n' i i' c p q e at at' = refl
  under_child-height zero (suc h') n n' i i' c p q e at at' = cc
  under_child-height (suc h) zero n n' i i' c p q e at at' = cc
  under_child-height (suc h) (suc h') n n' i i' c p q e at at' =
      let (m, l, below) = part_of _ _ (children n) i c p.2 at in
      let (m', l', below') = part_of _ _ (children n') i' c q.2 at' in
      let same : m' ≡ m = loaded_once (load_child t.load_node c) m' m l' l in
      ap (λ (x : ℕ). under_child t (suc x) c)
        (IsTree-height h h' m below (subst (IsTree t h') same below'))
