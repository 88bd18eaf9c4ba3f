-- ===== src/IbTree/Delta/Comparisons.antt =====
-- How `IterateDelta` (ibtree/delta.go) compares the children where the two stacks stand.
use go_tfhfs.Common.{
  ℕ, ◌≡◌, refl, inl, inr, true, false, some, [], ◌∷◌, ok, arith, get_elem?, bytes_eq,
}
use mathlib.Core.Path.{subst}
use go_tfhfs.IbTree.Delta.{push_current_index, look_both}
use go_tfhfs.IbTree.Delta.Advances.{Advance, leaf_or_not, leaf_entry}
use go_tfhfs.IbTree.Delta.Differences.{IsDelta-both}
use go_tfhfs.IbTree.Delta.Descents.{push-IsAt}
use go_tfhfs.IbTree.Delta.Moves.{next-IsAt}
use go_tfhfs.IbTree.Delta.Places.{IsAt}
use go_tfhfs.IbTree.Node.{Node, NodeDataChild, Tree, leafy, children}
use go_tfhfs.IbTree.Stack.{Stack, set_index, next_of, index}
use go_tfhfs.IbTree.Walk.Contents.{Entries}
use go_tfhfs.IbTree.Walk.Ordered.{IsOrdered}

both_leaves :
    (t : Tree) (n0 n : Node) (c0 c : NodeDataChild) (s0 s : Stack)
    → leafy n0 ≡ true
    → leafy n ≡ true
    → look_both t n0 n c0 c s0 s
      ≡ ok (
          some (
            record { old = some c0; new = some c } ∷ [],
            set_index (next_of (index s0)) s0,
            set_index (next_of (index s)) s,
          ))
unfolding look_both
both_leaves t n0 n c0 c s0 s lf0 lf = rw (lf0, lf) refl

both_new :
    (t : Tree) (n0 n : Node) (c0 c : NodeDataChild) (s0 s s' : Stack)
    → leafy n0 ≡ true
    → leafy n ≡ false
    → push_current_index t s ≡ ok (tt, s')
    → look_both t n0 n c0 c s0 s ≡ ok (some ([], s0, s'))
unfolding look_both
both_new t n0 n c0 c s0 s s' lf0 lf ran = rw (lf0, lf, ran) refl

both_old :
    (t : Tree) (n0 n : Node) (c0 c : NodeDataChild) (s0 s s0' : Stack)
    → leafy n0 ≡ false
    → leafy n ≡ true
    → push_current_index t s0 ≡ ok (tt, s0')
    → look_both t n0 n c0 c s0 s ≡ ok (some ([], s0', s))
unfolding look_both
both_old t n0 n c0 c s0 s s0' lf0 lf ran = rw (lf0, lf, ran) refl

both_down :
    (t : Tree) (n0 n : Node) (c0 c : NodeDataChild) (s0 s s0' s' : Stack)
    → leafy n0 ≡ false
    → leafy n ≡ false
    → push_current_index t s0 ≡ ok (tt, s0')
    → push_current_index t s ≡ ok (tt, s')
    → look_both t n0 n c0 c s0 s ≡ ok (some ([], s0', s'))
unfolding look_both
both_down t n0 n c0 c s0 s s0' s' lf0 lf ran0 ran = rw (lf0, lf, ran0, ran) refl

module _ (t : Tree) (s0 s : Stack) (old new : Entries) (w0 w : ℕ) (a0 : IsAt t s0 old w0)
    (a : IsAt t s new w) (c0 c : NodeDataChild)
    (at0 : get_elem? (children a0.node) a0.place ≡ some c0)
    (at : get_elem? (children a.node) a.place ≡ some c) where
  -- Equal keys, with other values if both are in leaves.
  pub look_both-Advance :
      c0.key ≡ c.key
      → (leafy a0.node ≡ true → leafy a.node ≡ true → bytes_eq c0.value c.value ≡ false)
      → Advance t (look_both t a0.node a.node c0 c s0 s) old new w0 w
  look_both-Advance same other = elim (leaf_or_not t a0.height a0.node a0.tree) [
    | inl (lf0, z0) ↦ elim (leaf_or_not t a.height a.node a.tree) [
      | inl (lf, z) ↦
          let (rest0, w0', parts0, less0, there0) = next-IsAt t s0 old w0 a0 c0 at0 in
          let (rest, w', parts, less, there) = next-IsAt t s new w a c at in
          let whole0 = leaf_entry t a0.height c0 old rest0 z0 parts0 in
          let whole = leaf_entry t a.height c new rest z parts in
          record {
            out = record { old = some c0; new = some c } ∷ [];
            s0' = set_index (next_of (index s0)) s0;
            s' = set_index (next_of (index s)) s;
            old' = rest0;
            new' = rest;
            w0' = w0';
            w' = w';
            ran = both_leaves t a0.node a.node c0 c s0 s lf0 lf;
            at0 = there0;
            at = there;
            less = omega arith;
            delta = λ cs d.
                rw (whole0, whole)
                  (IsDelta-both rest0 rest cs c0 c same (other lf0 lf)
                    (subst IsOrdered whole0 a0.ordered) (subst IsOrdered whole a.ordered) d);
          }
      | inr (lf, (k, e)) ↦
          let (s', w', ran, less, there) = push-IsAt t s new w a c k at e in
          record {
            out = [];
            s0' = s0;
            s' = s';
            old' = old;
            new' = new;
            w0' = w0;
            w' = w';
            ran = both_new t a0.node a.node c0 c s0 s s' lf0 lf ran;
            at0 = a0;
            at = there;
            less = omega arith;
            delta = λ cs d. d;
          }
    ]
    | inr (lf0, (k0, e0)) ↦
        let (s0', w0', ran0, less0, there0) = push-IsAt t s0 old w0 a0 c0 k0 at0 e0 in
        elim (leaf_or_not t a.height a.node a.tree) [
          | inl (lf, z) ↦ record {
            out = [];
            s0' = s0';
            s' = s;
            old' = old;
            new' = new;
            w0' = w0';
            w' = w;
            ran = both_old t a0.node a.node c0 c s0 s s0' lf0 lf ran0;
            at0 = there0;
            at = a;
            less = omega arith;
            delta = λ cs d. d;
          }
          | inr (lf, (k, e)) ↦
              let (s', w', ran, less, there) = push-IsAt t s new w a c k at e in
              record {
                out = [];
                s0' = s0';
                s' = s';
                old' = old;
                new' = new;
                w0' = w0';
                w' = w';
                ran = both_down t a0.node a.node c0 c s0 s s0' s' lf0 lf ran0 ran;
                at0 = there0;
                at = there;
                less = omega arith;
                delta = λ cs d. d;
              }
        ]
  ]
