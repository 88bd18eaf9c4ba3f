-- ===== src/IbTree/Delta/Advances.antt =====
-- A round of `IterateDelta` (ibtree/delta.go) at two children: the stacks move on, and the changes
-- of the round and of what is left are those of the whole.
use go_tfhfs.Common.{
  ℕ, zero, suc, ◌+◌, ◌<◌, ◌≡◌, refl, ◌⊎◌, inl, inr, true, false, none, some, List, [], ◌∷◌, ◌++◌,
  ok, arith, get_elem?, ◌∙◌, ap,
}
use mathlib.Core.Path.{subst}
use go_tfhfs.IbTree.Delta.{Change, Round, push_current_index, look_old, look_new}
use go_tfhfs.IbTree.Delta.Differences.{IsDelta, IsDelta-old, IsDelta-new}
use go_tfhfs.IbTree.Delta.Descents.{push-IsAt}
use go_tfhfs.IbTree.Delta.Moves.{next-IsAt, under_child}
use go_tfhfs.IbTree.Delta.Places.{IsAt}
use go_tfhfs.IbTree.Node.{Node, NodeDataChild, Tree, leafy, children}
use go_tfhfs.IbTree.Stack.{Stack, set_index, next_of, index}
use go_tfhfs.IbTree.Walk.Contents.{Entries, IsTree}
use go_tfhfs.IbTree.Walk.Ordered.{Above, IsOrdered}

pub leaf_or_not :
    (t : Tree) (h : ℕ) (n : Node)
    → IsTree t h n
    → ((leafy n ≡ true) × (h ≡ 0)) ⊎ ((leafy n ≡ false) × ((k : ℕ) × (h ≡ suc k)))
leaf_or_not t zero n tree = inl (tree.0, refl)
leaf_or_not t (suc k) n tree = inr (tree.0, (k, refl))

-- A round from which `old` and `new` are left with `w0` and `w` steps.
pub record Advance (t : Tree) (r : Round) (old new : Entries) (w0 w : ℕ) : Type 0 where
  pub out : List Change
  pub s0' : Stack
  pub s' : Stack
  pub old' : Entries
  pub new' : Entries
  pub w0' : ℕ
  pub w' : ℕ
  pub ran : r ≡ ok (some (out, s0', s'))
  pub at0 : IsAt t s0' old' w0'
  pub at : IsAt t s' new' w'
  pub less : w0' + w' < w0 + w
  pub delta : (cs : List Change) → IsDelta old' new' cs → IsDelta old new (out ++ cs)

look_old_leaf :
    (t : Tree) (n0 : Node) (c0 : NodeDataChild) (s0 s : Stack)
    → leafy n0 ≡ true
    → look_old t n0 c0 s0 s
      ≡ ok (some (record { old = some c0; new = none } ∷ [], set_index (next_of (index s0)) s0, s))
unfolding look_old
look_old_leaf t n0 c0 s0 s lf = rw lf refl

look_old_down :
    (t : Tree) (n0 : Node) (c0 : NodeDataChild) (s0 s s' : Stack)
    → leafy n0 ≡ false
    → push_current_index t s0 ≡ ok (tt, s')
    → look_old t n0 c0 s0 s ≡ ok (some ([], s', s))
unfolding look_old
look_old_down t n0 c0 s0 s s' lf ran = rw (lf, ran) refl

look_new_leaf :
    (t : Tree) (n : Node) (c : NodeDataChild) (s0 s : Stack)
    → leafy n ≡ true
    → look_new t n c s0 s
      ≡ ok (some (record { old = none; new = some c } ∷ [], s0, set_index (next_of (index s)) s))
unfolding look_new
look_new_leaf t n c s0 s lf = rw lf refl

look_new_down :
    (t : Tree) (n : Node) (c : NodeDataChild) (s0 s s' : Stack)
    → leafy n ≡ false
    → push_current_index t s ≡ ok (tt, s')
    → look_new t n c s0 s ≡ ok (some ([], s0, s'))
unfolding look_new
look_new_down t n c s0 s s' lf ran = rw (lf, ran) refl

-- The first entry that is left in a leaf.
pub leaf_entry :
    (t : Tree) (h : ℕ) (c : NodeDataChild) (es rest : Entries)
    → h ≡ 0
    → es ≡ under_child t h c ++ rest
    → es ≡ (c.key, c.value) ∷ rest
leaf_entry t h c es rest z e = e ∙ ap (λ x. under_child t x c ++ rest) z

module _ (t : Tree) (s0 s : Stack) (old new : Entries) (w0 w : ℕ) (a0 : IsAt t s0 old w0)
    (a : IsAt t s new w) where
  pub look_old-Advance :
      (c0 : NodeDataChild)
      → get_elem? (children a0.node) a0.place ≡ some c0
      → Above c0.key new
      → Advance t (look_old t a0.node c0 s0 s) old new w0 w
  look_old-Advance c0 at above = elim (leaf_or_not t a0.height a0.node a0.tree) [
    | inl (lf, z) ↦
        let (rest, w', parts, less, there) = next-IsAt t s0 old w0 a0 c0 at in
        let whole = leaf_entry t a0.height c0 old rest z parts in
        record {
          out = record { old = some c0; new = none } ∷ [];
          s0' = set_index (next_of (index s0)) s0;
          s' = s;
          old' = rest;
          new' = new;
          w0' = w';
          w' = w;
          ran = look_old_leaf t a0.node c0 s0 s lf;
          at0 = there;
          at = a;
          less = omega arith;
          delta = λ cs d.
              rw whole (IsDelta-old rest new cs c0 (subst IsOrdered whole a0.ordered) above d);
        }
    | inr (lf, (k, e)) ↦
        let (s', w', ran, less, there) = push-IsAt t s0 old w0 a0 c0 k at e in
        record {
          out = [];
          s0' = s';
          s' = s;
          old' = old;
          new' = new;
          w0' = w';
          w' = w;
          ran = look_old_down t a0.node c0 s0 s s' lf ran;
          at0 = there;
          at = a;
          less = omega arith;
          delta = λ cs d. d;
        }
  ]

  pub look_new-Advance :
      (c : NodeDataChild)
      → get_elem? (children a.node) a.place ≡ some c
      → Above c.key old
      → Advance t (look_new t a.node c s0 s) old new w0 w
  look_new-Advance c at above = elim (leaf_or_not t a.height a.node a.tree) [
    | inl (lf, z) ↦
        let (rest, w', parts, less, there) = next-IsAt t s new w a c at in
        let whole = leaf_entry t a.height c new rest z parts in
        record {
          out = record { old = none; new = some c } ∷ [];
          s0' = s0;
          s' = set_index (next_of (index s)) s;
          old' = old;
          new' = rest;
          w0' = w0;
          w' = w';
          ran = look_new_leaf t a.node c s0 s lf;
          at0 = a0;
          at = there;
          less = omega arith;
          delta = λ cs d.
              rw whole (IsDelta-new old rest cs c (subst IsOrdered whole a.ordered) above d);
        }
    | inr (lf, (k, e)) ↦
        let (s', w', ran, less, there) = push-IsAt t s new w a c k at e in
        record {
          out = [];
          s0' = s0;
          s' = s';
          old' = old;
          new' = new;
          w0' = w0;
          w' = w';
          ran = look_new_down t a.node c s0 s s' lf ran;
          at0 = a0;
          at = there;
          less = omega arith;
          delta = λ cs d. d;
        }
  ]
