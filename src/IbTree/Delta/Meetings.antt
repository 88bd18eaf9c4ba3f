-- ===== src/IbTree/Delta/Meetings.antt =====
-- A round of `IterateDelta` (ibtree/delta.go) with a child in both trees.
use go_tfhfs.Common.{
  ℕ, zero, suc, ◌≡◌, refl, inl, inr, true, false, Bool, Bool-cases, Option, none, some, List, [],
  ◌∷◌, ◌++◌, ok, arith, get_elem?, ◌∙◌, sym, ap, Bytes, bytes_eq, bytes_eq_iff, bytes_lt,
  bytes_lt_total, All, ◌&&◌,
}
use mathlib.Core.Path.{subst}
use go_tfhfs.IbTree.Delta.{
  look_old, look_new, look_both, same_node, same_child, same_leafy, compare_children,
}
use go_tfhfs.IbTree.Delta.Advances.{Advance, look_old-Advance, look_new-Advance}
use go_tfhfs.IbTree.Delta.Differences.{IsDelta-skip}
use go_tfhfs.IbTree.Delta.Comparisons.{look_both-Advance}
use go_tfhfs.IbTree.Delta.Lower.{From-here, under_child-height}
use go_tfhfs.IbTree.Delta.Moves.{next-IsAt, under_child}
use go_tfhfs.IbTree.Delta.Places.{IsAt}
use go_tfhfs.IbTree.Node.{Node, NodeDataChild, Tree, leafy, children}
use go_tfhfs.IbTree.Stack.{Stack, set_index, next_of, index}
use go_tfhfs.IbTree.Walk.Contents.{Entries, IsTree}
use go_tfhfs.IbTree.Walk.Ordered.{Above-From, IsOrdered}
use go_tfhfs.IbTree.Walk.Paths.{IsFilled}

child_path :
    (c c0 : NodeDataChild)
    → c.key ≡ c0.key
    → c.value ≡ c0.value
    → c.child_node ≡ c0.child_node
    → c ≡ c0
child_path c c0 p q r = λ i. record { key = p i; value = q i; child_node = r i }

same_leafy-eq : (a b : Bool) → same_leafy a b ≡ true → a ≡ b
same_leafy-eq true b e = sym e
same_leafy-eq false true e = cc
same_leafy-eq false false e = refl

-- No entry of a leaf has a child node.
all_bare :
    (cs : List NodeDataChild) (i : ℕ) (c : NodeDataChild)
    → All (λ d. d.child_node ≡ none) cs
    → get_elem? cs i ≡ some c
    → c.child_node ≡ none
all_bare [] i c a at = cc
all_bare (d ∷ cs) zero c a at = let same : d ≡ c = cc in rw (← same) a.0
all_bare (d ∷ cs) (suc i) c a at = all_bare cs i c a.1 at

bare :
    (t : Tree) (h : ℕ) (n : Node) (i : ℕ) (c : NodeDataChild)
    → IsTree t h n
    → IsFilled t h n
    → leafy n ≡ true
    → get_elem? (children n) i ≡ some c
    → c.child_node ≡ none
bare t zero n i c tree filled lf at = all_bare (children n) i c filled at
bare t (suc h) n i c tree filled lf at = cc

bytes_eq_sym : (a b : Bytes) → bytes_eq a b ≡ false → bytes_eq b a ≡ false
bytes_eq_sym a b h = ground (arith, bytes_eq_iff a b, bytes_eq_iff b a)

module _ (same : Node → Node → Bool) where
  same_node-eq :
      ((a b : Node) → same a b ≡ true → a ≡ b)
      → (x y : Option Node) → same_node same x y ≡ true
      → x ≡ y
  same_node-eq sound none none e = refl
  same_node-eq sound (some a) (some b) e = ap some (sound a b e)
  same_node-eq sound none (some b) e = cc
  same_node-eq sound (some a) none e = cc

  same_child-eq :
      ((a b : Node) → same a b ≡ true → a ≡ b)
      → (c c0 : NodeDataChild) → same_child same c c0 ≡ true
      → c ≡ c0
  unfolding same_child
  same_child-eq sound c c0 e =
      let k : bytes_eq c.key c0.key ≡ true = ground arith in
      let v : bytes_eq c.value c0.value ≡ true = ground arith in
      let n : same_node same c.child_node c0.child_node ≡ true = ground arith in
      child_path c c0 ((bytes_eq_iff c.key c0.key).0 k) ((bytes_eq_iff c.value c0.value).0 v)
        (same_node-eq sound c.child_node c0.child_node n)

  -- Entries of leaves with one key that are not the same have other values.
  other_value :
      (c c0 : NodeDataChild)
      → same_child same c c0 ≡ false
      → bytes_eq c.key c0.key ≡ true
      → c.child_node ≡ none
      → c0.child_node ≡ none
      → bytes_eq c.value c0.value ≡ false
  unfolding same_child
  other_value c c0 e k n n0 = ground arith

  compare_same :
      (t : Tree) (n0 n : Node) (c0 c : NodeDataChild) (s0 s : Stack)
      → (same_leafy (leafy n) (leafy n0) && same_child same c c0) ≡ true
      → compare_children t same n0 n (some c0) (some c) s0 s
        ≡ ok (some ([], set_index (next_of (index s0)) s0, set_index (next_of (index s)) s))
  unfolding compare_children
  compare_same t n0 n c0 c s0 s e = rw e refl

  compare_both :
      (t : Tree) (n0 n : Node) (c0 c : NodeDataChild) (s0 s : Stack)
      → (same_leafy (leafy n) (leafy n0) && same_child same c c0) ≡ false
      → bytes_eq c.key c0.key ≡ true
      → compare_children t same n0 n (some c0) (some c) s0 s ≡ look_both t n0 n c0 c s0 s
  unfolding compare_children
  compare_both t n0 n c0 c s0 s e k = rw (e, k) refl

  compare_old :
      (t : Tree) (n0 n : Node) (c0 c : NodeDataChild) (s0 s : Stack)
      → (same_leafy (leafy n) (leafy n0) && same_child same c c0) ≡ false
      → bytes_eq c.key c0.key ≡ false
      → bytes_lt c0.key c.key ≡ true
      → compare_children t same n0 n (some c0) (some c) s0 s ≡ look_old t n0 c0 s0 s
  unfolding compare_children
  compare_old t n0 n c0 c s0 s e k lt = rw (e, k, lt) refl

  compare_new :
      (t : Tree) (n0 n : Node) (c0 c : NodeDataChild) (s0 s : Stack)
      → (same_leafy (leafy n) (leafy n0) && same_child same c c0) ≡ false
      → bytes_eq c.key c0.key ≡ false
      → bytes_lt c0.key c.key ≡ false
      → compare_children t same n0 n (some c0) (some c) s0 s ≡ look_new t n c s0 s
  unfolding compare_children
  compare_new t n0 n c0 c s0 s e k lt = rw (e, k, lt) refl

  module _ (sound : (a b : Node) → same a b ≡ true → a ≡ b) (t : Tree) (s0 s : Stack)
      (old new : Entries) (w0 w : ℕ) (a0 : IsAt t s0 old w0) (a : IsAt t s new w)
      (c0 c : NodeDataChild) (at0 : get_elem? (children a0.node) a0.place ≡ some c0)
      (at : get_elem? (children a.node) a.place ≡ some c) where
    -- A child that both have is skipped.
    skip-Advance :
        (same_leafy (leafy a.node) (leafy a0.node) && same_child same c c0) ≡ true
        → Advance t (compare_children t same a0.node a.node (some c0) (some c) s0 s) old new w0 w
    skip-Advance e =
        let lf : leafy a.node ≡ leafy a0.node =
          same_leafy-eq (leafy a.node) (leafy a0.node) (ground arith) in
        let one : c ≡ c0 = same_child-eq sound c c0 (ground arith) in
        let (rest0, w0', parts0, less0, there0) = next-IsAt t s0 old w0 a0 c0 at0 in
        let (rest, w', parts, less, there) = next-IsAt t s new w a c at in
        let xs = under_child t a0.height c0 in
        let shared : under_child t a.height c ≡ xs =
          ap (under_child t a.height) one
          ∙ under_child-height t a.height a0.height a.node a0.node a.place a0.place c0 a.tree
              a0.tree lf (at ∙ ap some one) at0 in
        let parts' : new ≡ xs ++ rest = parts ∙ ap (λ (x : Entries). x ++ rest) shared in
        record {
          out = [];
          s0' = set_index (next_of (index s0)) s0;
          s' = set_index (next_of (index s)) s;
          old' = rest0;
          new' = rest;
          w0' = w0';
          w' = w';
          ran = compare_same t a0.node a.node c0 c s0 s e;
          at0 = there0;
          at = there;
          less = omega arith;
          delta = λ cs d.
              rw (parts0, parts')
                (IsDelta-skip xs rest0 rest cs (subst IsOrdered parts0 a0.ordered)
                  (subst IsOrdered parts' a.ordered) d);
        }

    values_differ :
        (same_leafy (leafy a.node) (leafy a0.node) && same_child same c c0) ≡ false
        → bytes_eq c.key c0.key ≡ true
        → leafy a0.node ≡ true
        → leafy a.node ≡ true
        → bytes_eq c0.value c.value ≡ false
    values_differ e k lf0 lf =
        let other : same_child same c c0 ≡ false = ground arith in
        bytes_eq_sym c.value c0.value (
          other_value c c0 other k (bare t a.height a.node a.place c a.tree a.filled lf at)
            (bare t a0.height a0.node a0.place c0 a0.tree a0.filled lf0 at0))

    pub meeting-Advance :
        Advance t (compare_children t same a0.node a.node (some c0) (some c) s0 s) old new w0 w
    meeting-Advance =
        elim (Bool-cases (same_leafy (leafy a.node) (leafy a0.node) && same_child same c c0)) [
          | inl e ↦ skip-Advance e
          | inr e ↦ elim (Bool-cases (bytes_eq c.key c0.key)) [
            | inl k ↦
                subst (λ r. Advance t r old new w0 w)
                  (sym (compare_both t a0.node a.node c0 c s0 s e k))
                  (look_both-Advance t s0 s old new w0 w a0 a c0 c at0 at
                    (sym ((bytes_eq_iff c.key c0.key).0 k)) (values_differ e k))
            | inr k ↦ elim (Bool-cases (bytes_lt c0.key c.key)) [
              | inl lt ↦
                  subst (λ r. Advance t r old new w0 w)
                    (sym (compare_old t a0.node a.node c0 c s0 s e k lt))
                    (look_old-Advance t s0 s old new w0 w a0 a c0 at0
                      (Above-From c0.key c.key new lt (From-here t s new w a c at)))
              | inr lt ↦
                  let lt' : bytes_lt c.key c0.key ≡ true =
                    ground (arith, bytes_eq_iff c.key c0.key, bytes_lt_total c.key c0.key) in
                  subst (λ r. Advance t r old new w0 w)
                    (sym (compare_new t a0.node a.node c0 c s0 s e k lt))
                    (look_new-Advance t s0 s old new w0 w a0 a c at
                      (Above-From c.key c0.key old lt' (From-here t s0 old w0 a0 c0 at0)))
            ]
          ]
        ]
