-- ===== src/IbTree/Delta/Moves.antt =====
-- The moves of a stack of `IterateDelta` (ibtree/delta.go): past a child, down into it, and up.
use go_tfhfs.Common.{
  ℕ, zero, suc, ◌+◌, ◌-◌, ◌≤◌, ◌<◌, ◌≡◌, refl, none, some, List, [], ◌∷◌, ◌++◌, ok, arith,
  get_elem?, pos, ◌∙◌, sym, ap, drop, length,
}
use mathlib.Core.List.{append_assoc}
use mathlib.Core.Path.{subst}
use go_tfhfs.IbTree.Delta.{climb}
use go_tfhfs.IbTree.Delta.Places.{IsAt, weigh, pending, pending-Agree}
use go_tfhfs.IbTree.Node.{Node, NodeDataChild, Tree, children}
use go_tfhfs.IbTree.Stack.{Stack, ◌>>=◌, index, set_index, next_of, pop_node, maximum_tree_depth}
use go_tfhfs.IbTree.Stack.Cache.{
  IsCoherent, set_index-IsCoherent, top-set_index, nodes-set_index, indexes-set_index_at,
  indexes-set_index_other,
}
use go_tfhfs.IbTree.Walk.Contents.{Entries, IsTree}
use go_tfhfs.IbTree.Walk.Landing.{drop_at, nothing_left}
use go_tfhfs.IbTree.Walk.Near.{IsOrdered-right}
use go_tfhfs.IbTree.Walk.Ordered.{IsOrdered}
use go_tfhfs.IbTree.Walk.Paths.{
  IsFilled, under, under-append, after, after-Agree, Levels, Levels-Agree, Agree,
}
use go_tfhfs.IbTree.Walk.Rounds.{after_here}

pub inside :
    (cs : List NodeDataChild) (i : ℕ) (c : NodeDataChild) → get_elem? cs i ≡ some c → i < length cs
inside [] i c e = cc
inside (d ∷ cs) zero c e = omega arith
inside (d ∷ cs) (suc i) c e = omega (arith, inside cs i c e)

pub outside : (cs : List NodeDataChild) (i : ℕ) → get_elem? cs i ≡ none → length cs ≤ i
outside [] i e = omega arith
outside (d ∷ cs) zero e = cc
outside (d ∷ cs) (suc i) e = omega (arith, outside cs i e)

climb_lem :
    (s : Stack) (k : ℕ)
    → s.top ≡ suc k
    → climb s ≡ ok (tt, set_index (next_of (index (record s { top = k }))) (record s { top = k }))
unfolding climb
climb_lem s k top = rw (climb, ◌>>=◌, pop_node, top) refl

module _ (t : Tree) where
  -- The entries and the steps under one child.
  abbrev pub under_child : ℕ → NodeDataChild → Entries
  under_child h c = under t h (c ∷ [])

  pub under-cons :
      (h : ℕ) (c : NodeDataChild) (cs : List NodeDataChild)
      → under t h (c ∷ cs) ≡ under_child h c ++ under t h cs
  under-cons h c cs = under-append t h (c ∷ []) cs

  weigh-cons :
      (h : ℕ) (c : NodeDataChild) (cs : List NodeDataChild) → weigh t h cs < weigh t h (c ∷ cs)
  weigh-cons zero c cs = omega arith
  weigh-cons (suc h) c cs = omega arith

  weigh_none : (h : ℕ) (cs : List NodeDataChild) (i : ℕ) → length cs ≤ i → weigh t h (drop i cs) ≡ 0
  weigh_none zero [] zero le = refl
  weigh_none (suc h) [] zero le = refl
  weigh_none zero [] (suc i) le = refl
  weigh_none (suc h) [] (suc i) le = refl
  weigh_none h (c ∷ cs) zero le = absurd (omega arith)
  weigh_none h (c ∷ cs) (suc i) le = weigh_none h cs i (omega arith)

  -- The index of the top one further.
  placed :
      (h k i : ℕ) (n root : Node) (s : Stack) (es : Entries)
      → s.top ≡ k
      → k + h < maximum_tree_depth
      → s.nodes 0 ≡ some root
      → IsCoherent t s
      → s.nodes k ≡ some n
      → s.indexes k ≡ pos i
      → IsTree t h n
      → IsFilled t h n
      → Levels t (suc h) s k
      → IsOrdered es
      → es ≡ under t h (drop (suc i) (children n)) ++ after t (suc h) s k
      → IsAt t
          (set_index (next_of (index s)) s)
          es
          (weigh t h (drop (suc i) (children n)) + pending t (suc h) s k)
  placed h k i n root s es top room r co at here tree filled levels ordered left =
      let idx = next_of (index s) in
      let s' = set_index idx s in
      let same : Agree t s s' k = λ j lt. (
        nodes-set_index t idx s j (omega (arith, top)),
        indexes-set_index_other t idx s j (omega (arith, top)),
      ) in
      record {
        height = h;
        level = k;
        node = n;
        place = suc i;
        on_top = top-set_index t idx s ∙ top;
        shallow = room;
        root = root;
        rooted = nodes-set_index t idx s 0 (omega arith) ∙ r;
        coherent = set_index-IsCoherent t idx s co;
        at = nodes-set_index t idx s k (omega (arith, top)) ∙ at;
        here = indexes-set_index_at t idx s k (sym top) ∙ ap next_of (ap s.indexes top ∙ here);
        tree = tree;
        filled = filled;
        levels = Levels-Agree t (suc h) s s' k same levels;
        ordered = ordered;
        left =
            left
            ∙ ap (◌++◌ (under t h (drop (suc i) (children n))))
                (sym (after-Agree t (suc h) s s' k same));
        weight =
            ap (λ (x : ℕ). weigh t h (drop (suc i) (children n)) + x)
              (sym (pending-Agree t (suc h) s s' k same));
      }

  -- Past the child where the stack stands.
  pub next-IsAt :
      (s : Stack) (es : Entries) (w : ℕ) (a : IsAt t s es w) (c : NodeDataChild)
      → get_elem? (children a.node) a.place ≡ some c
      → (rest : Entries) × (w' : ℕ) × (es ≡ under_child a.height c ++ rest)
        × (w' < w)
        × IsAt t (set_index (next_of (index s)) s) rest w'
  next-IsAt s es w a c at_c =
      let h = a.height in
      let i = a.place in
      let cs = children a.node in
      let above = after t (suc h) s a.level in
      let e = drop_at cs i c at_c in
      let whole : es ≡ under_child h c ++ (under t h (drop (suc i) cs) ++ above) =
        a.left
        ∙ ap (λ x. under t h x ++ above) e
        ∙ ap (λ (x : Entries). x ++ above) (under-cons h c (drop (suc i) cs))
        ∙ append_assoc (under_child h c) (under t h (drop (suc i) cs)) above in
      (
        under t h (drop (suc i) cs) ++ above,
        weigh t h (drop (suc i) cs) + pending t (suc h) s a.level,
        whole,
        omega (arith, a.weight, ap (weigh t h) e, weigh-cons h c (drop (suc i) cs)),
        placed h a.level i a.node a.root s _ a.on_top a.shallow a.rooted a.coherent a.at a.here
            a.tree a.filled a.levels
            (IsOrdered-right (under_child h c) _ (subst IsOrdered whole a.ordered)) refl,
      )

  pub pending_at :
      (h k : ℕ) (n : Node) (s : Stack) (i : ℕ)
      → s.nodes k ≡ some n
      → s.indexes k ≡ pos i
      → pending t h s (suc k) ≡ suc (weigh t h (drop (suc i) (children n)) + pending t (suc h) s k)
  pending_at h k n s i at here = rw (at, here) refl

  -- Past a node that the stack has gone through, from its parent on.
  up-IsAt :
      (s : Stack) (es : Entries) (w h k : ℕ) (root : Node)
      → s.top ≡ suc k
      → suc k + h < maximum_tree_depth
      → s.nodes 0 ≡ some root
      → IsCoherent t s
      → Levels t (suc h) s (suc k)
      → IsOrdered es
      → es ≡ after t (suc h) s (suc k)
      → w ≡ pending t (suc h) s (suc k)
      → (s' : Stack) × (w' : ℕ) × (climb s ≡ ok (tt, s')) × (w' < w) × IsAt t s' es w'
  up-IsAt s es w h k root top room r co (n, i, at, here, tree, filled, bound, levels) ordered left
        weight =
      let s₁ : Stack = record s { top = k } in
      let co' : IsCoherent t s₁ = record {
        inside = omega (arith, co.inside, top);
        empty_below = co.empty_below;
        linked = co.linked;
      } in
      let same : Agree t s s₁ k = λ j lt. (refl, refl) in
      (
        set_index (next_of (index s₁)) s₁,
        weigh t (suc h) (drop (suc i) (children n)) + pending t (suc (suc h)) s₁ k,
        climb_lem s k top,
        omega (
          arith,
          weight,
          pending_at (suc h) k n s i at here,
          pending-Agree t (suc (suc h)) s s₁ k same,
        ),
        placed (suc h) k i n root s₁ es refl (omega arith) r co' at here tree filled
            (Levels-Agree t (suc (suc h)) s s₁ k same levels) ordered
            (left
              ∙ after_here t (suc h) k n s i at here
              ∙ ap (◌++◌ (under t (suc h) (drop (suc i) (children n))))
                  (sym (after-Agree t (suc (suc h)) s s₁ k same))),
      )

  pub climb-IsAt :
      (s : Stack) (es : Entries) (w : ℕ) (a : IsAt t s es w)
      → get_elem? (children a.node) a.place ≡ none
      → 0 < s.top
      → (s' : Stack) × (w' : ℕ) × (climb s ≡ ok (tt, s')) × (w' < w) × IsAt t s' es w'
  climb-IsAt s es w a none_here pos_top =
      let h = a.height in
      let k = a.level - 1 in
      let up : a.level ≡ suc k = omega (arith, a.on_top) in
      let nothing = outside (children a.node) a.place none_here in
      up-IsAt s es w h k a.root (a.on_top ∙ up) (omega (arith, a.shallow)) a.rooted a.coherent
        (subst (Levels t (suc h) s) up a.levels) a.ordered
        (a.left
          ∙ ap (λ (x : Entries). x ++ after t (suc h) s a.level)
              (nothing_left t h (children a.node) a.place nothing)
          ∙ ap (after t (suc h) s) up)
        (omega (
          arith,
          a.weight,
          weigh_none h (children a.node) a.place nothing,
          ap (pending t (suc h) s) up,
        ))
