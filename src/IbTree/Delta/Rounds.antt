-- ===== src/IbTree/Delta/Rounds.antt =====
-- A round of `IterateDelta` (ibtree/delta.go).
use go_tfhfs.Common.{
  ℕ, suc, ◌≡◌, refl, ◌⊎◌, inl, inr, Bool, true, false, Bool-cases, Option, none, some, [], ◌++◌, ok,
  arith, get_elem?, ◌∙◌, sym, ap, ltb,
}
use mathlib.Core.Path.{subst}
use go_tfhfs.IbTree.Delta.{climb, look_old, look_new, compare_children, at_end, delta_round}
use go_tfhfs.IbTree.Delta.Advances.{Advance, look_old-Advance, look_new-Advance}
use go_tfhfs.IbTree.Delta.Meetings.{meeting-Advance}
use go_tfhfs.IbTree.Delta.Moves.{climb-IsAt, outside}
use go_tfhfs.IbTree.Delta.Places.{IsAt, child-IsAt, current_node-IsAt}
use go_tfhfs.IbTree.Node.{Node, NodeDataChild, Tree, children}
use go_tfhfs.IbTree.Stack.{Stack, child, current_node}
use go_tfhfs.IbTree.Walk.Contents.{Entries}
use go_tfhfs.IbTree.Walk.Landing.{nothing_left}
use go_tfhfs.IbTree.Walk.Paths.{after}

module _ (t : Tree) (same : Node → Node → Bool) (n0 n : Node) where
  ended : (s0 s : Stack) → compare_children t same n0 n none none s0 s ≡ ok none
  unfolding compare_children
  ended s0 s = refl

  only_old :
      (c0 : NodeDataChild) (s0 s : Stack)
      → compare_children t same n0 n (some c0) none s0 s ≡ look_old t n0 c0 s0 s
  unfolding compare_children
  only_old c0 s0 s = refl

  only_new :
      (c : NodeDataChild) (s0 s : Stack)
      → compare_children t same n0 n none (some c) s0 s ≡ look_new t n c s0 s
  unfolding compare_children
  only_new c s0 s = refl

module _ (t : Tree) (same : Node → Node → Bool) where
  climbs_old :
      (s0 s s0' : Stack)
      → child s0 ≡ ok (none, s0)
      → ltb 0 s0.top ≡ true
      → climb s0 ≡ ok (tt, s0')
      → delta_round t same s0 s ≡ ok (some ([], s0', s))
  unfolding delta_round
  climbs_old s0 s s0' c0 up ran = rw (delta_round, c0, up, ran) refl

  climbs_new :
      (s0 s s' : Stack) (c0 : Option NodeDataChild)
      → child s0 ≡ ok (c0, s0)
      → at_end c0 s0 ≡ false
      → child s ≡ ok (none, s)
      → ltb 0 s.top ≡ true
      → climb s ≡ ok (tt, s')
      → delta_round t same s0 s ≡ ok (some ([], s0, s'))
  unfolding delta_round
  climbs_new s0 s s' c0 ran0 there ran up climbed =
      rw (delta_round, ran0, there, ran, up, climbed) refl

  compares :
      (s0 s : Stack) (c0 c : Option NodeDataChild) (n0 n : Node)
      → child s0 ≡ ok (c0, s0)
      → at_end c0 s0 ≡ false
      → child s ≡ ok (c, s)
      → at_end c s ≡ false
      → current_node s0 ≡ ok (n0, s0)
      → current_node s ≡ ok (n, s)
      → delta_round t same s0 s ≡ compare_children t same n0 n c0 c s0 s
  unfolding delta_round
  compares s0 s c0 c n0 n ran0 there0 ran there node0 node =
      rw (delta_round, ran0, there0, ran, there, node0, node) refl

  -- Where a stack is at the end, no entries are left.
  empty_here :
      (s : Stack) (es : Entries) (w : ℕ) (a : IsAt t s es w)
      → get_elem? (children a.node) a.place ≡ none
      → ltb 0 s.top ≡ false
      → es ≡ []
  empty_here s es w a none_here low =
      let zero_level : a.level ≡ 0 = ground (arith, a.on_top) in
      a.left
      ∙ ap (λ (x : Entries). x ++ after t (suc a.height) s a.level)
          (nothing_left t a.height (children a.node) a.place
            (outside (children a.node) a.place none_here))
      ∙ ap (after t (suc a.height) s) zero_level

  -- A round ends the iteration with nothing left, or moves on.
  abbrev pub Outcomes : Stack → Stack → Entries → Entries → ℕ → ℕ → Type 0
  Outcomes s0 s old new w0 w =
      ((delta_round t same s0 s ≡ ok none) × (old ≡ []) × (new ≡ []))
      ⊎ Advance t (delta_round t same s0 s) old new w0 w

  module _ (sound : (a b : Node) → same a b ≡ true → a ≡ b) (s0 s : Stack) (old new : Entries)
      (w0 w : ℕ) (a0 : IsAt t s0 old w0) (a : IsAt t s new w) where
    climb_old :
        get_elem? (children a0.node) a0.place ≡ none
        → ltb 0 s0.top ≡ true
        → Advance t (delta_round t same s0 s) old new w0 w
    climb_old e up =
        let (s', w', ran, less, there) = climb-IsAt t s0 old w0 a0 e (ground arith) in
        record {
          out = [];
          s0' = s';
          s' = s;
          old' = old;
          new' = new;
          w0' = w';
          w' = w;
          ran = climbs_old s0 s s' (child-IsAt t s0 old w0 a0 ∙ ap (λ x. ok (x, s0)) e) up ran;
          at0 = there;
          at = a;
          less = omega arith;
          delta = λ cs d. d;
        }

    climb_new :
        at_end (get_elem? (children a0.node) a0.place) s0 ≡ false
        → get_elem? (children a.node) a.place ≡ none
        → ltb 0 s.top ≡ true
        → Advance t (delta_round t same s0 s) old new w0 w
    climb_new there0 e up =
        let (s', w', ran, less, there) = climb-IsAt t s new w a e (ground arith) in
        record {
          out = [];
          s0' = s0;
          s' = s';
          old' = old;
          new' = new;
          w0' = w0;
          w' = w';
          ran =
              climbs_new s0 s s' _ (child-IsAt t s0 old w0 a0) there0
                (child-IsAt t s new w a ∙ ap (λ x. ok (x, s)) e) up ran;
          at0 = a0;
          at = there;
          less = omega arith;
          delta = λ cs d. d;
        }

    -- The round compares what is at the two places.
    comparing :
        (c0 c : Option NodeDataChild)
        → get_elem? (children a0.node) a0.place ≡ c0
        → get_elem? (children a.node) a.place ≡ c
        → at_end c0 s0 ≡ false
        → at_end c s ≡ false
        → delta_round t same s0 s ≡ compare_children t same a0.node a.node c0 c s0 s
    comparing c0 c e0 e there0 there =
        compares s0 s c0 c a0.node a.node (child-IsAt t s0 old w0 a0 ∙ ap (λ x. ok (x, s0)) e0)
          there0 (child-IsAt t s new w a ∙ ap (λ x. ok (x, s)) e) there
          (current_node-IsAt t s0 old w0 a0) (current_node-IsAt t s new w a)

    compare_at :
        (c0 c : Option NodeDataChild)
        → get_elem? (children a0.node) a0.place ≡ c0
        → get_elem? (children a.node) a.place ≡ c
        → at_end c0 s0 ≡ false
        → at_end c s ≡ false
        → Outcomes s0 s old new w0 w
    compare_at none none e0 e there0 there = inl (
      comparing none none e0 e there0 there ∙ ended t same a0.node a.node s0 s,
      empty_here s0 old w0 a0 e0 there0,
      empty_here s new w a e there,
    )
    compare_at (some c0) none e0 e there0 there = inr (
        subst (λ r. Advance t r old new w0 w)
          (sym
            (comparing (some c0) none e0 e there0 there ∙ only_old t same a0.node a.node c0 s0 s))
          (look_old-Advance t s0 s old new w0 w a0 a c0 e0 (rw (empty_here s new w a e there) tt)))
    compare_at none (some c) e0 e there0 there = inr (
        subst (λ r. Advance t r old new w0 w)
          (sym (comparing none (some c) e0 e there0 there ∙ only_new t same a0.node a.node c s0 s))
          (look_new-Advance t s0 s old new w0 w a0 a c e
            (rw (empty_here s0 old w0 a0 e0 there0) tt)))
    compare_at (some c0) (some c) e0 e there0 there = inr (
        subst (λ r. Advance t r old new w0 w) (sym (comparing (some c0) (some c) e0 e there0 there))
          (meeting-Advance same sound t s0 s old new w0 w a0 a c0 c e0 e))

    round_new :
        (c0 c : Option NodeDataChild)
        → get_elem? (children a0.node) a0.place ≡ c0
        → get_elem? (children a.node) a.place ≡ c
        → at_end c0 s0 ≡ false
        → Outcomes s0 s old new w0 w
    round_new c0 none e0 e there0 = elim (Bool-cases (ltb 0 s.top)) [
      | inl up ↦ inr (climb_new (ap (λ x. at_end x s0) e0 ∙ there0) e up)
      | inr low ↦ compare_at c0 none e0 e there0 low
    ]
    round_new c0 (some c) e0 e there0 = compare_at c0 (some c) e0 e there0 refl

    round_at :
        (c0 : Option NodeDataChild)
        → get_elem? (children a0.node) a0.place ≡ c0
        → Outcomes s0 s old new w0 w
    round_at none e0 = elim (Bool-cases (ltb 0 s0.top)) [
      | inl up ↦ inr (climb_old e0 up)
      | inr low ↦ round_new none _ e0 refl low
    ]
    round_at (some c0) e0 = round_new (some c0) _ e0 refl refl

    pub delta_round_lem : Outcomes s0 s old new w0 w
    delta_round_lem = round_at _ refl
