-- ===== src/IbTree/Walk/Paths.antt =====
-- The way from the root of a tree of ibtree/ to the place where a search of ibtree/ibstack.go ends,
-- and the entries on both sides of it.
use go_tfhfs.Common.{
  ℕ, zero, suc, ◌≤◌, ◌<◌, ◌≡◌, refl, Option, ℤ, none, some, List, [], ◌∷◌, ◌++◌, ok, arith,
  get_elem?, pos, negsuc, ◌∙◌, sym, ap, take, drop, length, All,
}
use mathlib.Core.List.{append_assoc}
use go_tfhfs.IbTree.Node.{Node, NodeDataChild, Tree, children, load_child}
use go_tfhfs.IbTree.Stack.{Stack}
use go_tfhfs.IbTree.Walk.Contents.{Entries, entries, flat, of_child, contents, IsTree}

-- No node below the top is empty, and no entry of a leaf has a child node.
abbrev pub IsFilled : Tree → ℕ → Node → Type 0
IsFilled t zero n = All (λ c. c.child_node ≡ none) (children n)
IsFilled t (suc d) n =
    All
      (λ c.
        (m : Node)
        → load_child t.load_node c ≡ ok (some m)
        → (0 < length (children m)) × IsFilled t d m)
      (children n)

-- The entries under some of the children of a node with `d` levels below it.
abbrev pub under : Tree → ℕ → List NodeDataChild → Entries
under t zero cs = entries cs
under t (suc d) cs = flat (λ c. of_child (contents t d) (load_child t.load_node c)) cs

pub under-children : (t : Tree) (d : ℕ) (n : Node) → under t d (children n) ≡ contents t d n
under-children t zero n = refl
under-children t (suc d) n = refl

flat-append :
    (f : NodeDataChild → Entries) (xs ys : List NodeDataChild)
    → flat f (xs ++ ys) ≡ flat f xs ++ flat f ys
flat-append f [] ys = refl
flat-append f (x ∷ xs) ys =
    ap (◌++◌ (f x)) (flat-append f xs ys) ∙ sym (append_assoc (f x) (flat f xs) (flat f ys))

entries-append : (xs ys : List NodeDataChild) → entries (xs ++ ys) ≡ entries xs ++ entries ys
entries-append [] ys = refl
entries-append (x ∷ xs) ys = ap (◌∷◌ (x.key, x.value)) (entries-append xs ys)

pub under-append :
    (t : Tree) (d : ℕ) (xs ys : List NodeDataChild)
    → under t d (xs ++ ys) ≡ under t d xs ++ under t d ys
under-append t zero xs ys = entries-append xs ys
under-append t (suc d) xs ys = flat-append _ xs ys

-- The children of a node after or before a place.
abbrev pub after_index : ℤ → Node → List NodeDataChild
after_index (pos i) n = drop (suc i) (children n)
after_index (negsuc i) n = children n

abbrev pub before_index : ℤ → Node → List NodeDataChild
before_index (pos i) n = take i (children n)
before_index (negsuc i) n = []

abbrev pub of_node : (Node → List NodeDataChild) → Option Node → List NodeDataChild
of_node f none = []
of_node f (some n) = f n

-- A child of a node that has no empty nodes below it.
pub filled_at :
    (t : Tree) (d : ℕ) (cs : List NodeDataChild) (i : ℕ) (c : NodeDataChild) (m : Node)
    → All
        (λ c.
          (m : Node)
          → load_child t.load_node c ≡ ok (some m)
          → (0 < length (children m)) × IsFilled t d m)
        cs
    → get_elem? cs i ≡ some c
    → load_child t.load_node c ≡ ok (some m)
    → (0 < length (children m)) × IsFilled t d m
filled_at t d [] i c m a at l = cc
filled_at t d (c' ∷ cs) zero c m a at l = let same : c' ≡ c = cc in a.0 m (rw same l)
filled_at t d (c' ∷ cs) (suc i) c m a at l = filled_at t d cs i c m a.1 at l

module _ (t : Tree) where
  -- The entries after the way of the stack, of its first `k` nodes; the last of them has `h` levels
  -- below it.
  abbrev pub after : ℕ → Stack → ℕ → Entries
  after h s zero = []
  after h s (suc k) =
      under t h (of_node (after_index (s.indexes k)) (s.nodes k)) ++ after (suc h) s k

  abbrev pub before : ℕ → Stack → ℕ → Entries
  before h s zero = []
  before h s (suc k) =
      before (suc h) s k ++ under t h (of_node (before_index (s.indexes k)) (s.nodes k))

  -- Each of these nodes is a tree whose nodes are not empty, with an index that is no negative one.
  abbrev pub Levels : ℕ → Stack → ℕ → Type 0
  Levels h s zero = Unit
  Levels h s (suc k) =
      (n : Node) × (i : ℕ) × (s.nodes k ≡ some n)
      × (s.indexes k ≡ pos i)
      × IsTree t h n
      × IsFilled t h n
      × (i ≤ length (children n))
      × Levels (suc h) s k

  -- Two stacks with the same first nodes and indexes.
  abbrev pub Agree : Stack → Stack → ℕ → Type 0
  Agree s s' k = (i : ℕ) → i < k → (s'.nodes i ≡ s.nodes i) × (s'.indexes i ≡ s.indexes i)

  pub after-Agree : (h : ℕ) (s s' : Stack) (k : ℕ) → Agree s s' k → after h s' k ≡ after h s k
  after-Agree h s s' zero a = refl
  after-Agree h s s' (suc k) a =
      let (p, q) = a k (omega arith) in
      rw (p, q, after-Agree (suc h) s s' k (λ i lt. a i (omega arith))) refl

  pub before-Agree : (h : ℕ) (s s' : Stack) (k : ℕ) → Agree s s' k → before h s' k ≡ before h s k
  before-Agree h s s' zero a = refl
  before-Agree h s s' (suc k) a =
      let (p, q) = a k (omega arith) in
      rw (p, q, before-Agree (suc h) s s' k (λ i lt. a i (omega arith))) refl

  pub Levels-Agree : (h : ℕ) (s s' : Stack) (k : ℕ) → Agree s s' k → Levels h s k → Levels h s' k
  Levels-Agree h s s' zero a l = tt
  Levels-Agree h s s' (suc k) a (n, i, at, here, tree, filled, bound, l) =
      let (p, q) = a k (omega arith) in
      (
        n,
        i,
        p ∙ at,
        q ∙ here,
        tree,
        filled,
        bound,
        Levels-Agree (suc h) s s' k (λ i lt. a i (omega arith)) l,
      )
