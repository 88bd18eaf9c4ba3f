-- ===== src/IbTree/Walk/Contents.antt =====
-- What a tree of ibtree/ holds: the entries of its leaves from left to right, and where a key can
-- be among them.
use go_tfhfs.Common.{
  ℕ, zero, suc, ◌≤◌, ◌<◌, ◌≡◌, true, false, Option, none, some, List, [], ◌∷◌, ◌++◌, Bytes,
  bytes_lt, bytes_lt_trans, Outcome, ok, panic, length, All, arith, not,
}
use go_tfhfs.IbTree.Node.{Node, NodeDataChild, Tree, leafy, children, load_child}
use go_tfhfs.IbTree.Stack.{key_at}

abbrev pub Entries : Type 0
Entries = List (Bytes × Bytes)

abbrev pub entries : List NodeDataChild → Entries
entries [] = []
entries (c ∷ cs) = (c.key, c.value) ∷ entries cs

abbrev pub flat : (NodeDataChild → Entries) → List NodeDataChild → Entries
flat f [] = []
flat f (c ∷ cs) = f c ++ flat f cs

abbrev pub of_child : (Node → Entries) → Outcome (Option Node) → Entries
of_child f (ok (some m)) = f m
of_child f (ok none) = []
of_child f panic = []

-- The entries of a tree with `d` levels above its leaves.
abbrev pub contents : Tree → ℕ → Node → Entries
contents t zero n = entries (children n)
contents t (suc d) n = flat (λ c. of_child (contents t d) (load_child t.load_node c)) (children n)

-- The first of the children, if any, has a larger key.
abbrev pub Before : Bytes → List NodeDataChild → Type 0
Before k [] = Unit
Before k (c ∷ cs) = bytes_lt k c.key ≡ true

abbrev pub IsSorted : List NodeDataChild → Type 0
IsSorted [] = Unit
IsSorted (c ∷ cs) = Before c.key cs × IsSorted cs

-- The entries under a child have the child's key or larger ones, all smaller than the next child's.
abbrev pub IsParts :
    (NodeDataChild → Type 0) → (NodeDataChild → Entries) → List NodeDataChild → Type 0
IsParts P f [] = Unit
IsParts P f (c ∷ cs) =
    P c
    × All (λ e. bytes_lt e.0 c.key ≡ false) (f c)
    × All (λ e. Before e.0 cs) (f c)
    × Before c.key cs
    × IsParts P f cs

-- A tree with `d` levels above its leaves: keys grow, and the keys of interior nodes separate.
abbrev pub IsTree : Tree → ℕ → Node → Type 0
IsTree t zero n = (leafy n ≡ true) × IsSorted (children n)
IsTree t (suc d) n =
    (leafy n ≡ false)
    × (0 < length (children n))
    × IsParts (λ c. (m : Node) × (load_child t.load_node c ≡ ok (some m)) × IsTree t d m)
        (λ c. of_child (contents t d) (load_child t.load_node c)) (children n)

pub IsParts-IsSorted :
    (P : NodeDataChild → Type 0) (f : NodeDataChild → Entries) (cs : List NodeDataChild)
    → IsParts P f cs
    → IsSorted cs
IsParts-IsSorted P f [] h = tt
IsParts-IsSorted P f (c ∷ cs) (p, lo, hi, b, rest) = (b, IsParts-IsSorted P f cs rest)

pub Before-trans :
    (j k : Bytes) (cs : List NodeDataChild) → bytes_lt j k ≡ true → Before k cs → Before j cs
Before-trans j k [] h b = tt
Before-trans j k (c ∷ cs) h b = bytes_lt_trans j k c.key h b

pub Before-key_at :
    (k : Bytes) (cs : List NodeDataChild) (i : ℕ)
    → Before k cs
    → IsSorted cs
    → i < length cs
    → bytes_lt k (key_at cs i) ≡ true
Before-key_at k [] i b s h = absurd (omega arith)
Before-key_at k (c ∷ cs) zero b s h = b
Before-key_at k (c ∷ cs) (suc i) b s h =
    Before-key_at k cs i (Before-trans k c.key cs b s.0) s.1 (omega arith)

pub key_at_grows :
    (cs : List NodeDataChild) (i j : ℕ)
    → IsSorted cs
    → i < j
    → j < length cs
    → bytes_lt (key_at cs i) (key_at cs j) ≡ true
key_at_grows [] i j s h k = absurd (omega arith)
key_at_grows (c ∷ cs) i zero s h k = absurd (omega arith)
key_at_grows (c ∷ cs) zero (suc j) s h k = Before-key_at c.key cs j s.0 s.1 (omega arith)
key_at_grows (c ∷ cs) (suc i) (suc j) s h k = key_at_grows cs i j s.1 (omega arith) (omega arith)

-- The test of the search in a leaf stays true once it is true.
pub leaf_test_up :
    (key : Bytes) (cs : List NodeDataChild)
    → IsSorted cs
    → (i k : ℕ) → not (bytes_lt (key_at cs i) key) ≡ true
    → i ≤ k
    → k < length cs
    → not (bytes_lt (key_at cs k) key) ≡ true
leaf_test_up key cs s i k h le lt =
    ground (arith, key_at_grows cs i k s, bytes_lt_trans (key_at cs i) (key_at cs k) key)

pub interior_test_up :
    (key : Bytes) (cs : List NodeDataChild)
    → IsSorted cs
    → (i k : ℕ) → bytes_lt key (key_at cs i) ≡ true
    → i ≤ k
    → k < length cs
    → bytes_lt key (key_at cs k) ≡ true
interior_test_up key cs s i k h le lt =
    ground (arith, key_at_grows cs i k s, bytes_lt_trans key (key_at cs i) (key_at cs k))
