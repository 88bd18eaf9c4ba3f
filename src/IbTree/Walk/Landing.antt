-- ===== src/IbTree/Walk/Landing.antt =====
-- Where a step of ibtree/ibstack.go ends, and the first key under a node.
use go_tfhfs.Common.{
  ℕ, zero, suc, ◌≤◌, ◌<◌, ◌≡◌, refl, Option, none, some, List, [], ◌∷◌, ◌++◌, Bytes, ok, arith,
  get_elem?, ◌∙◌, sym, drop, length,
}
use go_tfhfs.IbTree.Node.{Node, NodeDataChild, Tree, children, load_child}
use go_tfhfs.IbTree.Stack.{Stack, child_at}
use go_tfhfs.IbTree.Stack.Cache.{IsCoherent}
use go_tfhfs.IbTree.Walk.{key_of}
use go_tfhfs.IbTree.Walk.Contents.{Entries, entries, contents, IsParts, IsTree}
use go_tfhfs.IbTree.Walk.Ordered.{first_key}
use go_tfhfs.IbTree.Walk.Paths.{IsFilled, under, filled_at}

-- Where a step ends: at an entry with the key `r`, or, for none, at no entry.
pub record Lands (t : Tree) (root : Node) (r : Option Bytes) (s : Stack) : Type 0 where
  pub coherent : IsCoherent t s
  pub rooted : s.nodes 0 ≡ some root
  pub level : ℕ
  pub on_top : s.top ≡ level
  pub leaf : Node
  pub at : s.nodes level ≡ some leaf
  pub key : key_of (child_at (children leaf) (s.indexes level)) ≡ r

pub child_of :
    (cs : List NodeDataChild) (i : ℕ)
    → i < length cs
    → (c : NodeDataChild) × (get_elem? cs i ≡ some c) × (drop i cs ≡ c ∷ drop (suc i) cs)
child_of [] i h = absurd (omega arith)
child_of (c ∷ cs) zero h = (c, refl, refl)
child_of (c ∷ cs) (suc i) h = child_of cs i (omega arith)

pub drop_at :
    (cs : List NodeDataChild) (i : ℕ) (c : NodeDataChild)
    → get_elem? cs i ≡ some c
    → drop i cs ≡ c ∷ drop (suc i) cs
drop_at [] i c e = cc
drop_at (d ∷ cs) zero c e = let same : d ≡ c = cc in rw same refl
drop_at (d ∷ cs) (suc i) c e = drop_at cs i c e

pub part_of :
    (P : NodeDataChild → Type 0) (f : NodeDataChild → Entries) (cs : List NodeDataChild) (i : ℕ)
    (c : NodeDataChild)
    → IsParts P f cs
    → get_elem? cs i ≡ some c
    → P c
part_of P f [] i c h at = cc
part_of P f (d ∷ cs) zero c h at = let same : d ≡ c = cc in rw (← same) h.0
part_of P f (d ∷ cs) (suc i) c (p, from, until, up, rest) at = part_of P f cs i c rest at

pub first_key-append :
    (xs ys : Entries) (k : Bytes) → first_key xs ≡ some k → first_key (xs ++ ys) ≡ some k
first_key-append [] ys k h = cc
first_key-append (x ∷ xs) ys k h = h

pub first_key-append_right :
    (xs ys : Entries) (k : Bytes) → first_key xs ≡ some k → first_key xs ≡ first_key (xs ++ ys)
first_key-append_right xs ys k h = h ∙ sym (first_key-append xs ys k h)

pub first_key-drop :
    (cs : List NodeDataChild) (i : ℕ) (es : Entries)
    → i < length cs
    → key_of (get_elem? cs i) ≡ first_key (entries (drop i cs) ++ es)
first_key-drop [] i es h = absurd (omega arith)
first_key-drop (c ∷ cs) zero es h = refl
first_key-drop (c ∷ cs) (suc i) es h = first_key-drop cs i es (omega arith)

pub no_child : (cs : List NodeDataChild) → key_of (get_elem? cs (length cs)) ≡ none
no_child [] = refl
no_child (c ∷ cs) = no_child cs

pub nothing_left :
    (t : Tree) (h : ℕ) (cs : List NodeDataChild) (i : ℕ)
    → length cs ≤ i
    → under t h (drop i cs) ≡ []
nothing_left t zero [] zero le = refl
nothing_left t (suc h) [] zero le = refl
nothing_left t zero [] (suc i) le = refl
nothing_left t (suc h) [] (suc i) le = refl
nothing_left t h (c ∷ cs) zero le = absurd (omega arith)
nothing_left t h (c ∷ cs) (suc i) le = nothing_left t h cs i (omega arith)

pub first_key-head : (cs : List NodeDataChild) → key_of (get_elem? cs 0) ≡ first_key (entries cs)
first_key-head [] = refl
first_key-head (c ∷ cs) = refl

pub first_of :
    (cs : List NodeDataChild) (i : ℕ) (c : NodeDataChild)
    → drop i cs ≡ c ∷ drop (suc i) cs
    → first_key (entries (drop i cs)) ≡ some c.key
first_of cs i c e = rw e refl

module _ (t : Tree) where
  pub first_under :
      (h : ℕ) (cs : List NodeDataChild) (i : ℕ) (c : NodeDataChild) (m : Node) (k : Bytes)
      → drop i cs ≡ c ∷ drop (suc i) cs
      → load_child t.load_node c ≡ ok (some m)
      → first_key (contents t h m) ≡ some k
      → first_key (under t (suc h) (drop i cs)) ≡ some k
  first_under h cs i c m k e l first = rw (e, l) (first_key-append (contents t h m) _ k first)

  pub first_at :
      (h : ℕ) (cs : List NodeDataChild) (i : ℕ) (c : NodeDataChild) (m : Node) (k : Bytes)
      → get_elem? cs i ≡ some c
      → load_child t.load_node c ≡ ok (some m)
      → first_key (contents t h m) ≡ some k
      → first_key (under t (suc h) (drop i cs)) ≡ some k
  first_at h cs i c m k at l first = first_under h cs i c m k (drop_at cs i c at) l first

  -- A tree with no empty nodes has a first key.
  pub has_first :
      (d : ℕ) (n : Node)
      → IsTree t d n
      → IsFilled t d n
      → 0 < length (children n)
      → (k : Bytes) × (first_key (contents t d n) ≡ some k)
  has_first zero n tree filled ne =
      let (c, at, e) = child_of (children n) 0 ne in (c.key, first_of (children n) 0 c e)
  has_first (suc d) n tree filled ne =
      let (c, at, e) = child_of (children n) 0 ne in
      let (m, l, below) = part_of _ _ (children n) 0 c tree.2 at in
      let (ne', filled') = filled_at t d (children n) 0 c m filled at l in
      let (k, first) = has_first d m below filled' ne' in
      (k, first_under d (children n) 0 c m k e l first)

  pub has_first_under :
      (h : ℕ) (n : Node) (i : ℕ)
      → IsTree t (suc h) n
      → IsFilled t (suc h) n
      → i < length (children n)
      → (k : Bytes) × (first_key (under t (suc h) (drop i (children n))) ≡ some k)
  has_first_under h n i tree filled lt =
      let (c, at, e) = child_of (children n) i lt in
      let (m, l, below) = part_of _ _ (children n) i c tree.2 at in
      let (ne, filled') = filled_at t h (children n) i c m filled at l in
      let (k, first) = has_first h m below filled' ne in
      (k, first_under h (children n) i c m k e l first)
