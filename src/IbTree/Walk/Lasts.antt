-- ===== src/IbTree/Walk/Lasts.antt =====
-- The last key under a node of ibtree/, and the way down of `goPreviousLeaf` to it.
use go_tfhfs.Common.{
  ℕ, zero, suc, ◌-◌, ◌<◌, ◌≡◌, refl, some, List, [], ◌∷◌, ◌++◌, Bytes, ok, arith, get_elem?, ◌∙◌,
  sym, ap, take, length, append_right-nil, take_of_length-le,
}
use go_tfhfs.IbTree.Node.{Node, NodeDataChild, Tree, children, load_child}
use go_tfhfs.IbTree.Walk.Contents.{Entries, entries, of_child, contents, IsTree}
use go_tfhfs.IbTree.Walk.Landing.{child_of, part_of}
use go_tfhfs.IbTree.Walk.Ordered.{last_key}
use go_tfhfs.IbTree.Walk.Paths.{IsFilled, under, under-append, filled_at}

last_key-cons :
    (e : Bytes × Bytes) (es : Entries) (k : Bytes)
    → last_key es ≡ some k
    → last_key (e ∷ es) ≡ some k
last_key-cons e [] k h = cc
last_key-cons e (e' ∷ es) k h = h

pub last_key-append :
    (xs ys : Entries) (k : Bytes) → last_key ys ≡ some k → last_key (xs ++ ys) ≡ some k
last_key-append [] ys k h = h
last_key-append (x ∷ xs) ys k h = last_key-cons x (xs ++ ys) k (last_key-append xs ys k h)

take_at :
    (cs : List NodeDataChild) (i : ℕ) (c : NodeDataChild)
    → get_elem? cs i ≡ some c
    → take (suc i) cs ≡ take i cs ++ c ∷ []
take_at [] i c e = cc
take_at (d ∷ cs) zero c e = let same : d ≡ c = cc in rw same refl
take_at (d ∷ cs) (suc i) c e = ap (◌∷◌ d) (take_at cs i c e)

-- The last of the children.
pub last_of :
    (cs : List NodeDataChild)
    → 0 < length cs
    → (i : ℕ) × (c : NodeDataChild) × (length cs ≡ suc i)
      × (get_elem? cs i ≡ some c)
      × (take (suc i) cs ≡ cs)
last_of cs ne =
    let i = length cs - 1 in
    let (c, at, e) = child_of cs i (omega arith) in
    (i, c, omega arith, at, take_of_length-le (suc i) cs (omega arith))

module _ (t : Tree) where
  pub last_in_leaf :
      (cs : List NodeDataChild) (i : ℕ) (c : NodeDataChild)
      → get_elem? cs i ≡ some c
      → last_key (entries (take (suc i) cs)) ≡ some c.key
  last_in_leaf cs i c at =
      ap (λ x. last_key (entries x)) (take_at cs i c at)
      ∙ ap last_key (under-append t 0 (take i cs) (c ∷ []))
      ∙ last_key-append (entries (take i cs)) _ c.key refl

  pub last_at :
      (h : ℕ) (cs : List NodeDataChild) (i : ℕ) (c : NodeDataChild) (m : Node) (k : Bytes)
      → get_elem? cs i ≡ some c
      → load_child t.load_node c ≡ ok (some m)
      → last_key (contents t h m) ≡ some k
      → last_key (under t (suc h) (take (suc i) cs)) ≡ some k
  last_at h cs i c m k at l last =
      ap (λ x. last_key (under t (suc h) x)) (take_at cs i c at)
      ∙ ap last_key (under-append t (suc h) (take i cs) (c ∷ []))
      ∙ last_key-append (under t (suc h) (take i cs)) _ k (
          ap last_key (
            append_right-nil (of_child (contents t h) (load_child t.load_node c))
            ∙ ap (of_child (contents t h)) l)
          ∙ last)

  -- A tree with no empty nodes has a last key.
  pub has_last :
      (d : ℕ) (n : Node)
      → IsTree t d n
      → IsFilled t d n
      → 0 < length (children n)
      → (k : Bytes) × (last_key (contents t d n) ≡ some k)
  has_last zero n tree filled ne =
      let (i, c, len, at, all) = last_of (children n) ne in
      (c.key, ap (λ x. last_key (entries x)) (sym all) ∙ last_in_leaf (children n) i c at)
  has_last (suc d) n tree filled ne =
      let (i, c, len, at, all) = last_of (children n) ne in
      let (m, l, below) = part_of _ _ (children n) i c tree.2 at in
      let (ne', filled') = filled_at t d (children n) i c m filled at l in
      let (k, last) = has_last d m below filled' ne' in
      (
        k,
        ap (λ x. last_key (under t (suc d) x)) (sym all) ∙ last_at d (children n) i c m k at l last,
      )

  pub has_last_under :
      (h : ℕ) (n : Node) (i : ℕ)
      → IsTree t (suc h) n
      → IsFilled t (suc h) n
      → i < length (children n)
      → (k : Bytes) × (last_key (under t (suc h) (take (suc i) (children n))) ≡ some k)
  has_last_under h n i tree filled lt =
      let (c, at, e) = child_of (children n) i lt in
      let (m, l, below) = part_of _ _ (children n) i c tree.2 at in
      let (ne, filled') = filled_at t h (children n) i c m filled at l in
      let (k, last) = has_last h m below filled' ne in (k, last_at h (children n) i c m k at l last)
