-- ===== src/IbTree/Walk/Ordered.antt =====
-- The entries of a tree of ibtree/ in the order of their keys, and the neighbours of a key among
-- them.
use go_tfhfs.Common.{
  zero, suc, ◌≡◌, true, false, Option, none, some, [], ◌∷◌, ◌++◌, Bytes, bytes_lt, bytes_lt_irrefl,
  bytes_lt_trans, bytes_lt_total, All, arith, List, Bool-cases, inl, inr, ℕ,
}
use go_tfhfs.IbTree.Node.{Node, NodeDataChild, Tree, children}
use go_tfhfs.IbTree.Walk.Contents.{
  Entries, entries, flat, contents, Before, IsSorted, IsParts, Before-trans, IsTree,
}

abbrev pub Below : Bytes → Entries → Type 0
Below k es = All (λ e. bytes_lt e.0 k ≡ true) es

abbrev pub From : Bytes → Entries → Type 0
From k es = All (λ e. bytes_lt e.0 k ≡ false) es

abbrev pub Above : Bytes → Entries → Type 0
Above k es = All (λ e. bytes_lt k e.0 ≡ true) es

abbrev pub IsOrdered : Entries → Type 0
IsOrdered [] = Unit
IsOrdered (e ∷ es) = Above e.0 es × IsOrdered es

abbrev pub first_key : Entries → Option Bytes
first_key [] = none
first_key (e ∷ es) = some e.0

abbrev pub last_key : Entries → Option Bytes
last_key [] = none
last_key (e ∷ []) = some e.0
last_key (e ∷ e' ∷ es) = last_key (e' ∷ es)

pub All-append :
    (P : Bytes × Bytes → Type 0) (xs ys : Entries) → All P xs → All P ys → All P (xs ++ ys)
All-append P [] ys p q = q
All-append P (x ∷ xs) ys p q = (p.0, All-append P xs ys p.1 q)

pub All-split :
    (P : Bytes × Bytes → Type 0) (xs ys : Entries) → All P (xs ++ ys) → All P xs × All P ys
All-split P [] ys p = (tt, p)
All-split P (x ∷ xs) ys p = let (a, b) = All-split P xs ys p.1 in ((p.0, a), b)

pub lt_of_lt_ge : (a b c : Bytes) → bytes_lt a b ≡ true → bytes_lt c b ≡ false → bytes_lt a c ≡ true
lt_of_lt_ge a b c h k = elim (Bool-cases (bytes_lt b c)) [
  | inl e ↦ bytes_lt_trans a b c h e
  | inr e ↦ let same : b ≡ c = bytes_lt_total b c e k in rw (← same) h
]

pub ge_of_lt : (a b : Bytes) → bytes_lt a b ≡ true → bytes_lt b a ≡ false
ge_of_lt a b h = ground (arith, bytes_lt_trans a b a h, bytes_lt_irrefl a)

pub Above-From : (j k : Bytes) (es : Entries) → bytes_lt j k ≡ true → From k es → Above j es
Above-From j k [] h f = tt
Above-From j k (e ∷ es) h f = (lt_of_lt_ge j k e.0 h f.0, Above-From j k es h f.1)

pub Above-trans : (j k : Bytes) (es : Entries) → bytes_lt j k ≡ true → Above k es → Above j es
Above-trans j k [] h f = tt
Above-trans j k (e ∷ es) h f = (bytes_lt_trans j k e.0 h f.0, Above-trans j k es h f.1)

pub Above-entries :
    (k : Bytes) (cs : List NodeDataChild) → Before k cs → IsSorted cs → Above k (entries cs)
Above-entries k [] b s = tt
Above-entries k (c ∷ cs) b s = (b, Above-entries k cs (Before-trans k c.key cs b s.0) s.1)

entries-IsOrdered : (cs : List NodeDataChild) → IsSorted cs → IsOrdered (entries cs)
entries-IsOrdered [] s = tt
entries-IsOrdered (c ∷ cs) s = (Above-entries c.key cs s.0 s.1, entries-IsOrdered cs s.1)

IsOrdered-append :
    (xs ys : Entries)
    → IsOrdered xs
    → IsOrdered ys
    → All (λ e. Above e.0 ys) xs
    → IsOrdered (xs ++ ys)
IsOrdered-append [] ys p q h = q
IsOrdered-append (x ∷ xs) ys p q h = (All-append _ xs ys p.0 h.0, IsOrdered-append xs ys p.1 q h.1)

module _ (P : NodeDataChild → Type 0) (f : NodeDataChild → Entries) where
  -- A key before the first of the children is before all that is under them.
  pub Above-flat :
      (k : Bytes) (cs : List NodeDataChild) → Before k cs → IsParts P f cs → Above k (flat f cs)
  Above-flat k [] b h = tt
  Above-flat k (c ∷ cs) b (p, lo, hi, up, rest) =
      All-append _ (f c) (flat f cs) (Above-From k c.key (f c) b lo)
        (Above-flat k cs (Before-trans k c.key cs b up) rest)

  all-Before :
      (es : Entries) (cs : List NodeDataChild)
      → All (λ e. Before e.0 cs) es
      → IsParts P f cs
      → All (λ e. Above e.0 (flat f cs)) es
  all-Before [] cs a h = tt
  all-Before (e ∷ es) cs a h = (Above-flat e.0 cs a.0 h, all-Before es cs a.1 h)

  flat-IsOrdered :
      (cs : List NodeDataChild)
      → ((c : NodeDataChild) → P c → IsOrdered (f c))
      → IsParts P f cs
      → IsOrdered (flat f cs)
  flat-IsOrdered [] o h = tt
  flat-IsOrdered (c ∷ cs) o (p, lo, hi, up, rest) =
      IsOrdered-append (f c) (flat f cs) (o c p) (flat-IsOrdered cs o rest)
        (all-Before (f c) cs hi rest)

-- The keys of a tree grow from left to right.
pub contents-IsOrdered : (t : Tree) (d : ℕ) (n : Node) → IsTree t d n → IsOrdered (contents t d n)
contents-IsOrdered t zero n h = entries-IsOrdered (children n) h.1
contents-IsOrdered t (suc d) n h =
    flat-IsOrdered _ _ (children n) (λ c (m, l, below). rw l (contents-IsOrdered t d m below)) h.2
