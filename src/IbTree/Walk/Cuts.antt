-- ===== src/IbTree/Walk/Cuts.antt =====
-- The entries before and from the place to which a search of ibtree/ibstack.go leads in a node.
use go_tfhfs.Common.{
  ℕ, zero, suc, ◌≤◌, ◌<◌, ◌≡◌, refl, true, false, some, List, [], ◌∷◌, ◌++◌, Bytes, bytes_lt, arith,
  get_elem?, ap, take, drop, length, All, not,
}
use go_tfhfs.IbTree.Node.{NodeDataChild}
use go_tfhfs.IbTree.Stack.{key_at, leaf_index, interior_index}
use go_tfhfs.IbTree.Walk.Contents.{
  Entries, entries, flat, Before, IsSorted, IsParts, IsParts-IsSorted,
}
use go_tfhfs.IbTree.Walk.Ordered.{Below, From, Above, All-append, ge_of_lt, lt_of_lt_ge, Above-flat}
use go_tfhfs.IbTree.Walk.Places.{reached, leaf_index-IsFirst, interior_index-separates}

-- The children around an index.
pub split_at :
    (cs : List NodeDataChild) (i : ℕ) (c : NodeDataChild)
    → get_elem? cs i ≡ some c
    → cs ≡ take i cs ++ (c ∷ drop (suc i) cs)
split_at [] i c e = cc
split_at (d ∷ cs) zero c e = let same : d ≡ c = cc in rw same refl
split_at (d ∷ cs) (suc i) c e = ap (◌∷◌ d) (split_at cs i c e)

take-Below :
    (key : Bytes) (cs : List NodeDataChild) (i : ℕ)
    → ((k : ℕ) → k < i → bytes_lt (key_at cs k) key ≡ true)
    → Below key (entries (take i cs))
take-Below key cs zero h = tt
take-Below key [] (suc i) h = tt
take-Below key (c ∷ cs) (suc i) h =
    (h 0 (omega arith), take-Below key cs i (λ k lt. h (suc k) (omega arith)))

drop-From :
    (key : Bytes) (cs : List NodeDataChild) (i : ℕ)
    → ((k : ℕ) → i ≤ k → k < length cs → not (bytes_lt (key_at cs k) key) ≡ true)
    → From key (entries (drop i cs))
drop-From key [] zero h = tt
drop-From key [] (suc i) h = tt
drop-From key (c ∷ cs) zero h = (
  ground (arith, h 0 (omega arith) (omega arith)),
  drop-From key cs 0 (λ k le lt. h (suc k) (omega arith) (omega arith)),
)
drop-From key (c ∷ cs) (suc i) h =
    drop-From key cs i (λ k le lt. h (suc k) (omega arith) (omega arith))

-- In a leaf.
pub leaf_index-cuts :
    (key : Bytes) (cs : List NodeDataChild)
    → IsSorted cs
    → Below key (entries (take (leaf_index key cs) cs))
      × From key (entries (drop (leaf_index key cs) cs))
leaf_index-cuts key cs s =
    let first = leaf_index-IsFirst key cs s in
    (
      take-Below key cs (leaf_index key cs) (λ k lt. ground (arith, first.before k lt)),
      drop-From key cs (leaf_index key cs) first.there,
    )

pub From-Above : (k : Bytes) (es : Entries) → Above k es → From k es
From-Above k [] a = tt
From-Above k (e ∷ es) a = (ge_of_lt k e.0 a.0, From-Above k es a.1)

Below-bound :
    (key : Bytes) (c : NodeDataChild) (cs : List NodeDataChild) (es : Entries)
    → bytes_lt key c.key ≡ false
    → All (λ e. Before e.0 (c ∷ cs)) es
    → Below key es
Below-bound key c cs [] h a = tt
Below-bound key c cs (e ∷ es) h a = (lt_of_lt_ge e.0 c.key key a.0 h, Below-bound key c cs es h a.1)

module _ (P : NodeDataChild → Type 0) (f : NodeDataChild → Entries) (key : Bytes) where
  parts_Below :
      (cs : List NodeDataChild) (i : ℕ)
      → IsParts P f cs
      → i < length cs
      → (0 < i → bytes_lt key (key_at cs i) ≡ false)
      → Below key (flat f (take i cs))
  parts_Below cs zero h lt lo = tt
  parts_Below [] (suc i) h lt lo = tt
  parts_Below (c ∷ []) (suc i) h lt lo = absurd (omega arith)
  parts_Below (c ∷ c' ∷ cs) (suc i) (p, from, until, up, rest) lt lo =
      All-append _ (f c) (flat f (take i (c' ∷ cs)))
        (Below-bound key c' cs (f c) (reached P f key c' cs i rest (lo (omega arith)) (omega arith))
          until)
        (parts_Below (c' ∷ cs) i rest (omega arith) (λ pos. lo (omega arith)))

  Before-next :
      (cs : List NodeDataChild)
      → (0 < length cs → bytes_lt key (key_at cs 0) ≡ true)
      → Before key cs
  Before-next [] h = tt
  Before-next (c ∷ cs) h = h (omega arith)

  parts_Above :
      (cs : List NodeDataChild) (i : ℕ)
      → IsParts P f cs
      → (i < length cs → bytes_lt key (key_at cs i) ≡ true)
      → Above key (flat f (drop i cs))
  parts_Above [] zero h hi = tt
  parts_Above (c ∷ cs) zero h hi = Above-flat P f key (c ∷ cs) (Before-next (c ∷ cs) hi) h
  parts_Above [] (suc i) h hi = tt
  parts_Above (c ∷ cs) (suc i) (p, from, until, up, rest) hi =
      parts_Above cs i rest (λ lt. hi (omega arith))

  -- In an interior node.
  pub interior_index-cuts :
      (cs : List NodeDataChild)
      → 0 < length cs
      → IsParts P f cs
      → Below key (flat f (take (interior_index key cs) cs))
        × Above key (flat f (drop (suc (interior_index key cs)) cs))
  interior_index-cuts cs ne h =
      let (inside, lo, hi) = interior_index-separates key cs ne (IsParts-IsSorted P f cs h) in
      (
        parts_Below cs (interior_index key cs) h inside lo,
        parts_Above cs (suc (interior_index key cs)) h hi,
      )
