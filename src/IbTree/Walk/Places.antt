-- ===== src/IbTree/Walk/Places.antt =====
-- The searches inside of a node of ibtree/ibstack.go lead to the only place where a key can be.
use go_tfhfs.Common.{
  ℕ, zero, suc, ◌<◌, ◌≡◌, refl, true, false, none, some, List, [], ◌∷◌, ◌++◌, Bytes, bytes_lt,
  bytes_eq, bytes_eq_iff, bytes_lt_irrefl, bytes_lt_trans, bytes_lt_total, map_get, Bool-cases, inl,
  inr, length, All, arith, not, get_elem?,
}
use go_tfhfs.IbTree.BinarySearch.{IsFirst, sort_search-IsFirst}
use go_tfhfs.IbTree.Node.{NodeDataChild}
use go_tfhfs.IbTree.Stack.{key_at, leaf_index, interior_index}
use go_tfhfs.IbTree.Walk.{found}
use go_tfhfs.IbTree.Walk.Contents.{
  Entries, entries, flat, Before, IsSorted, IsParts, IsParts-IsSorted, Before-trans, key_at_grows,
  leaf_test_up, interior_test_up,
}

-- No entry has a key before the first child.
pub absent :
    (key : Bytes) (cs : List NodeDataChild)
    → Before key cs
    → IsSorted cs
    → map_get key (entries cs) ≡ none
unfolding map_get
absent key [] b s = refl
absent key (c ∷ cs) b s =
    let rest : map_get key (entries cs) ≡ none =
      absent key cs (Before-trans key c.key cs b s.0) s.1 in
    ground (arith, bytes_eq_iff c.key key, bytes_lt_irrefl key)

-- The entry at the place where the keys reach `key` is the one to look at.
entry_at :
    (key : Bytes) (cs : List NodeDataChild) (r : ℕ)
    → IsSorted cs
    → ((k : ℕ) → k < r → bytes_lt (key_at cs k) key ≡ true)
    → (r < length cs → bytes_lt (key_at cs r) key ≡ false)
    → map_get key (entries cs) ≡ found key (get_elem? cs r)
unfolding map_get
entry_at key [] r s below above = refl
entry_at key (c ∷ cs) zero s below above = elim (Bool-cases (bytes_eq c.key key)) [
  | inl e ↦ rw e refl
  | inr e ↦
      let larger : bytes_lt key c.key ≡ true =
        ground (arith, bytes_eq_iff c.key key, bytes_lt_total c.key key, above (omega arith)) in
      rw e (absent key cs (Before-trans key c.key cs larger s.0) s.1)
]
entry_at key (c ∷ cs) (suc r) s below above =
    let other : bytes_eq c.key key ≡ false =
      ground (arith, bytes_eq_iff c.key key, bytes_lt_irrefl key, below 0 (omega arith)) in
    rw other (entry_at key cs r s.1 (λ k h. below (suc k) (omega arith)) (λ h. above (omega arith)))

pub leaf_index-IsFirst :
    (key : Bytes) (cs : List NodeDataChild)
    → IsSorted cs
    → IsFirst (length cs) (λ i. not (bytes_lt (key_at cs i) key)) (leaf_index key cs)
unfolding leaf_index
leaf_index-IsFirst key cs s =
    sort_search-IsFirst (length cs) (λ i. not (bytes_lt (key_at cs i) key)) (leaf_test_up key cs s)

-- In a leaf, the search leads to the entry of the key, if there is one.
pub leaf_index-entries :
    (key : Bytes) (cs : List NodeDataChild)
    → IsSorted cs
    → map_get key (entries cs) ≡ found key (get_elem? cs (leaf_index key cs))
leaf_index-entries key cs s =
    let first = leaf_index-IsFirst key cs s in
    entry_at key cs (leaf_index key cs) s (λ k h. ground (arith, first.before k h))
      λ h. ground (arith, first.there (leaf_index key cs))

map_get-append :
    (key : Bytes) (xs ys : Entries)
    → map_get key xs ≡ none
    → map_get key (xs ++ ys) ≡ map_get key ys
unfolding map_get
map_get-append key [] ys h = refl
map_get-append key ((j, v) ∷ xs) ys h = ground (arith, map_get-append key xs ys)

map_get-append_absent :
    (key : Bytes) (xs ys : Entries)
    → map_get key ys ≡ none
    → map_get key (xs ++ ys) ≡ map_get key xs
unfolding map_get
map_get-append_absent key [] ys h = h
map_get-append_absent key ((j, v) ∷ xs) ys h = ground (arith, map_get-append_absent key xs ys)

-- A key at or above a bound of the entries is not among them, and neither is one below them all.
above_entries :
    (key k : Bytes) (es : Entries)
    → bytes_lt key k ≡ false
    → All (λ e. bytes_lt e.0 k ≡ true) es
    → map_get key es ≡ none
unfolding map_get
above_entries key k [] h a = refl
above_entries key k ((j, v) ∷ es) h a = ground (arith, above_entries key k es, bytes_eq_iff j key)

below_entries :
    (key k : Bytes) (es : Entries)
    → bytes_lt key k ≡ true
    → All (λ e. bytes_lt e.0 k ≡ false) es
    → map_get key es ≡ none
unfolding map_get
below_entries key k [] h a = refl
below_entries key k ((j, v) ∷ es) h a = ground (arith, below_entries key k es, bytes_eq_iff j key)

-- The search in an interior node leads to the last child whose key is not above `key`, or to the
-- first child.
pub interior_index-separates :
    (key : Bytes) (cs : List NodeDataChild)
    → 0 < length cs
    → IsSorted cs
    → (interior_index key cs < length cs)
      × (0 < interior_index key cs → bytes_lt key (key_at cs (interior_index key cs)) ≡ false)
      × (suc (interior_index key cs) < length cs
          → bytes_lt key (key_at cs (suc (interior_index key cs))) ≡ true)
unfolding interior_index
interior_index-separates key cs ne s =
    let first =
      sort_search-IsFirst (length cs) (λ i. bytes_lt key (key_at cs i))
        (interior_test_up key cs s) in
    let r = interior_index key cs in
    (
      ground (arith, first.inside),
      λ pos. first.before r (omega arith),
      λ lt. first.there (suc r) (omega arith) lt,
    )

module _ (P : NodeDataChild → Type 0) (f : NodeDataChild → Entries) (key : Bytes) where
  absent_below :
      (cs : List NodeDataChild) → Before key cs → IsParts P f cs → map_get key (flat f cs) ≡ none
  unfolding map_get
  absent_below [] b h = refl
  absent_below (c ∷ cs) b (p, lo, hi, up, rest) =
      rw (map_get-append key (f c) (flat f cs) (below_entries key c.key (f c) b lo))
        (absent_below cs (Before-trans key c.key cs b up) rest)

  -- Where the key is not below a later child, it is not below the first.
  pub reached :
      (c : NodeDataChild) (cs : List NodeDataChild) (i : ℕ)
      → IsParts P f (c ∷ cs)
      → bytes_lt key (key_at (c ∷ cs) i) ≡ false
      → i < length (c ∷ cs)
      → bytes_lt key c.key ≡ false
  reached c cs zero h lo lt = lo
  reached c cs (suc i) h lo lt = ground (
    arith,
    key_at_grows (c ∷ cs) 0 (suc i) (IsParts-IsSorted P f (c ∷ cs) h) (omega arith) lt,
    bytes_lt_trans key c.key (key_at cs i),
  )

  -- The entry of the key, if there is one, is under the child to which the search leads.
  part_at :
      (cs : List NodeDataChild) (i : ℕ)
      → IsParts P f cs
      → i < length cs
      → (0 < i → bytes_lt key (key_at cs i) ≡ false)
      → (suc i < length cs → bytes_lt key (key_at cs (suc i)) ≡ true)
      → (c : NodeDataChild) × (get_elem? cs i ≡ some c)
        × P c
        × (map_get key (flat f cs) ≡ map_get key (f c))
  unfolding map_get
  part_at [] i h lt lo hi = absurd (omega arith)
  part_at (c ∷ []) zero (p, from, until, up, rest) lt lo hi =
      (c, refl, p, map_get-append_absent key (f c) [] refl)
  part_at (c ∷ c' ∷ cs) zero (p, from, until, up, rest) lt lo hi = (
    c,
    refl,
    p,
    map_get-append_absent key (f c) (flat f (c' ∷ cs))
        (absent_below (c' ∷ cs) (hi (omega arith)) rest),
  )
  part_at (c ∷ []) (suc i) h lt lo hi = absurd (omega arith)
  part_at (c ∷ c' ∷ cs) (suc i) (p, from, until, up, rest) lt lo hi =
      let (d, at, pd, e) =
        part_at (c' ∷ cs) i rest (omega arith) (λ h. lo (omega arith)) (λ h. hi (omega arith)) in
      (
        d,
        at,
        pd,
        rw
            (map_get-append key (f c) (flat f (c' ∷ cs)) (
              above_entries key c'.key (f c) (reached c' cs i rest (lo (omega arith)) (omega arith))
                until))
            e,
      )

  -- In an interior node that is not empty, the search leads to the child that holds the key, if any
  -- does.
  pub interior_index-flat :
      (cs : List NodeDataChild)
      → 0 < length cs
      → IsParts P f cs
      → (c : NodeDataChild) × (get_elem? cs (interior_index key cs) ≡ some c)
        × P c
        × (interior_index key cs < length cs)
        × (map_get key (flat f cs) ≡ map_get key (f c))
  interior_index-flat cs ne h =
      let (inside, lo, hi) = interior_index-separates key cs ne (IsParts-IsSorted P f cs h) in
      let (c, at, p, e) = part_at cs (interior_index key cs) h inside lo hi in (c, at, p, inside, e)
