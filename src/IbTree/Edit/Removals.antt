-- ===== src/IbTree/Edit/Removals.antt =====
-- Deletions from a leaf of the tree at the place where the search of ibtree/ibstack.go ends.
use go_tfhfs.Common.{
  ℕ, zero, suc, ◌<◌, ◌≡◌, Bool, true, none, some, List, [], ◌∷◌, ◌++◌, Bytes, bytes_eq,
  bytes_eq_iff, bytes_lt_irrefl, map_get, ok, length, All, arith, get_elem?, if◌then◌else◌, take,
  drop, sym, ◌∙◌, pos,
}
use go_tfhfs.IbTree.Node.{NodeDataChild, check_node_structure}
use go_tfhfs.IbTree.Stack.{key_at, leaf_index}
use go_tfhfs.IbTree.Walk.Contents.{entries, Before, IsSorted, Before-trans, Before-key_at}
use go_tfhfs.IbTree.Walk.{found}
use go_tfhfs.IbTree.Walk.Places.{leaf_index-entries, absent}
use go_tfhfs.IbTree.Edit.{rewritten}
use go_tfhfs.IbTree.Edit.Rewrites.{IsNamed, check_node_structure_iff}

remove_at-Before :
    (k : Bytes) (cs : List NodeDataChild) (r : ℕ)
    → Before k cs
    → IsSorted cs
    → Before k (take r cs ++ drop (suc r) cs)
remove_at-Before k [] zero b s = tt
remove_at-Before k [] (suc r) b s = tt
remove_at-Before k (c ∷ cs) zero b s = Before-trans k c.key cs b s.0
remove_at-Before k (c ∷ cs) (suc r) b s = b

remove_at-IsSorted :
    (cs : List NodeDataChild) (r : ℕ) → IsSorted cs → IsSorted (take r cs ++ drop (suc r) cs)
remove_at-IsSorted [] zero s = tt
remove_at-IsSorted [] (suc r) s = tt
remove_at-IsSorted (c ∷ cs) zero s = s.1
remove_at-IsSorted (c ∷ cs) (suc r) s =
    (remove_at-Before c.key cs r s.0 s.1, remove_at-IsSorted cs r s.1)

remove_at-IsNamed :
    (cs : List NodeDataChild) (r : ℕ) → All IsNamed cs → All IsNamed (take r cs ++ drop (suc r) cs)
remove_at-IsNamed [] zero n = tt
remove_at-IsNamed [] (suc r) n = tt
remove_at-IsNamed (c ∷ cs) zero n = n.1
remove_at-IsNamed (c ∷ cs) (suc r) n = (n.0, remove_at-IsNamed cs r n.1)

map_get-remove_at :
    (j : Bytes) (c : NodeDataChild) (cs : List NodeDataChild) (r : ℕ)
    → IsSorted cs
    → r < length cs
    → c.key ≡ key_at cs r
    → map_get j (entries (take r cs ++ drop (suc r) cs))
      ≡ (if bytes_eq c.key j then none else map_get j (entries cs))
unfolding map_get
map_get-remove_at j c [] r s h e = absurd (omega arith)
map_get-remove_at j c (c' ∷ cs) zero s h e =
    ground (arith, e, bytes_eq_iff c.key j, bytes_eq_iff c'.key j, absent c'.key cs s.0 s.1)
map_get-remove_at j c (c' ∷ cs) (suc r) s h e = ground (
  arith,
  bytes_eq_iff c.key j,
  bytes_eq_iff c'.key j,
  bytes_lt_irrefl c.key,
  Before-key_at c'.key cs r s.0 s.1 (omega arith),
  map_get-remove_at j c cs r s.1 (omega arith) e,
)

found_at :
    (key v : Bytes) (cs : List NodeDataChild) (r : ℕ)
    → found key (get_elem? cs r) ≡ some v
    → (r < length cs) × (key_at cs r ≡ key)
found_at key v [] r h = cc
found_at key v (c ∷ cs) zero h = (omega arith, ground (arith, bytes_eq_iff c.key key))
found_at key v (c ∷ cs) (suc r) h = let (inside, at) = found_at key v cs r h in (omega arith, at)

-- The search for a key that is there stops at its entry.
entry_found :
    (key v : Bytes) (cs : List NodeDataChild)
    → IsSorted cs
    → map_get key (entries cs) ≡ some v
    → (leaf_index key cs < length cs) × (key_at cs (leaf_index key cs) ≡ key)
entry_found key v cs sorted there =
    found_at key v cs (leaf_index key cs) (sym (leaf_index-entries key cs sorted) ∙ there)

-- Where a key is in a leaf whose keys grow, deleting at the index that the search finds keeps the
-- check of the node, removes the key's entry, and leaves every other entry alone.
pub deletion_lem :
    (key v : Bytes) (l : Bool) (cs : List NodeDataChild)
    → check_node_structure (record { leafy = l; children = cs }) ≡ ok tt
    → map_get key (entries cs) ≡ some v
    → (cs' : List NodeDataChild) × (rewritten true (pos (leaf_index key cs)) none cs ≡ ok cs')
      × (check_node_structure (record { leafy = l; children = cs' }) ≡ ok tt)
      × ((j : Bytes)
          → map_get j (entries cs') ≡ (if bytes_eq key j then none else map_get j (entries cs)))
unfolding rewritten
deletion_lem key v l cs checked there =
    let (sorted, names) =
      (check_node_structure_iff (record { leafy = l; children = cs })).0 checked in
    let r = leaf_index key cs in
    let cs' = take r cs ++ drop (suc r) cs in
    let (inside, at) = entry_found key v cs sorted there in
    (
      cs',
      ground arith,
      (check_node_structure_iff (record { leafy = l; children = cs' })).1
          (remove_at-IsSorted cs r sorted, remove_at-IsNamed cs r names),
      λ j.
          map_get-remove_at j (record { key = key; value = v; child_node = none }) cs r sorted
            inside (sym at),
    )
