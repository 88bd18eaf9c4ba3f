-- ===== src/IbTree/Edit/Rewrites.antt =====
-- Edits of a leaf of the tree at the place where the search of ibtree/ibstack.go ends: the checks of
-- ibtree/nodedata.go pass, and the entries change as those of a map.
use go_tfhfs.Common.{
  ℕ, zero, suc, ◌<◌, ◌≡◌, ◌≢◌, ◌↔◌, refl, Bool, true, false, Option, none, some, List, [], ◌∷◌,
  ◌++◌, Bytes, bytes_lt, bytes_eq, bytes_eq_iff, bytes_lt_total, map_get, ok, length, All, arith,
  get_elem?, if◌then◌else◌, take, drop, ap, sym, ◌∙◌, pos,
}
use go_tfhfs.IbTree.Node.{NodeDataChild, NodeData, check_after, check_node_structure}
use go_tfhfs.IbTree.Stack.{key_at, leaf_index}
use go_tfhfs.IbTree.Walk.Contents.{entries, Before, IsSorted}
use go_tfhfs.IbTree.Walk.{found}
use go_tfhfs.IbTree.Walk.Places.{leaf_index-IsFirst, leaf_index-entries}
use go_tfhfs.IbTree.Edit.{rewritten}

abbrev pub IsNamed : NodeDataChild → Type 0
IsNamed c = c.key ≢ []

abbrev After : Option Bytes → List NodeDataChild → Type 0
After none cs = Unit
After (some k) cs = Before k cs

check_after-IsSorted :
    (k : Option Bytes) (cs : List NodeDataChild)
    → After k cs
    → IsSorted cs
    → All IsNamed cs
    → check_after k cs ≡ ok tt
unfolding check_after
check_after-IsSorted k [] a s n = refl
check_after-IsSorted none (c ∷ cs) a s n =
    ground (arith, check_after-IsSorted (some c.key) cs s.0 s.1 n.1, n.0)
check_after-IsSorted (some k) (c ∷ cs) a s n =
    ground (arith, check_after-IsSorted (some c.key) cs s.0 s.1 n.1, n.0)

check_after-only :
    (k : Option Bytes) (cs : List NodeDataChild)
    → check_after k cs ≡ ok tt
    → After k cs × IsSorted cs × All IsNamed cs
unfolding check_after
check_after-only none [] e = (tt, tt, tt)
check_after-only (some k) [] e = (tt, tt, tt)
check_after-only none (c ∷ cs) e = ground (arith, check_after-only (some c.key) cs)
check_after-only (some k) (c ∷ cs) e = ground (arith, check_after-only (some c.key) cs)

insert_at-Before :
    (k : Bytes) (c : NodeDataChild) (cs : List NodeDataChild) (r : ℕ)
    → bytes_lt k c.key ≡ true
    → Before k cs
    → Before k (take r cs ++ (c ∷ drop r cs))
insert_at-Before k c [] zero h b = h
insert_at-Before k c [] (suc r) h b = h
insert_at-Before k c (c' ∷ cs) zero h b = h
insert_at-Before k c (c' ∷ cs) (suc r) h b = b

insert_at-IsSorted :
    (c : NodeDataChild) (cs : List NodeDataChild) (r : ℕ)
    → IsSorted cs
    → ((k : ℕ) → k < r → k < length cs → bytes_lt (key_at cs k) c.key ≡ true)
    → (r < length cs → bytes_lt c.key (key_at cs r) ≡ true)
    → IsSorted (take r cs ++ (c ∷ drop r cs))
insert_at-IsSorted c [] zero s lo hi = (tt, tt)
insert_at-IsSorted c [] (suc r) s lo hi = (tt, tt)
insert_at-IsSorted c (c' ∷ cs) zero s lo hi = (hi (omega arith), s)
insert_at-IsSorted c (c' ∷ cs) (suc r) s lo hi = (
  insert_at-Before c'.key c cs r (lo 0 (omega arith) (omega arith)) s.0,
  insert_at-IsSorted c cs r s.1 (λ k a b. lo (suc k) (omega arith) (omega arith))
      (λ h. hi (omega arith)),
)

insert_at-IsNamed :
    (c : NodeDataChild) (cs : List NodeDataChild) (r : ℕ)
    → IsNamed c
    → All IsNamed cs
    → All IsNamed (take r cs ++ (c ∷ drop r cs))
insert_at-IsNamed c [] zero h n = (h, tt)
insert_at-IsNamed c [] (suc r) h n = (h, tt)
insert_at-IsNamed c (c' ∷ cs) zero h n = (h, n)
insert_at-IsNamed c (c' ∷ cs) (suc r) h n = (n.0, insert_at-IsNamed c cs r h n.1)

-- A new entry is found, wherever it stands, and hides no other.
map_get-insert_at :
    (j : Bytes) (c : NodeDataChild) (cs : List NodeDataChild) (r : ℕ)
    → map_get c.key (entries cs) ≡ none
    → map_get j (entries (take r cs ++ (c ∷ drop r cs)))
      ≡ (if bytes_eq c.key j then some c.value else map_get j (entries cs))
unfolding map_get
map_get-insert_at j c [] zero new = refl
map_get-insert_at j c [] (suc r) new = refl
map_get-insert_at j c (c' ∷ cs) zero new = refl
map_get-insert_at j c (c' ∷ cs) (suc r) new = ground (
  arith,
  bytes_eq_iff c.key j,
  bytes_eq_iff c'.key j,
  bytes_eq_iff c'.key c.key,
  map_get-insert_at j c cs r,
)

-- `CheckNodeStructure` passes exactly where the keys grow and none is empty.
pub check_node_structure_iff :
    (nd : NodeData)
    → (check_node_structure nd ≡ ok tt) ↔ (IsSorted nd.children × All IsNamed nd.children)
unfolding check_node_structure
check_node_structure_iff nd = (
  λ e. let (after, sorted, names) = check_after-only none nd.children e in (sorted, names),
  λ h. check_after-IsSorted none nd.children tt h.0 h.1,
)

pub get_elem?-key_at :
    (cs : List NodeDataChild) (r : ℕ)
    → r < length cs
    → (c : NodeDataChild) × (get_elem? cs r ≡ some c) × (c.key ≡ key_at cs r)
get_elem?-key_at [] r h = absurd (omega arith)
get_elem?-key_at (c ∷ cs) zero h = (c, refl, refl)
get_elem?-key_at (c ∷ cs) (suc r) h = get_elem?-key_at cs r (omega arith)

-- The search for a key that is not there stops at a larger key.
next_key_larger :
    (key : Bytes) (cs : List NodeDataChild)
    → IsSorted cs
    → map_get key (entries cs) ≡ none
    → leaf_index key cs < length cs
    → bytes_lt key (key_at cs (leaf_index key cs)) ≡ true
next_key_larger key cs sorted new h =
    let r = leaf_index key cs in
    let (c, at, named) = get_elem?-key_at cs r h in
    let missing : found key (some c) ≡ none =
      ap (found key) (sym at) ∙ (sym (leaf_index-entries key cs sorted) ∙ new) in
    ground (
      arith,
      bytes_eq_iff c.key key,
      (leaf_index-IsFirst key cs sorted).there r,
      bytes_lt_total (key_at cs r) key,
    )

-- Where a key is not in a leaf whose keys grow, its insertion at the index that the search finds
-- keeps the check of the node, adds the entry, and leaves every other entry alone.
pub insertion_lem :
    (c : NodeDataChild) (l : Bool) (cs : List NodeDataChild)
    → check_node_structure (record { leafy = l; children = cs }) ≡ ok tt
    → c.key ≢ []
    → map_get c.key (entries cs) ≡ none
    → (cs' : List NodeDataChild) × (rewritten false (pos (leaf_index c.key cs)) (some c) cs
        ≡ ok cs')
      × (check_node_structure (record { leafy = l; children = cs' }) ≡ ok tt)
      × ((j : Bytes)
          → map_get j (entries cs')
            ≡ (if bytes_eq c.key j then some c.value else map_get j (entries cs)))
unfolding rewritten
insertion_lem c l cs checked named new =
    let (sorted, names) =
      (check_node_structure_iff (record { leafy = l; children = cs })).0 checked in
    let r = leaf_index c.key cs in
    let first = leaf_index-IsFirst c.key cs sorted in
    let cs' = take r cs ++ (c ∷ drop r cs) in
    (
      cs',
      ground (arith, first.inside),
      (check_node_structure_iff (record { leafy = l; children = cs' })).1 (
        insert_at-IsSorted c cs r sorted (λ k a b. ground (arith, first.before k a))
            (next_key_larger c.key cs sorted new),
        insert_at-IsNamed c cs r named names,
      ),
      λ j. map_get-insert_at j c cs r new,
    )
