-- ===== src/IbTree/KeyTree/Tests.antt =====
-- A list of entries as a tree for the users of a transaction of ibtree/ibtransaction.go, for tests.
use go_tfhfs.Common.{
  Bool, Option, none, some, List, [], ◌∷◌, Bytes, bytes_lt, ok, panic, if◌then◌else◌, map_get,
  map_set, map_delete,
}
use go_tfhfs.IbTree.KeyTree.{KeyTree}

abbrev pub Entries : Type 0
Entries = List (Bytes × Bytes)

-- The key of the entries that stands first, by `lt`, among those that stand after `k`.
unfoldable pub first_after : (Bytes → Bytes → Bool) → Bytes → Entries → Option Bytes
first_after lt k [] = none
first_after lt k ((j, v) ∷ t) =
    let rest = first_after lt k t in
    if lt k j
    then elim rest [ none ↦ some j | some i ↦ if lt j i then some j else some i ]
    else rest

unfoldable pub list_tree : KeyTree Entries
unfolding map_get map_set map_delete first_after bytes_lt
list_tree = record {
  get = λ t k. ok (map_get k t, t);
  set = λ t k v. ok (map_set k v t);
  delete = λ t k. (elim (map_get k t) [ some v ↦ ok (map_delete k t) | none ↦ panic ]);
  next_key = λ t k. ok (first_after bytes_lt k t, t);
  prev_key = λ t k. ok (first_after (λ a b. bytes_lt b a) k t, t);
}
