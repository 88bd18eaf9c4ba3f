-- ===== src/IbTree/SubTree.antt =====
-- `SubTree` of ibtree/ibtransaction.go: the entries of a tree whose keys have a prefix.
use go_tfhfs.Common.{
  Option, none, some, List, [], ◌∷◌, ◌++◌, Bytes, bytes_eq, Outcome, ok, panic, ◌>>=◌, length, take,
  drop, if◌then◌else◌, ltb,
}
use go_tfhfs.IbTree.KeyTree.{KeyTree}
pub mod Laws
pub mod Tests

-- `addTreePrefix`.
unfoldable pub add_tree_prefix : Bytes → Bytes → Bytes
add_tree_prefix tree_prefix key = tree_prefix ++ key

-- `stripTreePrefix`. Go slices the key before it compares, and panics on a shorter one.
unfoldable pub strip_tree_prefix : Bytes → Option Bytes → Outcome (Option Bytes)
strip_tree_prefix tree_prefix none = ok none
strip_tree_prefix tree_prefix (some key) =
    if ltb (length key) (length tree_prefix)
    then panic
    else ok (
        if bytes_eq (take (length tree_prefix) key) tree_prefix
        then some (drop (length tree_prefix) key)
        else none)

-- The key of a neighbour, without the prefix.
abbrev pub stripped : {T : Type 0} → Bytes → Outcome (Option Bytes × T) → Outcome (Option Bytes × T)
stripped tree_prefix o = do (nk, t) ← o; k ← strip_tree_prefix tree_prefix nk; ok (k, t)

-- The methods of `SubTree`, as a tree over the same transaction.
unfoldable pub sub_tree : {T : Type 0} → KeyTree T → Bytes → KeyTree T
unfolding add_tree_prefix strip_tree_prefix
sub_tree o tree_prefix = record {
  get = λ t k. o.get t (add_tree_prefix tree_prefix k);
  set = λ t k v. o.set t (add_tree_prefix tree_prefix k) v;
  delete = λ t k. o.delete t (add_tree_prefix tree_prefix k);
  next_key = λ t k. stripped tree_prefix (o.next_key t (add_tree_prefix tree_prefix k));
  prev_key = λ t k. stripped tree_prefix (o.prev_key t (add_tree_prefix tree_prefix k));
}
