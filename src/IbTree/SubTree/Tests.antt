-- ===== src/IbTree/SubTree/Tests.antt =====
-- Tests of the subtrees of ibtree/ibtransaction.go.
use go_tfhfs.Common.{◌≡◌, refl, Option, none, some, [], ◌∷◌, Bytes, ok, panic, bytes_eq}
use go_tfhfs.IbTree.KeyTree.{IsNext, IsPrev}
use go_tfhfs.IbTree.KeyTree.Tests.{Entries, list_tree}
use go_tfhfs.IbTree.Stack.{Stack}
use go_tfhfs.Device.Allocator.Tests.{device_tree, reading, started, started-valid}
use go_tfhfs.IbTree.SubTree.{sub_tree, strip_tree_prefix}
use go_tfhfs.IbTree.SubTree.Laws.{next_key-sub_tree, prev_key-sub_tree, under}

-- A key before, two in, and one after the subtree of the prefix 5.
abbrev entries : Entries
entries = ((4 ∷ []), []) ∷ ((5 ∷ 2 ∷ []), []) ∷ ((5 ∷ 7 ∷ []), []) ∷ ((6 ∷ []), []) ∷ []

-- The subtree of the free places by size, in the tree of a device.
next_key-sub_tree_example :
    (r : Option Bytes) × (t' : Stack) × ((sub_tree device_tree (115 ∷ [])).next_key
        (started [])
        (2 ∷ [])
      ≡ ok (r, t'))
    × (reading []).valid t'
    × ((j : Bytes) → (reading []).view t' j ≡ (reading []).view (started []) j)
    × IsNext (under 115 ((reading []).view (started []))) (2 ∷ []) r
next_key-sub_tree_example =
    next_key-sub_tree device_tree (reading []) 115 (started []) (2 ∷ []) (started-valid [])

prev_key-sub_tree_example :
    (r : Option Bytes) × (t' : Stack) × ((sub_tree device_tree (115 ∷ [])).prev_key
        (started [])
        (2 ∷ [])
      ≡ ok (r, t'))
    × (reading []).valid t'
    × ((j : Bytes) → (reading []).view t' j ≡ (reading []).view (started []) j)
    × IsPrev (under 115 ((reading []).view (started []))) (2 ∷ []) r
prev_key-sub_tree_example =
    prev_key-sub_tree device_tree (reading []) 115 (started []) (2 ∷ []) (started-valid [])

next_in_subtree :
    (sub_tree list_tree (5 ∷ [])).next_key entries (2 ∷ []) ≡ ok (some (7 ∷ []), entries)
unfolding sub_tree list_tree bytes_eq
next_in_subtree = refl

none_in_subtree : (sub_tree list_tree (5 ∷ [])).prev_key entries (2 ∷ []) ≡ ok (none, entries)
unfolding sub_tree list_tree bytes_eq
none_in_subtree = refl

short_neighbour : strip_tree_prefix (5 ∷ 1 ∷ []) (some (4 ∷ [])) ≡ panic
unfolding strip_tree_prefix
short_neighbour = refl
