-- ===== src/IbTree/Delta/Tests.antt =====
-- Runs of `IterateDelta`, and an instance of its theorem.
use go_tfhfs.Common.{
  ◌≡◌, refl, Bool, true, false, none, some, List, [], ◌∷◌, ok, arith, bytes_eq, bytes_lt, ◌+◌, ◌<◌,
}
use go_tfhfs.IbTree.Delta.{Change, iterate_delta, same_child}
use go_tfhfs.IbTree.Delta.Differences.{IsDelta}
use go_tfhfs.IbTree.Delta.Iteration.{iterate_delta-IsDelta}
use go_tfhfs.IbTree.Delta.Places.{node_weight}
use go_tfhfs.IbTree.Node.{Node, make_node, load_child}
use go_tfhfs.IbTree.Tests.{tree, root, second_leaf, root-IsTree, root-IsFilled, loaded_full}
use go_tfhfs.IbTree.Walk.Contents.{contents, IsTree}
use go_tfhfs.IbTree.Walk.Paths.{IsFilled}

-- The first leaf of `root` without the key 3, and with another value for the key 1.
abbrev changed_leaf : Node
changed_leaf =
    make_node true (record { key = 1 ∷ []; value = 11 ∷ []; child_node = none } ∷ []) none

abbrev changed : Node
changed =
    make_node false
      (record { key = 1 ∷ []; value = []; child_node = some changed_leaf }
        ∷ record { key = 5 ∷ []; value = 9 ∷ []; child_node = none }
        ∷ [])
      none

-- No two pointers are known to be the same.
abbrev never : Node → Node → Bool
never a b = false

never_sound : (a b : Node) → never a b ≡ true → a ≡ b
never_sound a b e = cc

changed-IsTree : IsTree tree 1 changed
unfolding load_child bytes_lt
changed-IsTree = (
  refl,
  omega arith,
  (
    (changed_leaf, refl, (refl, (tt, tt))),
    (refl, tt),
    (refl, tt),
    refl,
    (
      (make_node true second_leaf.children (some (9 ∷ [])), refl, (refl, (tt, tt))),
      (refl, tt),
      (tt, tt),
      tt,
      tt,
    ),
  ),
)

changed-IsFilled : IsFilled tree 1 changed
unfolding load_child
changed-IsFilled = (
  λ m e. loaded_full changed_leaf m e (omega arith) (refl, tt),
  (
    λ m e.
        loaded_full (make_node true second_leaf.children (some (9 ∷ []))) m e (omega arith)
          (refl, tt),
    tt,
  ),
)

few_steps : node_weight tree 1 root + node_weight tree 1 changed < 20
unfolding load_child
few_steps = omega arith

iterate_delta-IsDelta_example :
    (cs : List Change) × (iterate_delta tree never 20 changed root ≡ ok cs)
    × IsDelta (contents tree 1 root) (contents tree 1 changed) cs
iterate_delta-IsDelta_example =
    iterate_delta-IsDelta tree never 20 changed root 1 1 never_sound changed-IsTree changed-IsFilled
      (omega arith) root-IsTree root-IsFilled (omega arith) few_steps

-- An update and a deletion.
changes_found :
    iterate_delta tree never 20 changed root
    ≡ ok (
        record {
          old = some (record { key = 1 ∷ []; value = 10 ∷ []; child_node = none });
          new = some (record { key = 1 ∷ []; value = 11 ∷ []; child_node = none });
        }
        ∷ record {
          old = some (record { key = 3 ∷ []; value = 30 ∷ []; child_node = none });
          new = none;
        }
        ∷ [])
unfolding iterate_delta bytes_eq bytes_lt load_child same_child
changes_found = refl
