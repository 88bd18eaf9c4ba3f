-- ===== src/IbTree/KeyTree/Transactions.antt =====
-- `Transaction` of ibtree/ibtransaction.go: the calls of ibtree/ibtree.go on the root of its stack.
-- `Set` and `Delete` end with the commit of the stack, which is not modelled, and are parameters.
use go_tfhfs.Common.{ℕ, ◌<◌, ◌≡◌, ◌∙◌, refl, none, some, [], Bytes, Outcome, panic, map_get, true}
use go_tfhfs.IbTree.Node.{Node, Tree}
use go_tfhfs.IbTree.Stack.{Stack, M, maximum_tree_depth}
use go_tfhfs.IbTree.Walk.{get_value, next_key, prev_key}
use go_tfhfs.IbTree.Walk.Contents.{contents, IsTree}
use go_tfhfs.IbTree.Walk.Paths.{IsFilled}
use go_tfhfs.IbTree.Walk.Lookup.{IsReady, get_value_on_root}
use go_tfhfs.IbTree.Walk.NextKeys.{next_key_on_root}
use go_tfhfs.IbTree.Walk.PrevKeys.{prev_key_on_root}
use go_tfhfs.IbTree.KeyTree.{KeyTree, IsReadable}

-- A call on the root of the transaction; Go panics where it is nil.
abbrev pub on_root : {A : Type 0} → (Node → M A) → M A
on_root f s = elim (s.nodes 0) [ none ↦ panic | some root ↦ f root s ]

unfoldable pub transaction :
    Tree → (Stack → Bytes → Bytes → Outcome Stack) → (Stack → Bytes → Outcome Stack) → KeyTree Stack
transaction t set delete = record {
  get = λ s k. on_root (λ root. get_value t root true k) s;
  set = set;
  delete = delete;
  next_key = λ s k. on_root (λ root. next_key t root true k) s;
  prev_key = λ s k. on_root (λ root. prev_key t root true k) s;
}

on_root_lem :
    {A : Type 0} (f : Node → M A) (root : Node) (s : Stack)
    → s.nodes 0 ≡ some root
    → on_root f s ≡ f root s
on_root_lem f root s e = rw (e, on_root) refl

module _ (t : Tree) (set : Stack → Bytes → Bytes → Outcome Stack)
    (delete : Stack → Bytes → Outcome Stack) (root : Node) (d : ℕ) (tree : IsTree t d root)
    (filled : IsFilled t d root) (few : d < maximum_tree_depth)
    (named : map_get [] (contents t d root) ≡ none) where
  -- A transaction on a root that has been set, whose tree has at most ten levels, keys in order, no
  -- empty node below the top and no empty key, reads as a map does.
  pub transaction-IsReadable : IsReadable (transaction t set delete)
  unfolding transaction
  transaction-IsReadable = record {
    valid = λ s. (s.nodes 0 ≡ some root) × IsReady t root s;
    view = λ s k. map_get k (contents t d root);
    no_empty = λ s v. named;
    get_law = λ s k v.
        let (s', ran, ready, at) = get_value_on_root t root d k s tree few v.1 in
        (s', (on_root_lem (λ x. get_value t x true k) root s v.0 ∙ ran), (at, ready), λ j. refl);
    next_law = λ s k v.
        let (r, s', ran, ready, at, next) = next_key_on_root t root d k s tree filled few v.1 in
        (
          r,
          s',
          (on_root_lem (λ x. next_key t x true k) root s v.0 ∙ ran),
          (at, ready),
          (λ j. refl),
          next,
        );
    prev_law = λ s k v.
        let (r, s', ran, ready, at, prev) = prev_key_on_root t root d k s tree filled few v.1 in
        (
          r,
          s',
          (on_root_lem (λ x. prev_key t x true k) root s v.0 ∙ ran),
          (at, ready),
          (λ j. refl),
          prev,
        );
  }

  pub transaction-valid :
      (s : Stack) → s.nodes 0 ≡ some root → IsReady t root s → transaction-IsReadable.valid s
  unfolding transaction-IsReadable
  transaction-valid s at ready = (at, ready)

  pub transaction-view :
      (s : Stack) (k : Bytes) → transaction-IsReadable.view s k ≡ map_get k (contents t d root)
  unfolding transaction-IsReadable
  transaction-view s k = refl
