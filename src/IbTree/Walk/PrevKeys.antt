-- ===== src/IbTree/Walk/PrevKeys.antt =====
-- `PrevKey` of ibtree/ibtree.go finds the previous key that the tree holds.
use go_tfhfs.Common.{
  ℕ, zero, suc, ◌<◌, ◌≡◌, refl, true, Option, some, List, [], ◌∷◌, ◌++◌, Bytes, not, ok, arith,
  get_elem?, pos, ◌∙◌, ap, drop, map_get, Bool,
}
use mathlib.Core.Path.{subst}
use go_tfhfs.IbTree.KeyTree.{IsPrev}
use go_tfhfs.IbTree.Node.{Node, NodeDataChild, Tree, children}
use go_tfhfs.IbTree.Stack.{Stack, ◌>>=◌, index, child_at, maximum_tree_depth}
use go_tfhfs.IbTree.Walk.{
  go_previous_leaf, key_of, needs_previous, search_from, search_lesser, prev_key,
}
use go_tfhfs.IbTree.Walk.Contents.{Entries, entries, contents, IsTree}
use go_tfhfs.IbTree.Walk.Cuts.{From-Above}
use go_tfhfs.IbTree.Walk.Landing.{Lands}
use go_tfhfs.IbTree.Walk.Lookup.{IsReady, IsReady-at_root}
use go_tfhfs.IbTree.Walk.Near.{last_key-IsPrev}
use go_tfhfs.IbTree.Walk.NextKeys.{search_from-IsEnd}
use go_tfhfs.IbTree.Walk.Ordered.{
  From, IsOrdered, last_key, All-append, All-split, contents-IsOrdered,
}
use go_tfhfs.IbTree.Walk.Paths.{IsFilled, after, before}
use go_tfhfs.IbTree.Walk.Previous.{go_previous_leaf-Lands}
use go_tfhfs.IbTree.Walk.Searches.{IsEnd}

IsOrdered-left : (xs ys : Entries) → IsOrdered (xs ++ ys) → IsOrdered xs
IsOrdered-left [] ys h = tt
IsOrdered-left (x ∷ xs) ys h = ((All-split _ xs ys h.0).0, IsOrdered-left xs ys h.1)

-- At the place of a key, the step to the entry before is always needed.
always_needed :
    (key : Bytes) (cs : List NodeDataChild) (p : ℕ)
    → From key (entries (drop p cs))
    → needs_previous key (get_elem? cs p) ≡ true
always_needed key [] zero f = refl
always_needed key [] (suc p) f = refl
always_needed key (c ∷ cs) zero f = ap not f.0
always_needed key (c ∷ cs) (suc p) f = always_needed key cs p f

module _ (t : Tree) (root : Node) (key : Bytes) where
  lesser_on :
      (n : Node) (s s₁ s₂ : Stack) (b : Bool)
      → search_from t root true key s ≡ ok (tt, s₁)
      → s₁.nodes s₁.top ≡ some n
      → needs_previous key (child_at (children n) (index s₁)) ≡ true
      → go_previous_leaf t maximum_tree_depth s₁ ≡ ok (b, s₂)
      → search_lesser t root true key s ≡ ok (tt, s₂)
  unfolding search_lesser
  lesser_on n s s₁ s₂ b ran at e previous = rw (ran, ◌>>=◌, at, e, previous) refl

  prev_key_after :
      (n : Node) (s s₂ : Stack)
      → search_lesser t root true key s ≡ ok (tt, s₂)
      → s₂.nodes s₂.top ≡ some n
      → prev_key t root true key s
        ≡ ok (key_of (child_at (children n) (index s₂)), record s₂ { top = 0 })
  unfolding prev_key
  prev_key_after n s s₂ ran at = rw (ran, ◌>>=◌, at) refl

  prev_key_returns :
      (r : Option Bytes) (s s₂ : Stack)
      → search_lesser t root true key s ≡ ok (tt, s₂)
      → Lands t root r s₂
      → (prev_key t root true key s ≡ ok (r, record s₂ { top = 0 }))
        × IsReady t root (record s₂ { top = 0 })
  prev_key_returns r s s₂ ran l = (
    prev_key_after l.leaf s s₂ ran (ap s₂.nodes l.on_top ∙ l.at)
        ∙ ap (λ (x : Option Bytes). ok (x, record s₂ { top = 0 }))
            (ap (λ (k : ℕ). key_of (child_at (children l.leaf) (s₂.indexes k))) l.on_top ∙ l.key),
    IsReady-at_root t root s₂ l.coherent l.rooted,
  )

  module _ (d : ℕ) where
    lesser-Lands :
        (s s₁ : Stack)
        → search_from t root true key s ≡ ok (tt, s₁)
        → (e : IsEnd t d root key s₁)
        → (s₂ : Stack) × (search_lesser t root true key s ≡ ok (tt, s₂))
          × Lands t root (last_key (before t 0 s₁ (suc e.level))) s₂
    lesser-Lands s s₁ ran e =
        let at : s₁.nodes s₁.top ≡ some e.leaf = ap s₁.nodes e.on_top ∙ e.at in
        let here : index s₁ ≡ pos e.place = ap s₁.indexes e.on_top ∙ e.here in
        let (b, s₂, previous, lands) =
          go_previous_leaf-Lands t root 0 maximum_tree_depth e.level s₁ e.on_top e.levels e.coherent
            e.rooted (omega (arith, e.shallow)) e.shallow in
        (
          s₂,
          lesser_on e.leaf s s₁ s₂ b ran at
              (ap (λ j. needs_previous key (child_at (children e.leaf) j)) here
                ∙ always_needed key (children e.leaf) e.place e.from)
              previous,
          lands,
        )

    lesser_IsPrev :
        (s₁ : Stack)
        → IsTree t d root
        → (e : IsEnd t d root key s₁)
        → IsPrev (λ j. map_get j (contents t d root)) key (last_key (before t 0 s₁ (suc e.level)))
    lesser_IsPrev s₁ tree e = rw e.whole (
        last_key-IsPrev key (before t 0 s₁ (suc e.level)) _ e.below
          (All-append _ _ (after t 1 s₁ e.level) e.from (From-Above key _ e.above))
          (IsOrdered-left _ _ (subst IsOrdered e.whole (contents-IsOrdered t d root tree))))

-- As `prev_key-IsPrev`, and the stack has its root.
pub prev_key_on_root :
    (t : Tree) (root : Node) (d : ℕ) (key : Bytes) (s : Stack)
    → IsTree t d root
    → IsFilled t d root
    → d < maximum_tree_depth
    → IsReady t root s
    → (r : Option Bytes) × (s' : Stack) × (prev_key t root true key s ≡ ok (r, s'))
      × IsReady t root s'
      × (s'.nodes 0 ≡ some root)
      × IsPrev (λ j. map_get j (contents t d root)) key r
prev_key_on_root t root d key s tree filled few ready =
    let (s₁, ran, e) = search_from-IsEnd t root d key s tree filled few ready in
    let (s₂, lesser, lands) = lesser-Lands t root key d s s₁ ran e in
    let (result, ready') = prev_key_returns t root key _ s s₂ lesser lands in
    (_, record s₂ { top = 0 }, result, ready', lands.rooted, lesser_IsPrev t root key d s₁ tree e)

-- On a tree of at most ten levels whose keys are in order, in which no node below the top is empty,
-- and with a stack that is ready for it, `PrevKey` returns the greatest key below the given one that
-- the leaves hold, or none if there is none, and leaves the stack ready.
pub prev_key-IsPrev :
    (t : Tree) (root : Node) (d : ℕ) (key : Bytes) (s : Stack)
    → IsTree t d root
    → IsFilled t d root
    → d < maximum_tree_depth
    → IsReady t root s
    → (r : Option Bytes) × (s' : Stack) × (prev_key t root true key s ≡ ok (r, s'))
      × IsReady t root s'
      × IsPrev (λ j. map_get j (contents t d root)) key r
prev_key-IsPrev t root d key s tree filled few ready =
    let (r, s', ran, ready', at, found) = prev_key_on_root t root d key s tree filled few ready in
    (r, s', ran, ready', found)
