-- ===== src/IbTree/Walk/NextKeys.antt =====
-- `NextKey` of ibtree/ibtree.go finds the next key that the tree holds.
use go_tfhfs.Common.{
  ℕ, zero, suc, ◌<◌, ◌≡◌, refl, true, false, Option, some, List, [], ◌∷◌, ◌++◌, Bytes, bytes_eq, ok,
  arith, get_elem?, pos, ◌∙◌, ap, drop, map_get, Bool, Bool-cases, inl, inr, bytes_eq_iff,
  bytes_lt_irrefl, ℤ,
}
use mathlib.Core.Path.{subst}
use go_tfhfs.IbTree.KeyTree.{IsNext}
use go_tfhfs.IbTree.Node.{Node, NodeDataChild, Tree, children}
use go_tfhfs.IbTree.Stack.{Stack, ◌>>=◌, index, child_at, maximum_tree_depth}
use go_tfhfs.IbTree.Stack.Cache.{IsCoherent}
use go_tfhfs.IbTree.Walk.{go_next_leaf, key_of, needs_next, search_from, search_greater, next_key}
use go_tfhfs.IbTree.Walk.Contents.{Entries, entries, contents, IsTree}
use go_tfhfs.IbTree.Walk.Cuts.{From-Above}
use go_tfhfs.IbTree.Walk.Landing.{Lands}
use go_tfhfs.IbTree.Walk.Lookup.{IsReady, IsReady-at_root, search_from_lem, search_starts}
use go_tfhfs.IbTree.Walk.Near.{past, past-IsNext}
use go_tfhfs.IbTree.Walk.Neighbours.{go_next_leaf-Lands}
use go_tfhfs.IbTree.Walk.Ordered.{Above, IsOrdered, first_key, All-append, contents-IsOrdered}
use go_tfhfs.IbTree.Walk.Rounds.{after_here}
use go_tfhfs.IbTree.Walk.Paths.{IsFilled, after, before}
use go_tfhfs.IbTree.Walk.Searches.{IsEnd, search_loop-IsEnd}
use go_tfhfs.IbTree.Walk.Ways.{IsWay-start}

-- A search from the root ends at the place of the key.
pub search_from-IsEnd :
    (t : Tree) (root : Node) (d : ℕ) (key : Bytes) (s : Stack)
    → IsTree t d root
    → IsFilled t d root
    → d < maximum_tree_depth
    → IsReady t root s
    → (s' : Stack) × (search_from t root true key s ≡ ok (tt, s')) × IsEnd t d root key s'
search_from-IsEnd t root d key s tree filled few ready =
    let (s₁, same, h₁, top₁, r₁) = search_from_lem t root key s ready in
    let s₀ : Stack = record s₁ { top = 0 } in
    let h₀ : IsCoherent t s₀ = record {
      inside = omega arith;
      empty_below = h₁.empty_below;
      linked = h₁.linked;
    } in
    let (s₂, ran, end) =
      search_loop-IsEnd t d root key d maximum_tree_depth root s₀ 0 refl
        (IsWay-start t d root key s₀) tree filled h₀ r₁ r₁ (omega arith) few in
    (s₂, same ∙ search_starts t root key s₁ r₁ ∙ ran, end)

module _ (t : Tree) (root : Node) (key : Bytes) where
  greater_here :
      (n : Node) (s s₁ : Stack)
      → search_from t root true key s ≡ ok (tt, s₁)
      → s₁.nodes s₁.top ≡ some n
      → needs_next key (child_at (children n) (index s₁)) ≡ false
      → search_greater t root true key s ≡ ok (tt, s₁)
  unfolding search_greater
  greater_here n s s₁ ran at e = rw (ran, ◌>>=◌, at, e) refl

  greater_on :
      (n : Node) (s s₁ s₂ : Stack) (b : Bool)
      → search_from t root true key s ≡ ok (tt, s₁)
      → s₁.nodes s₁.top ≡ some n
      → needs_next key (child_at (children n) (index s₁)) ≡ true
      → go_next_leaf t maximum_tree_depth s₁ ≡ ok (b, s₂)
      → search_greater t root true key s ≡ ok (tt, s₂)
  unfolding search_greater
  greater_on n s s₁ s₂ b ran at e next = rw (ran, ◌>>=◌, at, e, next) refl

  next_key_after :
      (n : Node) (s s₂ : Stack)
      → search_greater t root true key s ≡ ok (tt, s₂)
      → s₂.nodes s₂.top ≡ some n
      → next_key t root true key s
        ≡ ok (key_of (child_at (children n) (index s₂)), record s₂ { top = 0 })
  unfolding next_key
  next_key_after n s s₂ ran at = rw (ran, ◌>>=◌, at) refl

past-Above : (key : Bytes) (es : Entries) → Above key es → past key es ≡ es
past-Above key [] a = refl
past-Above key (e ∷ es) a =
    let other : bytes_eq e.0 key ≡ false =
      ground (arith, bytes_eq_iff e.0 key, bytes_lt_irrefl key, a.0) in
    rw other refl

-- Where the step to the next entry is needed, and where it is not.
step_on :
    (key : Bytes) (cs : List NodeDataChild) (p : ℕ) (es : Entries)
    → Above key es
    → needs_next key (get_elem? cs p) ≡ true
    → first_key (entries (drop (suc p) cs) ++ es) ≡ first_key (past key (entries (drop p cs) ++ es))
step_on key [] zero es a e = rw (past-Above key es a) refl
step_on key [] (suc p) es a e = rw (past-Above key es a) refl
step_on key (c ∷ cs) zero es a e = rw e refl
step_on key (c ∷ cs) (suc p) es a e = step_on key cs p es a e

stay :
    (key : Bytes) (cs : List NodeDataChild) (p : ℕ) (es : Entries)
    → needs_next key (get_elem? cs p) ≡ false
    → key_of (get_elem? cs p) ≡ first_key (past key (entries (drop p cs) ++ es))
stay key [] p es e = cc
stay key (c ∷ cs) zero es e = rw e refl
stay key (c ∷ cs) (suc p) es e = stay key cs p es e

module _ (t : Tree) (root : Node) (d : ℕ) (key : Bytes) where
  -- The stack stands at the next entry.
  greater-Lands :
      (s s₁ : Stack)
      → d < maximum_tree_depth
      → search_from t root true key s ≡ ok (tt, s₁)
      → (e : IsEnd t d root key s₁)
      → (s₂ : Stack) × (search_greater t root true key s ≡ ok (tt, s₂))
        × Lands t root
            (first_key
              (past key (entries (drop e.place (children e.leaf)) ++ after t 1 s₁ e.level)))
            s₂
  greater-Lands s s₁ few ran e =
      let cs = children e.leaf in
      let es = after t 1 s₁ e.level in
      let at : s₁.nodes s₁.top ≡ some e.leaf = ap s₁.nodes e.on_top ∙ e.at in
      let here : index s₁ ≡ pos e.place = ap s₁.indexes e.on_top ∙ e.here in
      elim (Bool-cases (needs_next key (get_elem? cs e.place))) [
        | inl on ↦
            let (b, s₂, next, lands) =
              go_next_leaf-Lands t root 0 maximum_tree_depth e.level s₁ e.on_top e.levels e.coherent
                e.rooted (omega (arith, e.shallow)) e.shallow in
            (
              s₂,
              greater_on t root key e.leaf s s₁ s₂ b ran at
                  (ap (λ j. needs_next key (child_at cs j)) here ∙ on) next,
              subst (λ y. Lands t root y s₂)
                  (ap first_key (after_here t 0 e.level e.leaf s₁ e.place e.at e.here)
                    ∙ step_on key cs e.place es e.above on)
                  lands,
            )
        | inr no_step ↦ (
          s₁,
          greater_here t root key e.leaf s s₁ ran at
              (ap (λ j. needs_next key (child_at cs j)) here ∙ no_step),
          record {
            coherent = e.coherent;
            rooted = e.rooted;
            level = e.level;
            on_top = e.on_top;
            leaf = e.leaf;
            at = e.at;
            key = ap (λ (j : ℤ). key_of (child_at cs j)) e.here ∙ stay key cs e.place es no_step;
          },
        )
      ]

  -- What the place says about the keys of the tree.
  greater_IsNext :
      (s₁ : Stack)
      → IsTree t d root
      → (e : IsEnd t d root key s₁)
      → IsNext
          (λ j. map_get j (contents t d root))
          key
          (first_key (past key (entries (drop e.place (children e.leaf)) ++ after t 1 s₁ e.level)))
  greater_IsNext s₁ tree e = rw e.whole (
      past-IsNext key (before t 0 s₁ (suc e.level)) _ e.below
        (All-append _ _ (after t 1 s₁ e.level) e.from (From-Above key _ e.above))
        (subst IsOrdered e.whole (contents-IsOrdered t d root tree)))

  next_key_returns :
      (r : Option Bytes) (s s₂ : Stack)
      → search_greater t root true key s ≡ ok (tt, s₂)
      → Lands t root r s₂
      → (next_key t root true key s ≡ ok (r, record s₂ { top = 0 }))
        × IsReady t root (record s₂ { top = 0 })
  next_key_returns r s s₂ ran l = (
    next_key_after t root key l.leaf s s₂ ran (ap s₂.nodes l.on_top ∙ l.at)
        ∙ ap (λ (x : Option Bytes). ok (x, record s₂ { top = 0 }))
            (ap (λ (k : ℕ). key_of (child_at (children l.leaf) (s₂.indexes k))) l.on_top ∙ l.key),
    IsReady-at_root t root s₂ l.coherent l.rooted,
  )

-- As `next_key-IsNext`, and the stack has its root.
pub next_key_on_root :
    (t : Tree) (root : Node) (d : ℕ) (key : Bytes) (s : Stack)
    → IsTree t d root
    → IsFilled t d root
    → d < maximum_tree_depth
    → IsReady t root s
    → (r : Option Bytes) × (s' : Stack) × (next_key t root true key s ≡ ok (r, s'))
      × IsReady t root s'
      × (s'.nodes 0 ≡ some root)
      × IsNext (λ j. map_get j (contents t d root)) key r
next_key_on_root t root d key s tree filled few ready =
    let (s₁, ran, e) = search_from-IsEnd t root d key s tree filled few ready in
    let (s₂, greater, lands) = greater-Lands t root d key s s₁ few ran e in
    let (result, ready') = next_key_returns t root d key _ s s₂ greater lands in
    (_, record s₂ { top = 0 }, result, ready', lands.rooted, greater_IsNext t root d key s₁ tree e)

-- On a tree of at most ten levels whose keys are in order, in which no node below the top is empty,
-- and with a stack that is ready for it, `NextKey` returns the least key above the given one that
-- the leaves hold, or none if there is none, and leaves the stack ready.
pub next_key-IsNext :
    (t : Tree) (root : Node) (d : ℕ) (key : Bytes) (s : Stack)
    → IsTree t d root
    → IsFilled t d root
    → d < maximum_tree_depth
    → IsReady t root s
    → (r : Option Bytes) × (s' : Stack) × (next_key t root true key s ≡ ok (r, s'))
      × IsReady t root s'
      × IsNext (λ j. map_get j (contents t d root)) key r
next_key-IsNext t root d key s tree filled few ready =
    let (r, s', ran, ready', at, found) = next_key_on_root t root d key s tree filled few ready in
    (r, s', ran, ready', found)
