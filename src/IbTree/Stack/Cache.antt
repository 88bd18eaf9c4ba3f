-- ===== src/IbTree/Stack/Cache.antt =====
-- The nodes that a stack of ibtree/ibstack.go remembers stay in step with the indexes that lead to
-- them, so that a remembered node is the node that would be loaded.
use go_tfhfs.Common.{
  ℕ, suc, ◌≤◌, ◌<◌, ◌≡◌, refl, true, none, some, ok, length, arith, ◌==◌, ℤ, pos, negsuc, int_eq,
  Bool-cases, inl, inr, Option-cases, ap, sym,
}
use go_tfhfs.IbTree.Node.{Node, Tree, children}
use go_tfhfs.IbTree.Node as Nodes
use go_tfhfs.IbTree.Stack.{
  Stack, set_index, invalidate_sub_nodes, push, child_node, maximum_tree_depth, with_entry, pushed,
  loaded,
}

abbrev pub IsChildAt : Tree → Node → ℤ → Node → Type 0
IsChildAt t n (pos k) m = Nodes.child_node t n k ≡ ok (some m)
IsChildAt t n (negsuc k) m = ⊥

pub record IsCoherent (t : Tree) (self : Stack) : Type 0 where
  pub inside : self.top ≤ self.maxtop
  pub empty_below : (i : ℕ) → self.maxtop < i → self.nodes i ≡ none
  pub linked :
      (i : ℕ) (m : Node)
      → self.nodes (suc i) ≡ some m
      → (n : Node) × (self.nodes i ≡ some n) × IsChildAt t n (self.indexes i) m

pub int_eq-eq : (a b : ℤ) → int_eq a b ≡ true → a ≡ b
unfolding int_eq
int_eq-eq (pos m) (pos n) h = ground arith
int_eq-eq (negsuc m) (negsuc n) h = ground arith
int_eq-eq (pos m) (negsuc n) h = cc
int_eq-eq (negsuc m) (pos n) h = cc

pub int_eq_self : (a : ℤ) → int_eq a a ≡ true
unfolding int_eq
int_eq_self (pos m) = ground arith
int_eq_self (negsuc m) = ground arith

module _ (t : Tree) where
  pub top-set_index : (idx : ℤ) (s : Stack) → (set_index idx s).top ≡ s.top
  unfolding set_index
  top-set_index idx s = ground arith

  pub indexes-set_index : (idx : ℤ) (s : Stack) → (set_index idx s).indexes s.top ≡ idx
  unfolding set_index
  indexes-set_index idx s = ground (arith, int_eq-eq idx (s.indexes s.top))

  pub nodes-set_index :
      (idx : ℤ) (s : Stack) (i : ℕ) → i ≤ s.top → (set_index idx s).nodes i ≡ s.nodes i
  unfolding set_index
  nodes-set_index idx s i h = ground arith

  pub indexes-set_index_at :
      (idx : ℤ) (s : Stack) (k : ℕ) → k ≡ s.top → (set_index idx s).indexes k ≡ idx
  indexes-set_index_at idx s k e = rw e (indexes-set_index idx s)

  pub indexes-set_index_other :
      (idx : ℤ) (s : Stack) (i : ℕ) → i < s.top → (set_index idx s).indexes i ≡ s.indexes i
  unfolding set_index
  indexes-set_index_other idx s i h = ground arith

  invalidated :
      (idx : ℤ) (s : Stack)
      → IsCoherent t s
      → IsCoherent t (invalidate_sub_nodes (record s { indexes = with_entry s.indexes s.top idx }))
  unfolding invalidate_sub_nodes
  invalidated idx s h = record {
    inside = omega arith;
    empty_below = λ i lt. ground (arith, h.empty_below i);
    linked = λ i m e.
        let kept : (s.nodes (suc i) ≡ some m) × (i < s.top) =
          ground (arith, h.empty_below (suc i)) in
        let (n, at, c) = h.linked i m kept.0 in
        let same : with_entry s.indexes s.top idx i ≡ s.indexes i = ground arith in
        (n, ground arith, rw same c);
  }

  pub invalidate_sub_nodes-IsCoherent :
      (s : Stack) → IsCoherent t s → IsCoherent t (invalidate_sub_nodes s)
  unfolding invalidate_sub_nodes
  invalidate_sub_nodes-IsCoherent s h = record {
    inside = omega arith;
    empty_below = λ i lt. ground (arith, h.empty_below i);
    linked = λ i m e.
        let kept : (s.nodes (suc i) ≡ some m) × (i < s.top) =
          ground (arith, h.empty_below (suc i)) in
        let (n, at, c) = h.linked i m kept.0 in (n, ground arith, c);
  }

  pub top-invalidate_sub_nodes : (s : Stack) → (invalidate_sub_nodes s).top ≡ s.top
  unfolding invalidate_sub_nodes
  top-invalidate_sub_nodes s = refl

  pub indexes-invalidate_sub_nodes :
      (s : Stack) (i : ℕ) → (invalidate_sub_nodes s).indexes i ≡ s.indexes i
  unfolding invalidate_sub_nodes
  indexes-invalidate_sub_nodes s i = refl

  pub nodes-invalidate_sub_nodes :
      (s : Stack) (i : ℕ) → i ≤ s.top → (invalidate_sub_nodes s).nodes i ≡ s.nodes i
  unfolding invalidate_sub_nodes
  nodes-invalidate_sub_nodes s i h = ground arith

  pub set_index-IsCoherent : (idx : ℤ) (s : Stack) → IsCoherent t s → IsCoherent t (set_index idx s)
  unfolding set_index
  set_index-IsCoherent idx s h = elim (Bool-cases (int_eq idx (s.indexes s.top))) [
    | inl e ↦ rw e h
    | inr e ↦ rw e (invalidated idx s h)
  ]

  -- An entry leads to one node.
  IsChildAt-unique : (n a b : Node) (idx : ℤ) → IsChildAt t n idx a → IsChildAt t n idx b → a ≡ b
  IsChildAt-unique n a b (pos k) h k' = ground arith
  IsChildAt-unique n a b (negsuc k) h k' = elim h [ ]

  -- A remembered node is the child that the index leads to.
  remembered :
      (n m n' : Node) (s : Stack)
      → IsCoherent t s
      → s.nodes s.top ≡ some n
      → IsChildAt t n (s.indexes s.top) m
      → s.nodes (suc s.top) ≡ some n'
      → m ≡ n'
  remembered n m n' s h at c at' =
      let (p, atp, cp) = h.linked s.top n' at' in
      let same : p ≡ n = ground arith in IsChildAt-unique n m n' (s.indexes s.top) c (rw same at cp)

  pushed-linked :
      (n m : Node) (s : Stack)
      → IsCoherent t s
      → s.nodes s.top ≡ some n
      → IsChildAt t n (s.indexes s.top) m
      → (i : ℕ) (a : Node) → with_entry s.nodes (suc s.top) (some m) (suc i) ≡ some a
      → (b : Node) × (with_entry s.nodes (suc s.top) (some m) i ≡ some b)
        × IsChildAt t b (s.indexes i) a
  pushed-linked n m s h at c i a e = elim (Bool-cases (i == s.top)) [
    | inl top ↦
        let here : i ≡ s.top = ground arith in
        let same : m ≡ a = ground arith in (n, ground arith, rw (here, ← same) c)
    | inr other ↦ elim (Bool-cases (i == suc s.top)) [
      | inl above ↦
          let here : i ≡ suc s.top = ground arith in
          let link : s.nodes (suc (suc s.top)) ≡ some a = ground arith in
          let (n', at', c') = h.linked (suc s.top) a link in
          let same : m ≡ n' = remembered n m n' s h at c at' in
          (m, ground arith, rw (here, same) c')
      | inr far ↦
          let link : s.nodes (suc i) ≡ some a = ground arith in
          let (n', at', c') = h.linked i a link in (n', ground arith, c')
    ]
  ]

  pushed-IsCoherent :
      (n m : Node) (s : Stack)
      → IsCoherent t s
      → s.nodes s.top ≡ some n
      → IsChildAt t n (s.indexes s.top) m
      → IsCoherent t (pushed (some m) s)
  pushed-IsCoherent n m s h at c = record {
    inside = ground arith;
    empty_below = λ i lt. ground (arith, h.empty_below i);
    linked = pushed-linked n m s h at c;
  }

  -- A child pushed onto its parent leaves the stack coherent, with the child on top.
  pub push_lem :
      (idx : ℤ) (n m : Node) (s : Stack)
      → IsCoherent t s
      → s.nodes s.top ≡ some n
      → IsChildAt t n idx m
      → suc s.top < maximum_tree_depth
      → (s' : Stack) × (push idx (some m) s ≡ ok (tt, s'))
        × IsCoherent t s'
        × (s'.top ≡ suc s.top)
        × (s'.nodes (suc s.top) ≡ some m)
        × ((i : ℕ) → i ≤ s.top → s'.nodes i ≡ s.nodes i)
        × (s'.indexes s.top ≡ idx)
        × (s'.indexes (suc s.top) ≡ pos 0)
        × ((i : ℕ) → i < s.top → s'.indexes i ≡ s.indexes i)
  unfolding push
  push_lem idx n m s h at c room =
      let s₁ = set_index idx s in
      let t₁ : s₁.top ≡ s.top = top-set_index idx s in
      let at₁ : s₁.nodes s₁.top ≡ some n = rw (t₁, nodes-set_index idx s s.top (omega arith)) at in
      let c₁ : IsChildAt t n (s₁.indexes s₁.top) m = rw (t₁, indexes-set_index idx s) c in
      let s₂ = pushed (some m) s₁ in
      let h₂ = pushed-IsCoherent n m s₁ (set_index-IsCoherent idx s h) at₁ c₁ in
      (
        set_index (pos 0) s₂,
        ground (arith, t₁),
        set_index-IsCoherent (pos 0) s₂ h₂,
        rw (top-set_index (pos 0) s₂, t₁) refl,
        rw (nodes-set_index (pos 0) s₂ (suc s.top) (omega (arith, t₁))) (ground (arith, t₁)),
        λ i le.
            rw (nodes-set_index (pos 0) s₂ i (omega (arith, t₁)))
              (ground (arith, t₁, nodes-set_index idx s i le)),
        rw (indexes-set_index_other (pos 0) s₂ s.top (omega (arith, t₁))) (indexes-set_index idx s),
        indexes-set_index_at (pos 0) s₂ (suc s.top) (ap suc (sym t₁)),
        λ i lt.
            rw (indexes-set_index_other (pos 0) s₂ i (omega (arith, t₁)))
              (indexes-set_index_other idx s i lt),
      )

  remembered_or_loaded :
      (idx : ℕ) (n m : Node) (s : Stack)
      → IsCoherent t s
      → s.nodes s.top ≡ some n
      → s.indexes s.top ≡ pos idx
      → IsChildAt t n (pos idx) m
      → loaded (s.nodes (suc s.top)) (Nodes.child_node t n idx) ≡ ok (some m)
  remembered_or_loaded idx n m s h at here c = elim (Option-cases (s.nodes (suc s.top))) [
    | inl e ↦ rw (e, loaded) c
    | inr (n', e) ↦
        rw (e, loaded) (ap (λ x. ok (some x)) (sym (remembered n m n' s h at (rw here c) e)))
  ]

  -- The child at an index comes out the same, remembered or loaded, and the stack stays as it is.
  pub child_node_lem :
      (idx : ℕ) (n m : Node) (s : Stack)
      → IsCoherent t s
      → s.nodes s.top ≡ some n
      → idx < length (children n)
      → IsChildAt t n (pos idx) m
      → suc s.top < maximum_tree_depth
      → child_node t idx s ≡ ok (some m, s)
  unfolding child_node
  child_node_lem idx n m s h at lt c room = elim (Bool-cases (int_eq (s.indexes s.top) (pos idx))) [
    | inl e ↦
        let here : s.indexes s.top ≡ pos idx = int_eq-eq (s.indexes s.top) (pos idx) e in
        ground (arith, remembered_or_loaded idx n m s h at here c)
    | inr e ↦ ground arith
  ]
