-- ===== src/IbTree/SubTree/Laws.antt =====
-- `NextKey` and `PrevKey` of a subtree of ibtree/ibtransaction.go whose prefix is one byte, as all
-- of the source's are.
use go_tfhfs.Common.{
  ℕ, ◌≡◌, refl, Option, none, some, [], ◌∷◌, Bytes, bytes_lt, bytes_eq, ok, ◌>>=◌, arith,
  if◌then◌else◌, ◌==◌, Bool-cases, inl, inr, ◌∙◌, ap,
}
use go_tfhfs.IbTree.KeyTree.{KeyTree, IsReadable, View, IsNext, IsPrev}
use go_tfhfs.IbTree.SubTree.{sub_tree, strip_tree_prefix}

abbrev pub under : ℕ → View → View
under p v k = v (p ∷ k)

strip-cons :
    (p c : ℕ) (i : Bytes)
    → strip_tree_prefix (p ∷ []) (some (c ∷ i)) ≡ ok (if c == p then some i else none)
unfolding strip_tree_prefix bytes_eq
strip-cons p c i = ground arith

-- The neighbour above in the whole tree gives the neighbour above in the subtree.
IsNext-under :
    (p : ℕ) (v : View) (k : Bytes) (r : Option Bytes)
    → IsNext v (p ∷ k) r
    → (r' : Option Bytes) × (strip_tree_prefix (p ∷ []) r ≡ ok r') × IsNext (under p v) k r'
unfolding strip_tree_prefix bytes_lt
IsNext-under p v k none h = (none, refl, λ j lt. h (p ∷ j) (ground arith))
IsNext-under p v k (some []) h = cc
IsNext-under p v k (some (c ∷ i)) (up, there, least) = elim (Bool-cases (c == p)) [
  | inl e ↦
      let same : c ≡ p = ground arith in
      (
        some i,
        strip-cons p c i ∙ ap ok (rw e refl),
        (ground arith, rw same at there, λ j lt lt'. least (p ∷ j) (ground arith) (ground arith)),
      )
  | inr e ↦ (
    none,
    strip-cons p c i ∙ ap ok (rw e refl),
    λ j lt. least (p ∷ j) (ground arith) (ground arith),
  )
]

IsPrev-under :
    (p : ℕ) (v : View) (k : Bytes) (r : Option Bytes)
    → v [] ≡ none
    → IsPrev v (p ∷ k) r
    → (r' : Option Bytes) × (strip_tree_prefix (p ∷ []) r ≡ ok r') × IsPrev (under p v) k r'
unfolding strip_tree_prefix bytes_lt
IsPrev-under p v k none empty h = (none, refl, λ j lt. h (p ∷ j) (ground arith))
IsPrev-under p v k (some []) empty (up, there, least) = absurd (there empty)
IsPrev-under p v k (some (c ∷ i)) empty (up, there, least) = elim (Bool-cases (c == p)) [
  | inl e ↦
      let same : c ≡ p = ground arith in
      (
        some i,
        strip-cons p c i ∙ ap ok (rw e refl),
        (ground arith, rw same at there, λ j lt lt'. least (p ∷ j) (ground arith) (ground arith)),
      )
  | inr e ↦ (
    none,
    strip-cons p c i ∙ ap ok (rw e refl),
    λ j lt. least (p ∷ j) (ground arith) (ground arith),
  )
]

module _ {T : Type 0} (o : KeyTree T) (h : IsReadable o) (p : ℕ) where
  -- `NextKey` of a subtree whose prefix is one byte returns the least key of the subtree above the
  -- given one, if there is one, on a tree that reads as a map does, which it leaves as it was.
  pub next_key-sub_tree :
      (t : T) (k : Bytes)
      → h.valid t
      → (r : Option Bytes) × (t' : T) × ((sub_tree o (p ∷ [])).next_key t k ≡ ok (r, t'))
        × h.valid t'
        × ((j : Bytes) → h.view t' j ≡ h.view t j)
        × IsNext (under p (h.view t)) k r
  unfolding sub_tree
  next_key-sub_tree t k valid =
      let (r, t', ran, valid', same, next) = h.next_law t (p ∷ k) valid in
      let (r', strips, next') = IsNext-under p (h.view t) k r next in
      (r', t', rw (ran, ◌>>=◌, strips) refl, valid', same, next')

  -- `PrevKey` of a subtree whose prefix is one byte returns the greatest key of the subtree below
  -- the given one, if there is one, on a tree that reads as a map does, which it leaves as it was.
  pub prev_key-sub_tree :
      (t : T) (k : Bytes)
      → h.valid t
      → (r : Option Bytes) × (t' : T) × ((sub_tree o (p ∷ [])).prev_key t k ≡ ok (r, t'))
        × h.valid t'
        × ((j : Bytes) → h.view t' j ≡ h.view t j)
        × IsPrev (under p (h.view t)) k r
  unfolding sub_tree
  prev_key-sub_tree t k valid =
      let (r, t', ran, valid', same, prev) = h.prev_law t (p ∷ k) valid in
      let (r', strips, prev') = IsPrev-under p (h.view t) k r (h.no_empty t valid) prev in
      (r', t', rw (ran, ◌>>=◌, strips) refl, valid', same, prev')
