-- ===== src/IbTree/BinarySearch.antt =====
-- `sort.Search` of Go's standard library, with which ibtree/ibstack.go finds a key in a node.
use go_tfhfs.Common.{
  ℕ, zero, suc, ◌+◌, ◌/◌, ◌≤◌, ◌<◌, ◌≡◌, Bool, true, false, if◌then◌else◌, ltb, arith, Bool-cases,
  inl, inr,
}

-- The loop on `i, j`. The distance is halved, so that `n` rounds are enough for `n` entries.
unfoldable pub search_between : ℕ → (ℕ → Bool) → ℕ → ℕ → ℕ
search_between zero f i j = i
search_between (suc fuel) f i j =
    let h = (i + j) / 2 in
    let rest = search_between fuel f (if f h then i else suc h) (if f h then h else j) in
    if ltb i j then rest else i

unfoldable pub sort_search : ℕ → (ℕ → Bool) → ℕ
unfolding search_between
sort_search n f = search_between n f 0 n

-- `r` is the first index below `n` with `f`, or `n`.
pub record IsFirst (n : ℕ) (f : ℕ → Bool) (r : ℕ) : Type 0 where
  pub inside : r ≤ n
  pub before : (k : ℕ) → k < r → f k ≡ false
  pub there : (k : ℕ) → r ≤ k → k < n → f k ≡ true

module _ (n : ℕ) (f : ℕ → Bool) (up : (i k : ℕ) → f i ≡ true → i ≤ k → k < n → f k ≡ true) where
  -- What is false in the middle is false before it.
  below_middle :
      (i j : ℕ)
      → ((k : ℕ) → k < i → f k ≡ false)
      → f ((i + j) / 2) ≡ false
      → (i + j) / 2 < n
      → (k : ℕ) → k < suc ((i + j) / 2)
      → f k ≡ false
  below_middle i j below t inside k h = ground (arith, up k ((i + j) / 2))

  between :
      (fuel i j : ℕ)
      → j ≤ n
      → i ≤ j
      → j ≤ i + fuel
      → ((k : ℕ) → k < i → f k ≡ false)
      → ((k : ℕ) → j ≤ k → k < n → f k ≡ true)
      → IsFirst n f (search_between fuel f i j)
  unfolding search_between
  between zero i j jn ij enough below above = record {
    inside = omega arith;
    before = below;
    there = λ k a b. above k (omega arith) b;
  }
  between (suc fuel) i j jn ij enough below above = elim (Bool-cases (ltb i j)) [
    | inl e ↦ elim (Bool-cases (f ((i + j) / 2))) [
      | inl t ↦
          rw (e, t)
            (between fuel i ((i + j) / 2) (ground arith) (ground arith) (ground arith) below
              λ k a b. up ((i + j) / 2) k t a b)
      | inr t ↦
          rw (e, t)
            (between fuel (suc ((i + j) / 2)) j jn (ground arith) (ground arith)
              (below_middle i j below t (ground arith)) above)
    ]
    | inr e ↦
        rw e (record {
          inside = omega arith;
          before = below;
          there = λ k a b. above k (ground arith) b;
        })
  ]

  -- On a test that stays true once it is true, `sort.Search` finds the first index with it.
  pub sort_search-IsFirst : IsFirst n f (sort_search n f)
  unfolding sort_search
  sort_search-IsFirst =
      between n 0 n (omega arith) (omega arith) (omega arith) (λ k h. absurd (omega arith))
        λ k a b. absurd (omega arith)
