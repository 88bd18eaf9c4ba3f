-- ===== src/IbTree/Walk/Near.antt =====
-- The key above or below a given one among ordered entries, in the form in which the stack of
-- ibtree/ibstack.go meets it: the entries cut in two at the key.
use go_tfhfs.Common.{
  ◌≡◌, refl, true, false, none, some, [], ◌∷◌, ◌++◌, Bytes, bytes_lt, bytes_lt_irrefl, bytes_eq,
  bytes_eq_iff, bytes_lt_total, map_get, All, arith, ◌∙◌, ap, Bool-cases, inl, inr, if◌then◌else◌,
}
use mathlib.Core.List.{append_assoc}
use mathlib.Core.Path.{subst}
use go_tfhfs.IbTree.KeyTree.{IsNext, IsPrev}
use go_tfhfs.IbTree.Walk.Contents.{Entries}
use go_tfhfs.IbTree.Walk.Ordered.{
  Below, From, Above, IsOrdered, first_key, last_key, All-append, All-split, Above-trans, ge_of_lt,
}

-- Keys up to `k`.
abbrev UpTo : Bytes → Entries → Type 0
UpTo k es = All (λ e. bytes_lt k e.0 ≡ false) es

pub not-Above :
    (j k : Bytes) (es : Entries) → bytes_lt j k ≡ false → Above j es → map_get k es ≡ none
unfolding map_get
not-Above j k [] h a = refl
not-Above j k (e ∷ es) h a = ground (arith, not-Above j k es h a.1, bytes_eq_iff e.0 k)

not-UpTo : (j k : Bytes) (es : Entries) → bytes_lt j k ≡ true → UpTo j es → map_get k es ≡ none
unfolding map_get
not-UpTo j k [] h a = refl
not-UpTo j k (e ∷ es) h a = ground (arith, not-UpTo j k es h a.1, bytes_eq_iff e.0 k)

not-From : (j k : Bytes) (es : Entries) → bytes_lt k j ≡ true → From j es → map_get k es ≡ none
unfolding map_get
not-From j k [] h a = refl
not-From j k (e ∷ es) h a = ground (arith, not-From j k es h a.1, bytes_eq_iff e.0 k)

pub map_get-right :
    (k : Bytes) (xs ys : Entries) → map_get k xs ≡ none → map_get k (xs ++ ys) ≡ map_get k ys
unfolding map_get
map_get-right k [] ys h = refl
map_get-right k (x ∷ xs) ys h = ground (arith, map_get-right k xs ys)

map_get-left :
    (k : Bytes) (xs ys : Entries) → map_get k ys ≡ none → map_get k (xs ++ ys) ≡ map_get k xs
unfolding map_get
map_get-left k [] ys h = h
map_get-left k (x ∷ xs) ys h = ground (arith, map_get-left k xs ys)

map_get-here : (e : Bytes × Bytes) (es : Entries) → map_get e.0 (e ∷ es) ≡ some e.1
unfolding map_get
map_get-here e es = ground (arith, bytes_eq_iff e.0 e.0)

not_between :
    (j : Bytes) (e : Bytes × Bytes) (es : Entries)
    → bytes_lt j e.0 ≡ true
    → Above e.0 es
    → map_get j (e ∷ es) ≡ none
unfolding map_get
not_between j e es h a =
    ground (arith, not-Above e.0 j es (ge_of_lt j e.0 h) a, bytes_eq_iff e.0 j, bytes_lt_irrefl j)

-- Where the entries are cut right after a key, the first one after the cut is next.
first_key-IsNext :
    (k : Bytes) (xs ys : Entries)
    → UpTo k xs
    → Above k ys
    → IsOrdered ys
    → IsNext (λ j. map_get j (xs ++ ys)) k (first_key ys)
first_key-IsNext k xs [] up ab o =
    λ j lt. map_get-right j xs [] (not-UpTo k j xs lt up) ∙ not-Above j j [] (bytes_lt_irrefl j) tt
first_key-IsNext k xs (e ∷ es) up ab o = (
  ab.0,
  rw (map_get-right e.0 xs (e ∷ es) (not-UpTo k e.0 xs ab.0 up), map_get-here e es) (λ h. cc),
  λ j lt lt'. map_get-right j xs (e ∷ es) (not-UpTo k j xs lt up) ∙ not_between j e es lt' o.0,
)

-- The entries but the one of the key, if that is first.
abbrev pub past : Bytes → Entries → Entries
past k [] = []
past k (e ∷ es) = if bytes_eq e.0 k then es else (e ∷ es)

UpTo-Below : (k : Bytes) (es : Entries) → Below k es → UpTo k es
UpTo-Below k [] h = tt
UpTo-Below k (e ∷ es) h = (ge_of_lt e.0 k h.0, UpTo-Below k es h.1)

pub IsOrdered-right : (xs ys : Entries) → IsOrdered (xs ++ ys) → IsOrdered ys
IsOrdered-right [] ys h = h
IsOrdered-right (x ∷ xs) ys h = IsOrdered-right xs ys h.1

pub IsOrdered-Below :
    (xs : Entries) (e : Bytes × Bytes) (es : Entries) → IsOrdered (xs ++ e ∷ es) → Below e.0 xs
IsOrdered-Below [] e es h = tt
IsOrdered-Below (x ∷ xs) e es h = ((All-split _ xs (e ∷ es) h.0).1.0, IsOrdered-Below xs e es h.1)

-- The next key, where the entries are cut at a key.
pub past-IsNext :
    (k : Bytes) (xs ys : Entries)
    → Below k xs
    → From k ys
    → IsOrdered (xs ++ ys)
    → IsNext (λ j. map_get j (xs ++ ys)) k (first_key (past k ys))
past-IsNext k xs [] b f o = first_key-IsNext k xs [] (UpTo-Below k xs b) tt tt
past-IsNext k xs (e ∷ es) b f o =
    let below = UpTo-Below k xs b in
    let (above, o') = IsOrdered-right xs (e ∷ es) o in
    elim (Bool-cases (bytes_eq e.0 k)) [
      | inl same ↦
          let at : e.0 ≡ k = (bytes_eq_iff e.0 k).0 same in
          rw (same, ← append_assoc xs (e ∷ []) es)
            (first_key-IsNext k (xs ++ e ∷ []) es
              (All-append _ xs (e ∷ []) below (rw at (bytes_lt_irrefl k), tt)) (rw at at above) o')
      | inr other ↦
          let larger : bytes_lt k e.0 ≡ true =
            ground (arith, bytes_eq_iff e.0 k, bytes_lt_total e.0 k, f.0) in
          rw other (
            first_key-IsNext k xs (e ∷ es) below (larger, Above-trans k e.0 es larger above)
              (above, o'))
    ]

-- The last of some entries.
unsnoc :
    (e : Bytes × Bytes) (es : Entries)
    → (xs : Entries) × (l : Bytes × Bytes) × (e ∷ es ≡ xs ++ l ∷ [])
      × (last_key (e ∷ es) ≡ some l.0)
unsnoc e [] = ([], e, refl, refl)
unsnoc e (e' ∷ es) = let (xs, l, p, q) = unsnoc e' es in (e ∷ xs, l, ap (◌∷◌ e) p, q)

not-Below : (k : Bytes) (es : Entries) → Below k es → map_get k es ≡ none
unfolding map_get
not-Below k [] a = refl
not-Below k (e ∷ es) a = ground (arith, not-Below k es a.1, bytes_eq_iff e.0 k, bytes_lt_irrefl k)

cut_last :
    (k : Bytes) (xs : Entries) (l : Bytes × Bytes) (ys : Entries)
    → bytes_lt l.0 k ≡ true
    → From k ys
    → Below l.0 xs
    → IsPrev (λ j. map_get j (xs ++ l ∷ ys)) k (some l.0)
unfolding map_get
cut_last k xs l ys lt f b = (
  lt,
  rw (map_get-right l.0 xs (l ∷ ys) (not-Below l.0 xs b), map_get-here l ys) (λ h. cc),
  λ j lt' gt.
      map_get-right j xs (l ∷ ys) (not-UpTo l.0 j xs gt (UpTo-Below l.0 xs b))
      ∙ ground (arith, not-From k j ys lt' f, bytes_eq_iff l.0 j, bytes_lt_irrefl j),
)

cut_at_end :
    (k : Bytes) (zs xs : Entries) (l : Bytes × Bytes) (ys : Entries)
    → zs ≡ xs ++ l ∷ []
    → last_key zs ≡ some l.0
    → Below k zs
    → From k ys
    → IsOrdered zs
    → IsPrev (λ j. map_get j (zs ++ ys)) k (last_key zs)
cut_at_end k zs xs l ys p q b f o =
    let b' : Below k (xs ++ l ∷ []) = subst (Below k) p b in
    let o' : IsOrdered (xs ++ l ∷ []) = subst IsOrdered p o in
    rw (q, p, append_assoc xs (l ∷ []) ys)
      (cut_last k xs l ys (All-split _ xs (l ∷ []) b').1.0 f (IsOrdered-Below xs l [] o'))

-- The previous key, where the entries are cut at a key.
pub last_key-IsPrev :
    (k : Bytes) (xs ys : Entries)
    → Below k xs
    → From k ys
    → IsOrdered xs
    → IsPrev (λ j. map_get j (xs ++ ys)) k (last_key xs)
last_key-IsPrev k [] ys b f o = λ j lt. not-From k j ys lt f
last_key-IsPrev k (e ∷ es) ys b f o =
    let (xs, l, p, q) = unsnoc e es in cut_at_end k (e ∷ es) xs l ys p q b f o
