-- ===== src/IbTree/Delta/Differences.antt =====
-- What a list of changes (ibtree/delta.go) says about the entries of two trees.
use go_tfhfs.Common.{
  ◌≡◌, refl, true, false, Option, none, some, List, [], ◌∷◌, ◌++◌, Bytes, bytes_eq, bytes_eq_iff,
  bytes_eq_self, bytes_lt, bytes_lt_irrefl, map_get, All, arith, if◌then◌else◌, sym, Option-cases,
  Bool-cases, inl, inr,
}
use mathlib.Core.Path.{subst}
use go_tfhfs.IbTree.Delta.{Change}
use go_tfhfs.IbTree.Node.{NodeDataChild}
use go_tfhfs.IbTree.Walk.Contents.{Entries}
use go_tfhfs.IbTree.Walk.Near.{not-Above, map_get-right}
use go_tfhfs.IbTree.Walk.Ordered.{Above, IsOrdered, All-split}

abbrev pub key_or : Option NodeDataChild → Bytes → Bytes
key_or none k = k
key_or (some c) k = c.key

abbrev pub changed_key : Change → Bytes
changed_key c = key_or c.old (key_or c.new [])

abbrev pub value_of : Option NodeDataChild → Option Bytes
value_of none = none
value_of (some c) = some c.value

-- The old and the new value of a key that changes.
abbrev pub change_at : Bytes → List Change → Option Bytes × Option Bytes
change_at j [] = (none, none)
change_at j (c ∷ cs) =
    if bytes_eq (changed_key c) j then (value_of c.old, value_of c.new) else change_at j cs

abbrev pub difference : Option Bytes → Option Bytes → Option Bytes × Option Bytes
difference none b = (none, b)
difference (some v) none = (some v, none)
difference (some v) (some w) = if bytes_eq v w then (none, none) else (some v, some w)

abbrev pub AllAbove : Bytes → List Change → Type 0
AllAbove k cs = All (λ c. bytes_lt k (changed_key c) ≡ true) cs

abbrev pub IsGrowing : List Change → Type 0
IsGrowing [] = Unit
IsGrowing (c ∷ cs) = AllAbove (changed_key c) cs × IsGrowing cs

-- The changes are those that lead from one list of entries to another, each key once, in order.
pub record IsDelta (old new : Entries) (cs : List Change) : Type 0 where
  pub growing : IsGrowing cs
  pub above : (k : Bytes) → Above k old → Above k new → AllAbove k cs
  pub changes : (j : Bytes) → change_at j cs ≡ difference (map_get j old) (map_get j new)

pub no_changes : IsDelta [] [] []
unfolding map_get
no_changes = record { growing = tt; above = λ k a b. tt; changes = λ j. refl }

difference_self : (v : Bytes) → difference (some v) (some v) ≡ (none, none)
difference_self v = rw (bytes_eq_self v) refl

map_get-found :
    (j : Bytes) (xs ys : Entries) (v : Bytes)
    → map_get j xs ≡ some v
    → map_get j (xs ++ ys) ≡ some v
unfolding map_get
map_get-found j [] ys v h = cc
map_get-found j (x ∷ xs) ys v h = ground (arith, map_get-found j xs ys v)

-- A key among the first of ordered entries is not among the others.
not_after :
    (j : Bytes) (xs ys : Entries) (v : Bytes)
    → IsOrdered (xs ++ ys)
    → map_get j xs ≡ some v
    → map_get j ys ≡ none
unfolding map_get
not_after j [] ys v o h = cc
not_after j (x ∷ xs) ys v o h = elim (Bool-cases (bytes_eq x.0 j)) [
  | inl e ↦
      let here : x.0 ≡ j = (bytes_eq_iff x.0 j).0 e in
      not-Above j j ys (bytes_lt_irrefl j) (rw (← here) (All-split _ xs ys o.0).1)
  | inr e ↦ not_after j xs ys v o.1 (ground arith)
]

-- Entries that both have, and that the changes do not mention.
pub IsDelta-skip :
    (xs old new : Entries) (cs : List Change)
    → IsOrdered (xs ++ old)
    → IsOrdered (xs ++ new)
    → IsDelta old new cs
    → IsDelta (xs ++ old) (xs ++ new) cs
IsDelta-skip xs old new cs o o' d = record {
  growing = d.growing;
  above = λ k a b. d.above k (All-split _ xs old a).1 (All-split _ xs new b).1;
  changes = λ j. elim (Option-cases (map_get j xs)) [
    | inl e ↦ rw (map_get-right j xs old e, map_get-right j xs new e) (d.changes j)
    | inr (v, e) ↦
        rw
          (
            map_get-found j xs old v e,
            map_get-found j xs new v e,
            d.changes j,
            not_after j xs old v o e,
            not_after j xs new v o' e,
          )
          (sym (difference_self v))
  ];
}

gone_at : (k j : Bytes) (es : Entries) → Above k es → bytes_eq k j ≡ true → map_get j es ≡ none
gone_at k j es a e =
    let here : k ≡ j = (bytes_eq_iff k j).0 e in
    not-Above k j es (subst (λ x. bytes_lt k x ≡ false) here (bytes_lt_irrefl k)) a

module _ (old new : Entries) (cs : List Change) where
  pub IsDelta-old :
      (c : NodeDataChild)
      → IsOrdered ((c.key, c.value) ∷ old)
      → Above c.key new
      → IsDelta old new cs
      → IsDelta ((c.key, c.value) ∷ old) new (record { old = some c; new = none } ∷ cs)
  unfolding map_get
  IsDelta-old c o a d = record {
    growing = (d.above c.key o.0 a, d.growing);
    above = λ k b b'. (b.0, d.above k b.1 b');
    changes = λ j. elim (Bool-cases (bytes_eq c.key j)) [
      | inl e ↦ rw (e, gone_at c.key j new a e) refl
      | inr e ↦ rw e (d.changes j)
    ];
  }

  pub IsDelta-new :
      (c : NodeDataChild)
      → IsOrdered ((c.key, c.value) ∷ new)
      → Above c.key old
      → IsDelta old new cs
      → IsDelta old ((c.key, c.value) ∷ new) (record { old = none; new = some c } ∷ cs)
  unfolding map_get
  IsDelta-new c o a d = record {
    growing = (d.above c.key a o.0, d.growing);
    above = λ k b b'. (b'.0, d.above k b b'.1);
    changes = λ j. elim (Bool-cases (bytes_eq c.key j)) [
      | inl e ↦ rw (e, gone_at c.key j old a e) refl
      | inr e ↦ rw e (d.changes j)
    ];
  }

  -- A key with another value.
  pub IsDelta-both :
      (c0 c : NodeDataChild)
      → c0.key ≡ c.key
      → bytes_eq c0.value c.value ≡ false
      → IsOrdered ((c0.key, c0.value) ∷ old)
      → IsOrdered ((c.key, c.value) ∷ new)
      → IsDelta old new cs
      → IsDelta
          ((c0.key, c0.value) ∷ old)
          ((c.key, c.value) ∷ new)
          (record { old = some c0; new = some c } ∷ cs)
  unfolding map_get
  IsDelta-both c0 c same other o o' d = record {
    growing = (d.above c0.key o.0 (rw same o'.0), d.growing);
    above = λ k b b'. (b.0, d.above k b.1 b'.1);
    changes = λ j. elim (Bool-cases (bytes_eq c.key j)) [
      | inl e ↦ rw (same, e, other) refl
      | inr e ↦ rw (same, e) (d.changes j)
    ];
  }
