-- ===== src/IbTree/KeyTree.antt =====
-- The calls that the users of a tree make (`Transaction` of ibtree/ibtransaction.go), and what they
-- rely on when they read. Every call may move the stack of a transaction, so that it gives a new state `T`.
use go_tfhfs.Common.{Option, none, some, [], Bytes, bytes_lt, Outcome, ok, ◌≡◌, ◌≢◌, true}
pub mod Transactions
pub mod Tests

pub record KeyTree (T : Type 0) : Type 0 where
  pub get : T → Bytes → Outcome (Option Bytes × T)
  pub set : T → Bytes → Bytes → Outcome T
  pub delete : T → Bytes → Outcome T
  pub next_key : T → Bytes → Outcome (Option Bytes × T)
  pub prev_key : T → Bytes → Outcome (Option Bytes × T)

-- What a tree maps its keys to.
abbrev pub View : Type 0
View = Bytes → Option Bytes

-- `r` is the least key of `v` above `k`, if there is one.
abbrev pub IsNext : View → Bytes → Option Bytes → Type 0
IsNext v k none = (j : Bytes) → bytes_lt k j ≡ true → v j ≡ none
IsNext v k (some i) =
    (bytes_lt k i ≡ true)
    × (v i ≢ none)
    × ((j : Bytes) → bytes_lt k j ≡ true → bytes_lt j i ≡ true → v j ≡ none)

-- `r` is the greatest key of `v` below `k`, if there is one.
abbrev pub IsPrev : View → Bytes → Option Bytes → Type 0
IsPrev v k none = (j : Bytes) → bytes_lt j k ≡ true → v j ≡ none
IsPrev v k (some i) =
    (bytes_lt i k ≡ true)
    × (v i ≢ none)
    × ((j : Bytes) → bytes_lt j k ≡ true → bytes_lt i j ≡ true → v j ≡ none)

-- What the calls that read promise, in states that are `valid`: they return, and act as those of a
-- map that does not change. The empty key is never there.
pub record IsReadable {T : Type 0} (o : KeyTree T) : Type 1 where
  pub valid : T → Type 0
  pub view : T → View
  pub no_empty : (t : T) → valid t → view t [] ≡ none
  pub get_law :
      (t : T) (k : Bytes)
      → valid t
      → (t' : T) × (o.get t k ≡ ok (view t k, t')) × valid t' × ((j : Bytes) → view t' j ≡ view t j)
  pub next_law :
      (t : T) (k : Bytes)
      → valid t
      → (r : Option Bytes) × (t' : T) × (o.next_key t k ≡ ok (r, t'))
        × valid t'
        × ((j : Bytes) → view t' j ≡ view t j)
        × IsNext (view t) k r
  pub prev_law :
      (t : T) (k : Bytes)
      → valid t
      → (r : Option Bytes) × (t' : T) × (o.prev_key t k ≡ ok (r, t'))
        × valid t'
        × ((j : Bytes) → view t' j ≡ view t j)
        × IsPrev (view t) k r
