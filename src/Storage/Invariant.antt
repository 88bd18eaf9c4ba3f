-- ===== src/Storage/Invariant.antt =====
-- An invariant of the block layer of storage/, and what it means that a step of the storage
-- goroutine keeps it.
use go_tfhfs.Common.{
  ℕ, suc, ◌+◌, ◌^◌, ◌<◌, ◌≡◌, refl, Bool, true, false, Option, none, some, List, [], ◌∷◌, Bytes,
  Outcome, ok, panic, if◌then◌else◌, ltb, ◌==◌, ◌≤◌, Bool-cases, inl, inr, arith, map_get,
}
use go_tfhfs.Storage.Types.{
  Block, Backend, Storage, M, pure, fail, ◌>>=◌, ◌>>◌, lift, when, get, get_block, contains, insert,
  remove, modify, at,
}
pub mod Rules
pub mod Refs
pub mod Releases
pub mod Loads
pub mod Deps
pub mod Blocks
pub mod Flushes
pub mod Jobs

abbrev pub is_some {ℓ} : {A : Type ℓ} → Option A → Bool
is_some none = false
is_some (some a) = true

-- A run of `m` from a state with `P` ends, if it does not panic, in a state with `P`.
abbrev pub Ends : {B A : Type 0} → (Storage B → Type 0) → Outcome (A × Storage B) → Type 0
Ends P (ok (a, s)) = P s
Ends P panic = Unit

pub record Keeps {B A : Type 0} (P : Storage B → Type 0) (m : M B A) : Type 0 where
  pub run : (s : Storage B) → P s → Ends P (m s)

-- The set of dirty blocks and the map agree with the heap: a block is in the set of dirty blocks exactly when it
-- remembers its stored metadata, and the map leads to live blocks by their own ids. `n` is a bound
-- below which all addresses in hand are live.
pub record IsConsistent {B : Type 0} (n : ℕ) (s : Storage B) : Type 0 where
  pub bound : n ≤ s.next
  pub idle : (p : ℕ) → s.next ≤ p → contains p s.dirty_blocks ≡ false
  pub tracked : (p : ℕ) → contains p s.dirty_blocks ≡ is_some (s.heap p).stored
  pub addressed :
      (id : Bytes) (p : ℕ) → map_get id s.blocks ≡ some p → (p < s.next) × ((s.heap p).id ≡ id)

pub contains-insert :
    (p q : ℕ) (l : List ℕ) → contains p (insert q l) ≡ (if q == p then true else contains p l)
unfolding contains insert
contains-insert p q l = elim (Bool-cases (contains q l)) [
  | inl e ↦ ground (arith, e)
  | inr e ↦ ground (arith, e)
]

pub contains-remove :
    (p q : ℕ) (l : List ℕ) → contains p (remove q l) ≡ (if q == p then false else contains p l)
unfolding contains remove
contains-remove p q [] = ground arith
contains-remove p q (r ∷ l) = ground (arith, contains-remove p q l)

module _ {B : Type 0} (n : ℕ) where
  -- An assignment that leaves the id alone, and whether the stored metadata is set.
  pub Keeps-modify :
      (p : ℕ) (f : Block → Block)
      → ((b : Block) → is_some (f b).stored ≡ is_some b.stored)
      → ((b : Block) → (f b).id ≡ b.id)
      → Keeps {B = B} (IsConsistent n) (modify p f)
  unfolding modify at
  Keeps-modify p f hs hi = record {
    run = λ s h. record {
      bound = h.bound;
      idle = h.idle;
      tracked = λ q. ground (arith, h.tracked q, hs (s.heap p));
      addressed = λ id q e. ground (arith, h.addressed id q e, hi (s.heap p));
    };
  }
