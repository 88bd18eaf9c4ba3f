-- ===== src/Device/Start.antt =====
-- The start of the flat device: `Init` of storage/tree/tree.go chooses the newest superblock that can
-- be read.
use go_tfhfs.Common.{
  ℕ, zero, suc, ◌+◌, Bool, true, false, Option, none, some, List, [], ◌∷◌, ◌++◌, Bytes, Outcome, ok,
  ◌>>=◌, ltb, not, if◌then◌else◌,
}
use go_tfhfs.Codec.{Codec, Wire}
use go_tfhfs.Device.Location.{LocationEntry, OpEntry, block_size}
use go_tfhfs.Device.Superblocks.{super_block_offset}
use go_tfhfs.Device.Allocator.{super_block_size, sub_64}
use go_tfhfs.Device.Backend.{read_decoded}
pub mod Rounds
pub mod Newest
pub mod Tests

pub record Superblock : Type 0 where
  pub generation : ℕ
  pub bytes_used : ℕ
  pub bytes_total : ℕ
  pub root_location : List LocationEntry
  pub pending : List OpEntry
  pub pending_location : List LocationEntry

-- The best superblock so far, and the fields of the backend itself that the loop changes.
pub record Choice : Type 0 where
  pub best : Option Superblock
  pub own_pending : List OpEntry
  pub own_used : ℕ

abbrev pub parsed : {A : Type 0} → Wire A → Option Bytes → Option A
parsed wire none = none
parsed wire (some b) = wire.unmarshal b

-- An older superblock than the best is passed over.
abbrev pub is_older : Superblock → Option Superblock → Bool
is_older sb none = false
is_older sb (some best) = ltb sb.generation best.generation

-- The loop over the places of an offloaded list: it changes the backend, not the superblock.
unfoldable pub free_pending_location : List LocationEntry → Choice → Choice
free_pending_location [] self = self
free_pending_location (le ∷ ls) self = free_pending_location ls (record self {
  own_pending = self.own_pending ++ (record { location = le; free = true } ∷ []);
  own_used = sub_64 self.own_used (block_size le);
})

module _ {R : Type 0} (c : Codec R) (sb_wire : Wire Superblock)
    (ops_wire : Wire (List OpEntry)) where
  -- A superblock whose list of changes stands elsewhere gets that list, if it can be read.
  unfoldable pub take_pending : Bytes → Superblock → Choice → Outcome Choice
  unfolding free_pending_location read_decoded
  take_pending file sb self = elim sb.pending_location [
    | [] ↦ ok (record self { best = some sb })
    | le ∷ ls ↦ (do
      b ← read_decoded c file (le ∷ ls)
      elim (parsed ops_wire b) [
        | none ↦ ok self
        | some os ↦ ok (record (free_pending_location (le ∷ ls) self) {
          best = some (record sb { pending = os; pending_location = [] });
        })
      ])
  ]

  -- A round of the loop.
  unfoldable pub consider : Bytes → ℕ → Choice → Outcome Choice
  unfolding take_pending read_decoded
  consider file i self = do
    b ← read_decoded c file (record { size = super_block_size; offset = super_block_offset i } ∷ [])
    elim (parsed sb_wire b) [
      | none ↦ ok self
      | some sb ↦ elim (is_older sb self.best) [
        | true ↦ ok self
        | false ↦ take_pending file sb self
      ]
    ]

  -- The loop over `n` superblocks from `i` on.
  unfoldable pub choose : Bytes → ℕ → ℕ → Choice → Outcome Choice
  unfolding consider
  choose file zero i self = ok self
  choose file (suc n) i self = do s₁ ← consider file i self; choose file n (suc i) s₁
