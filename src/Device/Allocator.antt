-- ===== src/Device/Allocator.antt =====
-- The free space of the flat device: `treeBackend` of storage/tree/tree.go. Two subtrees of one tree
-- hold the free places, by size and by offset; `o` is the tree's transaction.
use go_tfhfs.Common.{
  ℕ, zero, suc, ◌+◌, ◌-◌, ◌%◌, ◌^◌, Bool, true, false, Option, none, some, List, [], ◌∷◌, ◌++◌,
  Bytes, Outcome, ok, panic, ◌>>=◌, if◌then◌else◌, ltb, ◌==◌,
}
use go_tfhfs.IbTree.KeyTree.{KeyTree}
use go_tfhfs.IbTree.SubTree.{sub_tree}
use go_tfhfs.Device.Location.{
  LocationEntry, OpEntry, block_size, to_key_so, to_key_os, location_entry_from_key_so,
}
use go_tfhfs.Device.Superblocks.{super_block_offset, calculate_number_of_super_blocks}
pub mod Places
pub mod FreeTrees
pub mod Devices
pub mod Searching
pub mod Tests

abbrev pub super_block_size : ℕ
super_block_size = 65536

-- The part of `treeBackend` that the allocator uses: the transaction `t`, the fields of its
-- superblock, and whether a flush is on.
pub record TreeBackend (T : Type 0) : Type 0 where
  pub t : T
  pub bytes_used : ℕ
  pub bytes_total : ℕ
  pub pending : List OpEntry
  pub flushing : Bool

-- Sums and differences in uint64.
abbrev pub add_64 : ℕ → ℕ → ℕ
add_64 a b = (a + b) % 2 ^ 64

abbrev pub sub_64 : ℕ → ℕ → ℕ
sub_64 a b = (a + (2 ^ 64 - b)) % 2 ^ 64

-- `numberOfSuperBlocks`, with the fuel that is enough for devices below 2 ^ 60 bytes; the count for
-- a larger one never ends.
abbrev pub counted : Option ℕ → Outcome ℕ
counted none = panic
counted (some n) = ok n

unfoldable pub number_of_super_blocks : ℕ → Outcome ℕ
number_of_super_blocks s = counted (calculate_number_of_super_blocks 12 s)

module _ {T : Type 0} (o : KeyTree T) where
  abbrev pub free_size2_offset_tree : KeyTree T
  free_size2_offset_tree = sub_tree o (115 ∷ [])

  abbrev pub free_offset2_size_tree : KeyTree T
  free_offset2_size_tree = sub_tree o (111 ∷ [])

  -- `appendOp`, which notes a change during a flush.
  abbrev pub note_op : LocationEntry → Bool → TreeBackend T → TreeBackend T
  note_op le free self = record self {
    pending =
        if self.flushing
        then self.pending ++ (record { location = le; free = free } ∷ [])
        else self.pending;
  }

  unfoldable pub add_free_tree : LocationEntry → TreeBackend T → Outcome (TreeBackend T)
  unfolding sub_tree to_key_so to_key_os
  add_free_tree le self = do
    t₁ ← free_size2_offset_tree.set self.t (to_key_so le) []
    t₂ ← free_offset2_size_tree.set t₁ (to_key_os le) []
    ok (record self { t = t₂ })

  unfoldable pub add_free : LocationEntry → TreeBackend T → Outcome (TreeBackend T)
  unfolding add_free_tree
  add_free le self =
      let s₁ = note_op le true self in
      add_free_tree le (record s₁ { bytes_used = sub_64 s₁.bytes_used (block_size le) })

  unfoldable pub remove_free_tree : LocationEntry → TreeBackend T → Outcome (TreeBackend T)
  unfolding sub_tree to_key_so to_key_os
  remove_free_tree le self = do
    t₁ ← free_size2_offset_tree.delete self.t (to_key_so le)
    t₂ ← free_offset2_size_tree.delete t₁ (to_key_os le)
    ok (record self { t = t₂ })

  unfoldable pub remove_free : LocationEntry → TreeBackend T → Outcome (TreeBackend T)
  unfolding remove_free_tree
  remove_free le self =
      let s₁ = note_op le false self in
      remove_free_tree le (record s₁ { bytes_used = add_64 s₁.bytes_used (block_size le) })

  -- `freeSlice`.
  unfoldable pub free_slice : List LocationEntry → TreeBackend T → Outcome (TreeBackend T)
  unfolding add_free
  free_slice [] self = ok self
  free_slice (le ∷ ls) self = do s₁ ← add_free le self; free_slice ls s₁

  -- The loop of `flushPending`.
  unfoldable pub flush_ops : List OpEntry → TreeBackend T → Outcome (TreeBackend T)
  unfolding add_free_tree remove_free_tree
  flush_ops [] self = ok self
  flush_ops (op ∷ ops) self = do
    s₁ ← (if op.free then add_free_tree op.location self else remove_free_tree op.location self)
    flush_ops ops s₁

  unfoldable pub flush_pending : TreeBackend T → Outcome (TreeBackend T)
  unfolding flush_ops
  flush_pending self = do s₁ ← flush_ops self.pending self; ok (record s₁ { pending = [] })

  -- `grow` within the superblocks that there are: the new space is free.
  unfoldable pub grow_in_place : ℕ → TreeBackend T → Outcome (TreeBackend T)
  unfolding add_free
  grow_in_place asize self = do
    s₁ ←
        add_free (record { size = asize; offset = self.bytes_total })
          (record self { bytes_used = add_64 self.bytes_used asize })
    ok (record s₁ { bytes_total = add_64 s₁.bytes_total asize })

  -- `grow` up to the next superblock at `ofs`, which is used space.
  unfoldable pub grow_to_super_block : ℕ → TreeBackend T → Outcome (TreeBackend T)
  unfolding add_free
  grow_to_super_block ofs self = do
    s₁ ←
        (if ltb self.bytes_total ofs
          then (do
            s' ← add_free (record { size = ofs - self.bytes_total; offset = self.bytes_total }) self
            ok (record s' {
              bytes_used = add_64 s'.bytes_used (ofs - self.bytes_total);
              bytes_total = add_64 s'.bytes_total (ofs - self.bytes_total);
            }))
          else ok self)
    ok (record s₁ {
      bytes_total = add_64 s₁.bytes_total super_block_size;
      bytes_used = add_64 s₁.bytes_used super_block_size;
    })

  -- `grow`; each round adds a superblock, of which there are at most eleven.
  unfoldable pub grow : ℕ → ℕ → TreeBackend T → Outcome (Bool × TreeBackend T)
  unfolding grow_in_place grow_to_super_block number_of_super_blocks
  grow zero asize self = panic
  grow (suc fuel) asize self = do
    oldsbs ← number_of_super_blocks self.bytes_total
    newsbs ← number_of_super_blocks (add_64 self.bytes_total asize)
    elim (oldsbs == newsbs) [
      | true ↦ (do s₁ ← grow_in_place asize self; ok (true, s₁))
      | false ↦ (do s₁ ← grow_to_super_block (super_block_offset oldsbs) self; grow fuel asize s₁)
    ]

  -- Step [1] of `allocateSlice`: the place with the key is cut to the size that is wanted.
  unfoldable pub cut_place : ℕ → Bytes → TreeBackend T → Outcome (LocationEntry × TreeBackend T)
  unfolding remove_free add_free block_size location_entry_from_key_so
  cut_place size key self = do
    let bsize = block_size (record { size = size; offset = 0 })
    le ← location_entry_from_key_so key
    s₁ ← remove_free le self
    let left = sub_64 le.size bsize
    s₂ ←
        (if ltb 0 left
          then add_free (record { size = left; offset = add_64 le.offset bsize }) s₁
          else ok s₁)
    ok (record { size = size; offset = le.offset }, s₂)

  -- The loop of `allocateSlice`, with the places so far.
  unfoldable pub allocate_loop :
      ℕ
      → ℕ
      → List LocationEntry
      → TreeBackend T
      → Outcome (Option (List LocationEntry) × TreeBackend T)
  unfolding cut_place grow free_slice sub_tree to_key_so block_size
  allocate_loop zero size sl self = panic
  allocate_loop (suc fuel) size sl self = elim (size == 0) [
    | true ↦ ok (some sl, self)
    | false ↦ (do
      (kp, t₁) ←
          free_size2_offset_tree.next_key self.t (to_key_so (record { size = size; offset = 0 }))
      elim kp [
        | some key ↦ (do
          (le, s₁) ← cut_place size key (record self { t = t₁ })
          ok (some (sl ++ (le ∷ [])), s₁))
        | none ↦ (do
          (grew, s₁) ←
              grow 12 (block_size (record { size = size; offset = 0 })) (record self { t = t₁ })
          elim grew [
            | true ↦ allocate_loop fuel size sl s₁
            | false ↦ (do
              (kp', t₂) ←
                  free_size2_offset_tree.prev_key s₁.t
                    (to_key_so (record { size = size; offset = 0 }))
              elim kp' [
                | some key ↦ (do
                  le ← location_entry_from_key_so key
                  s₂ ← remove_free le (record s₁ { t = t₂ })
                  allocate_loop fuel (sub_64 size le.size) (sl ++ (le ∷ [])) s₂)
                | none ↦ (do s₂ ← free_slice sl (record s₁ { t = t₂ }); ok (none, s₂))
              ])
          ])
      ])
  ]

  -- `allocateSlice`. Every round but the first takes a place, or follows one that grew the device.
  unfoldable pub allocate_slice :
      ℕ → ℕ → TreeBackend T → Outcome (Option (List LocationEntry) × TreeBackend T)
  unfolding allocate_loop
  allocate_slice fuel size self = allocate_loop fuel size [] self
