-- ===== src/Device/Allocator/Devices.antt =====
-- The invariant of the flat device of storage/tree/tree.go: its free places, its superblocks and its
-- accounts.
use go_tfhfs.Common.{ℕ, ◌+◌, ◌%◌, ◌^◌, ◌<◌, ◌≤◌, ◌≡◌, ◌⊎◌, List, [], ◌∷◌, All}
use go_tfhfs.IbTree.KeyTree.{KeyTree, IsReadable}
use go_tfhfs.Device.Location.{LocationEntry}
use go_tfhfs.Device.Superblocks.{super_block_offset}
use go_tfhfs.Device.MemoryFile.Reads.{Apart, sum_sizes}
use go_tfhfs.Device.Allocator.{TreeBackend}
use go_tfhfs.Device.Allocator.Places.{blocks}
use go_tfhfs.Device.Allocator.FreeTrees.{HasFree}

-- The place holds no part of a superblock.
abbrev pub IsClear : LocationEntry → Type 0
IsClear x =
    (i : ℕ)
    → i ≤ 10
    → (super_block_offset i + 65536 ≤ x.offset) ⊎ (x.offset + x.size ≤ super_block_offset i)

-- A device of this size ends after its superblocks, not within one.
abbrev pub IsPast : ℕ → Type 0
IsPast total =
    (i : ℕ)
    → i ≤ 10
    → 0 < total
    → super_block_offset i ≤ total
    → super_block_offset i + 65536 ≤ total

abbrev pub all_blocks : List LocationEntry → List LocationEntry
all_blocks [] = []
all_blocks (le ∷ ls) = blocks le ∷ all_blocks ls

module _ {T : Type 0} (o : KeyTree T) (h : IsReadable o) where
  pub record IsDevice (self : TreeBackend T) (fs : List LocationEntry) : Type 0 where
    pub valid : h.valid self.t
    pub free : HasFree (h.view self.t) fs
    pub inside : All (λ x. x.offset + x.size ≤ self.bytes_total) fs
    pub clear : All IsClear fs
    pub accounted : self.bytes_used + sum_sizes fs ≡ self.bytes_total
    pub bounded : self.bytes_total < 2 ^ 60
    pub blocks : self.bytes_total % 512 ≡ 0
    pub past : IsPast self.bytes_total

  -- The place is in use: on the device, and apart from all free places.
  abbrev pub IsUsed : TreeBackend T → List LocationEntry → LocationEntry → Type 0
  IsUsed self fs v = (v.offset + v.size ≤ self.bytes_total) × All (Apart v) fs

  -- A place that can be given back: its blocks are in use, and no part of a superblock.
  pub record IsGiven (self : TreeBackend T) (fs : List LocationEntry) (le : LocationEntry)
      : Type 0 where
    pub positive : 0 < le.size
    pub small : le.size < 2 ^ 59
    pub used : IsUsed self fs (blocks le)
    pub clear : IsClear (blocks le)
