-- ===== src/Device/Backend.antt =====
-- The blocks of the flat device: the calls of `treeBackend` of storage/tree/tree.go that read and
-- write blocks, over the tree of blocks, the allocator, the file and the codec.
use go_tfhfs.Common.{
  ℕ, Bool, true, false, Option, none, some, List, [], ◌∷◌, Bytes, length, Outcome, ok, panic, ◌>>=◌,
}
use go_tfhfs.Codec.{Codec, Wire}
use go_tfhfs.Storage.Types.{Block, BlockMetadata, BlockStatus, metadata}
use go_tfhfs.IbTree.KeyTree.{KeyTree}
use go_tfhfs.IbTree.SubTree.{sub_tree}
use go_tfhfs.Device.Location.{LocationEntry}
use go_tfhfs.Device.MemoryFile.{read_data, write_data}
use go_tfhfs.Device.Allocator.{TreeBackend, allocate_slice, free_slice}
pub mod Rows
pub mod Reads
pub mod Tests

pub record BlockData : Type 0 where
  pub block_metadata : BlockMetadata
  pub location : List LocationEntry

-- The backend with the file below it and the source of random bytes of its codec.
pub record TreeStore (T R : Type 0) : Type 0 where
  pub space : TreeBackend T
  pub file : Bytes
  pub random : R

-- A nil pointer panics, and so does an error where the code checks for it.
abbrev pub present : {A : Type 0} → Option A → Outcome A
present none = panic
present (some a) = ok a

-- A nil list of places has none.
abbrev pub or_no_places : Option (List LocationEntry) → List LocationEntry
or_no_places none = []
or_no_places (some ls) = ls

-- The block that `GetBlockById` makes; the fields of the block layer have their zero values.
abbrev pub block_of : Bytes → BlockData → Block
block_of id bd = record {
  id = id;
  ref_count = bd.block_metadata.ref_count;
  status = bd.block_metadata.status;
  block_data = none;
  has_backend = true;
  stored = none;
  deps = none;
  storage_ref_count = 0;
  external_storage_ref_count = 0;
  have_disk_refs = false;
  have_storage_refs = false;
}

module _ {R : Type 0} (c : Codec R) where
  -- `ReadData` of the backend: an error of the codec gives nil.
  unfoldable pub read_decoded : Bytes → List LocationEntry → Outcome (Option Bytes)
  unfolding read_data
  read_decoded file location = do b ← read_data file location; ok (c.decode_bytes b [])

module _ {T R : Type 0} (o : KeyTree T) (c : Codec R) (wire : Wire BlockData) where
  abbrev pub block_tree : KeyTree T
  block_tree = sub_tree o (98 ∷ [])

  abbrev pub unmarshalled : Option Bytes → Outcome (Option BlockData)
  unmarshalled none = ok none
  unmarshalled (some bv) = do bd ← present (wire.unmarshal bv); ok (some bd)

  -- `getBlockData`.
  unfoldable pub load_block_data :
      TreeStore T R → Bytes → Outcome (Option BlockData × TreeStore T R)
  unfolding sub_tree
  load_block_data self id = do
    (v, t') ← block_tree.get self.space.t id
    bd ← unmarshalled v
    ok (bd, record self { space = record self.space { t = t' } })

  -- `setBlockData`.
  unfoldable pub set_block_data : TreeStore T R → Bytes → BlockData → Outcome (TreeStore T R)
  unfolding sub_tree
  set_block_data self id bdata = do
    t' ← block_tree.set self.space.t id (wire.marshal bdata)
    ok (record self { space = record self.space { t = t' } })

  unfoldable pub get_block_data : TreeStore T R → Bytes → Outcome (Option Bytes × TreeStore T R)
  unfolding load_block_data read_decoded
  get_block_data self id = do
    (bd, self') ← load_block_data self id
    elim bd [
      | none ↦ ok (none, self')
      | some x ↦ (do d ← read_decoded c self'.file x.location; ok (d, self'))
    ]

  unfoldable pub get_block_by_id : TreeStore T R → Bytes → Outcome (Option Block × TreeStore T R)
  unfolding load_block_data
  get_block_by_id self id = do
    (bd, self') ← load_block_data self id
    elim bd [ none ↦ ok (none, self') | some x ↦ ok (some (block_of id x), self') ]

  -- Two rounds of the allocation are enough.
  unfoldable pub store_block : TreeStore T R → Block → Outcome (TreeStore T R)
  unfolding allocate_slice write_data set_block_data
  store_block self bl = do
    d ← present bl.block_data
    (b, random') ← present (c.encode_bytes self.random d [])
    (ls, space') ← allocate_slice o 2 (length b) self.space
    file' ← write_data self.file (or_no_places ls) b
    set_block_data (record { space = space'; file = file'; random = random' }) bl.id
        (record { block_metadata = metadata bl; location = or_no_places ls })

  unfoldable pub delete_block : TreeStore T R → Bytes → Outcome (TreeStore T R)
  unfolding load_block_data free_slice sub_tree
  delete_block self id = do
    (bd, self') ← load_block_data self id
    x ← present bd
    space' ← free_slice o x.location self'.space
    t' ← block_tree.delete space'.t id
    ok (record self' { space = record space' { t = t' } })

  -- A block that is not there is a nil pointer.
  unfoldable pub update_block : TreeStore T R → Block → Outcome (ℕ × TreeStore T R)
  unfolding load_block_data set_block_data
  update_block self bl = do
    (bd, self') ← load_block_data self bl.id
    x ← present bd
    self'' ← set_block_data self' bl.id (record x { block_metadata = metadata bl })
    ok (1, self'')
