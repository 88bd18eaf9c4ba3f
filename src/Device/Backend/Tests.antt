-- ===== src/Device/Backend/Tests.antt =====
-- Tests of the blocks of storage/tree/tree.go, on a transaction of the tree.
use go_tfhfs.Common.{
  ℕ, ◌≤◌, ◌≡◌, refl, ap, inl, Option, none, some, List, [], ◌∷◌, Bytes, ok, arith, All, length,
  get_or, map_get, bytes_eq, zero, suc,
}
use go_tfhfs.Codec.{Codec, Wire, codec_chain}
use go_tfhfs.Storage.Types.{
  BlockMetadata, BlockStatus, bs_unset, bs_normal, bs_missing, bs_want_normal, bs_weak,
  bs_want_weak, status_byte,
}
use go_tfhfs.IbTree.Stack.{Stack}
use go_tfhfs.Device.Location.{LocationEntry, block_size}
use go_tfhfs.Device.MemoryFile.{write_data}
use go_tfhfs.Device.MemoryFile.Reads.{IsInside, IsOutside, pieces}
use go_tfhfs.Device.MemoryFile.Writes.{write_data-IsStored}
use go_tfhfs.Device.Allocator.Places.{blocks}
use go_tfhfs.Device.Allocator.Tests.{
  free_place, device_tree, reading, started, started-view, device, early-IsClear, device-IsDevice,
}
use go_tfhfs.Device.Backend.{BlockData, TreeStore, get_block_data}
use go_tfhfs.Device.Backend.Rows.{Row, IsRow, IsStore, entry_of, entries_of}
use go_tfhfs.Device.Backend.Reads.{get_block_data_lem, row_data}

-- A marshalling of block data.
abbrev numbers : List LocationEntry → Bytes
numbers [] = []
numbers (le ∷ ls) = le.size ∷ le.offset ∷ numbers ls

abbrev places_of : Bytes → List LocationEntry
places_of [] = []
places_of (n ∷ []) = []
places_of (n ∷ m ∷ ns) = record { size = n; offset = m } ∷ places_of ns

places_of-numbers : (ls : List LocationEntry) → places_of (numbers ls) ≡ ls
places_of-numbers [] = refl
places_of-numbers (le ∷ ls) = ap (◌∷◌ le) (places_of-numbers ls)

abbrev status_of : ℕ → BlockStatus
status_of zero = bs_unset
status_of (suc zero) = bs_normal
status_of (suc (suc zero)) = bs_missing
status_of (suc (suc (suc zero))) = bs_want_normal
status_of (suc (suc (suc (suc zero)))) = bs_weak
status_of (suc (suc (suc (suc (suc n))))) = bs_want_weak

status_of-status_byte : (s : BlockStatus) → status_of (status_byte s) ≡ s
status_of-status_byte bs_unset = refl
status_of-status_byte bs_normal = refl
status_of-status_byte bs_missing = refl
status_of-status_byte bs_want_normal = refl
status_of-status_byte bs_weak = refl
status_of-status_byte bs_want_weak = refl

abbrev unmarshal_numbers : Bytes → Option BlockData
unmarshal_numbers [] = none
unmarshal_numbers (n ∷ []) = none
unmarshal_numbers (n ∷ s ∷ ns) = some (record {
  block_metadata = record { ref_count = n; status = status_of s };
  location = places_of ns;
})

abbrev wire : Wire BlockData
wire = record {
  marshal = λ bd.
      bd.block_metadata.ref_count ∷ status_byte bd.block_metadata.status ∷ numbers bd.location;
  unmarshal = unmarshal_numbers;
}

wire_round_trip : (bd : BlockData) → wire.unmarshal (wire.marshal bd) ≡ some bd
wire_round_trip bd =
    rw (places_of-numbers bd.location, status_of-status_byte bd.block_metadata.status) refl

abbrev plain : Codec ℕ
plain = codec_chain []

-- The place of the block of three bytes.
abbrev place : LocationEntry
place = record { size = 3; offset = 65536 }

abbrev block_metadata : BlockMetadata
block_metadata = record { ref_count = 1; status = bs_normal }

abbrev row : Row
row = record { block_metadata = block_metadata; location = place ∷ []; block_data = 1 ∷ 2 ∷ 3 ∷ [] }

abbrev rows : List (Bytes × Row)
rows = (7 ∷ [], row) ∷ []

-- The file after the block has been written.
written :
    (file : Bytes) × (write_data [] (place ∷ []) (1 ∷ 2 ∷ 3 ∷ []) ≡ ok file)
    × (◌≤◌ 0 (length file))
    × All (IsInside file) (place ∷ [])
    × ((i : ℕ) → IsOutside i (place ∷ []) → get_or file i 0 ≡ get_or [] i 0)
    × (pieces file (place ∷ []) ≡ 1 ∷ 2 ∷ 3 ∷ [])
written = write_data-IsStored [] (place ∷ []) (1 ∷ 2 ∷ 3 ∷ []) (omega arith, tt) (tt, tt) refl

abbrev stored : Bytes
stored = wire.marshal (entry_of row)

abbrev store : TreeStore Stack ℕ
store = record { space = device stored; file = written.0; random = 0 }

table_lem :
    (id : Bytes)
    → (reading stored).view (started stored) (98 ∷ id) ≡ entries_of wire (map_get id rows)
unfolding map_get bytes_eq
table_lem id = ground (arith, started-view stored (98 ∷ id))

row-IsRow :
    IsRow device_tree (reading stored) plain wire store.space store.file (free_place ∷ []) row
unfolding block_size codec_chain
row-IsRow = record {
  given = (
    record {
      positive = omega arith;
      small = omega arith;
      used = (omega arith, (inl (omega arith), tt));
      clear = early-IsClear (blocks place) (omega arith) (omega arith);
    },
    tt,
  );
  disjoint = (tt, tt);
  inside = written.3;
  sized = omega arith;
  decodes = ap (λ b. plain.decode_bytes b []) written.5;
}

store-IsStore : IsStore device_tree (reading stored) plain wire store (free_place ∷ []) rows
store-IsStore = record {
  device = device-IsDevice stored;
  table = table_lem;
  rows_held = (row-IsRow, tt);
  rows_apart = (tt, tt);
}

get_block_data_lem_example :
    (self' : TreeStore Stack ℕ) × (get_block_data device_tree plain wire store (7 ∷ [])
      ≡ ok (row_data (map_get (7 ∷ []) rows), self'))
    × IsStore device_tree (reading stored) plain wire self' (free_place ∷ []) rows
    × (self'.space.bytes_total ≡ 66560)
get_block_data_lem_example =
    get_block_data_lem device_tree (reading stored) plain wire wire_round_trip store
      (free_place ∷ []) rows (7 ∷ []) store-IsStore

there : map_get (7 ∷ []) rows ≡ some row
unfolding map_get bytes_eq
there = refl
