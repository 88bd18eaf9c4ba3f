-- ===== src/Device/Tests.antt =====
-- Runs of the device's parts, and instances of their theorems.
use mathlib.Core.List.{[], ◌∷◌}
use go_tfhfs.Common.{
  ℕ, suc, ◌<◌, ◌≤◌, ◌^◌, ◌≡◌, ◌≢◌, refl, Bytes, ok, panic, some, none, arith, bytes_lt, get_or,
  length, if◌then◌else◌, ltb, ◌==◌, ◌%◌,
}
use go_tfhfs.Device.Location.{
  LocationEntry, block_size, to_key_so, to_block_id, location_slice_from_block_id,
}
use go_tfhfs.Device.Location.Keys.{IsOnDevice, bytes_lt-to_key_so, block_size_bounds}
use go_tfhfs.Device.Location.BlockIds.{rounded, from_block_id-to_block_id, from_block_id_ragged}
use go_tfhfs.Device.Superblocks.{super_block_offset, calculate_number_of_super_blocks}
use go_tfhfs.Device.Superblocks.Count.{
  calculate_number_of_super_blocks_loops, calculate_number_of_super_blocks_exact,
}
use go_tfhfs.Device.MemoryFile.{read_data, write_data, slice_from}
use go_tfhfs.Device.MemoryFile.Reads.{IsOutside, IsDisjoint}
use go_tfhfs.Device.MemoryFile.Writes.{read_data-write_data}

abbrev small : LocationEntry
small = record { size = 700; offset = 512 }

abbrev late : LocationEntry
late = record { size = 1024; offset = 4096 }

small-IsOnDevice : IsOnDevice small
small-IsOnDevice = record { size_fits = omega arith; offset_fits = omega arith }

late-IsOnDevice : IsOnDevice late
late-IsOnDevice = record { size_fits = omega arith; offset_fits = omega arith }

bytes_lt-to_key_so_example : bytes_lt (to_key_so small) (to_key_so late) ≡ (
    if block_size small == block_size late
    then ltb 512 4096
    else ltb (block_size small) (block_size late))
bytes_lt-to_key_so_example = bytes_lt-to_key_so small late small-IsOnDevice late-IsOnDevice

from_block_id-to_block_id_example :
    location_slice_from_block_id (to_block_id (small ∷ late ∷ []))
    ≡ ok (rounded small ∷ rounded late ∷ [])
from_block_id-to_block_id_example =
    from_block_id-to_block_id (small ∷ late ∷ []) (small-IsOnDevice, (late-IsOnDevice, tt))

ragged : length {A = ℕ} (1 ∷ 2 ∷ 3 ∷ []) % 16 ≢ 0
ragged = ground arith

ragged_id_panics : location_slice_from_block_id (1 ∷ 2 ∷ 3 ∷ []) ≡ panic
ragged_id_panics = from_block_id_ragged (1 ∷ 2 ∷ 3 ∷ []) ragged

calculate_number_of_super_blocks_loops_example :
    calculate_number_of_super_blocks 100 (2 ^ 60) ≡ none
calculate_number_of_super_blocks_loops_example =
    calculate_number_of_super_blocks_loops 100 (2 ^ 60) (omega arith)

calculate_number_of_super_blocks_exact_example :
    (n : ℕ) × (calculate_number_of_super_blocks 12 (2 ^ 30) ≡ some (suc n))
    × (n ≤ 10)
    × (super_block_offset n ≤ 2 ^ 30)
    × (2 ^ 30 < super_block_offset (suc n))
calculate_number_of_super_blocks_exact_example =
    calculate_number_of_super_blocks_exact (2 ^ 30) (omega arith) (omega arith)

-- Two places, out of order and with a gap.
abbrev front : LocationEntry
front = record { size = 2; offset = 0 }

abbrev back : LocationEntry
back = record { size = 3; offset = 4 }

places-IsDisjoint : IsDisjoint (back ∷ front ∷ [])
places-IsDisjoint = ground arith

read_data-write_data_example :
    (file' : Bytes) × (write_data (9 ∷ []) (back ∷ front ∷ []) (1 ∷ 2 ∷ 3 ∷ 4 ∷ 5 ∷ []) ≡ ok file')
    × (read_data file' (back ∷ front ∷ []) ≡ ok (1 ∷ 2 ∷ 3 ∷ 4 ∷ 5 ∷ []))
    × ((i : ℕ) → IsOutside i (back ∷ front ∷ []) → get_or file' i 0 ≡ get_or (9 ∷ []) i 0)
read_data-write_data_example =
    read_data-write_data (9 ∷ []) (back ∷ front ∷ []) (1 ∷ 2 ∷ 3 ∷ 4 ∷ 5 ∷ [])
      (omega arith, (omega arith, tt)) places-IsDisjoint refl (omega arith)

written :
    write_data (9 ∷ []) (back ∷ front ∷ []) (1 ∷ 2 ∷ 3 ∷ 4 ∷ 5 ∷ [])
    ≡ ok (4 ∷ 5 ∷ 0 ∷ 0 ∷ 1 ∷ 2 ∷ 3 ∷ [])
unfolding write_data slice_from
written = refl

block_size_bounds_example :
    (700 ≤ block_size small) × (block_size small < 1212) × (block_size small % 512 ≡ 0)
block_size_bounds_example = block_size_bounds small (omega arith)
