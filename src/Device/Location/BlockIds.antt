-- ===== src/Device/Location/BlockIds.antt =====
-- Block ids spell lists of places: storage/tree/locationslice.go.
use go_tfhfs.Common.{
  ◌*◌, ◌%◌, ◌≡◌, refl, List, [], ◌∷◌, ◌++◌, Bytes, length, map, take, drop, ok, panic, arith,
  take-append, drop-append, length-append, All, ◌≢◌,
}
use go_tfhfs.Device.Location.{
  LocationEntry, block_size, to_key_so, to_block_id, read_entries, location_slice_from_block_id,
}
use go_tfhfs.Device.Location.Keys.{IsOnDevice, length-to_key_so, from_key_so-to_key_so}

abbrev pub rounded : LocationEntry → LocationEntry
rounded le = record { size = block_size le; offset = le.offset }

length-to_block_id : (ls : List LocationEntry) → length (to_block_id ls) ≡ 16 * length ls
unfolding to_block_id
length-to_block_id [] = refl
length-to_block_id (le ∷ ls) = omega (
  arith,
  length-append (to_key_so le) (to_block_id ls),
  length-to_key_so le,
  length-to_block_id ls,
)

read_entries-to_block_id :
    (ls : List LocationEntry)
    → All IsOnDevice ls
    → read_entries (length ls) (to_block_id ls) ≡ ok (map rounded ls)
unfolding read_entries to_block_id
read_entries-to_block_id [] h = refl
read_entries-to_block_id (le ∷ ls) h =
    let t : take 16 (to_key_so le ++ to_block_id ls) ≡ to_key_so le =
      rw (length-to_key_so le) at (take-append (to_key_so le) (to_block_id ls)) in
    let d : drop 16 (to_key_so le ++ to_block_id ls) ≡ to_block_id ls =
      rw (length-to_key_so le) at (drop-append (to_key_so le) (to_block_id ls)) in
    rw (t, d, from_key_so-to_key_so le h.0, read_entries-to_block_id ls h.1)

-- A list of places whose fields fit 64 bits after rounding survives the trip through its block id,
-- with the sizes rounded up to blocks.
pub from_block_id-to_block_id :
    (ls : List LocationEntry)
    → All IsOnDevice ls
    → location_slice_from_block_id (to_block_id ls) ≡ ok (map rounded ls)
unfolding location_slice_from_block_id
from_block_id-to_block_id ls h =
    ground (arith, length-to_block_id ls, read_entries-to_block_id ls h)

-- A block id whose length is no multiple of 16 is refused.
pub from_block_id_ragged :
    (bid : Bytes) → length bid % 16 ≢ 0 → location_slice_from_block_id bid ≡ panic
unfolding location_slice_from_block_id
from_block_id_ragged bid h = ground arith
