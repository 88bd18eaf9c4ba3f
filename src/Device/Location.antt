-- ===== src/Device/Location.antt =====
-- storage/tree/locationentry.go and storage/tree/locationslice.go: the places on the device, and
-- the keys and block ids that spell them.
use go_tfhfs.Common.{
  ℕ, zero, suc, ◌+◌, ◌-◌, ◌%◌, ◌^◌, List, [], ◌∷◌, ◌++◌, Bytes, length, take, drop, Outcome, ok,
  panic, ◌>>=◌, if◌then◌else◌, ltb, ◌==◌, Bool, ◌*◌, ◌/◌,
}
use go_tfhfs.Util.{concat_bytes}
use go_tfhfs.Util.BigEndian.{be_number, uint64_bytes}
pub mod Keys
pub mod BlockIds

pub record LocationEntry : Type 0 where
  pub size : ℕ
  pub offset : ℕ

pub record OpEntry : Type 0 where
  pub location : LocationEntry
  pub free : Bool

-- The size rounded up to whole disk blocks, in uint64.
unfoldable pub block_size : LocationEntry → ℕ
block_size self =
    if self.size % 512 == 0 then self.size else (self.size + (512 - self.size % 512)) % 2 ^ 64

unfoldable pub to_key_so : LocationEntry → Bytes
unfolding concat_bytes
to_key_so self = concat_bytes (uint64_bytes (block_size self) ∷ uint64_bytes self.offset ∷ [])

unfoldable pub to_key_os : LocationEntry → Bytes
unfolding concat_bytes
to_key_os self = concat_bytes (uint64_bytes self.offset ∷ uint64_bytes (block_size self) ∷ [])

-- `binary.BigEndian.Uint64` reads the first 8 bytes and panics where there are fewer.
unfoldable pub read_uint64 : Bytes → Outcome ℕ
read_uint64 b = if ltb (length b) 8 then panic else ok (be_number 0 (take 8 b))

unfoldable pub location_entry_from_key_so : Bytes → Outcome LocationEntry
unfolding read_uint64
location_entry_from_key_so key = do
  s ← read_uint64 key
  o ← read_uint64 (drop 8 key)
  ok (record { size = s; offset = o })

-- `ToBlockId`: entry `i` is copied to the bytes from 16 * i up to 16 * (i + 1).
unfoldable pub to_block_id : List LocationEntry → Bytes
to_block_id [] = []
to_block_id (le ∷ rest) = to_key_so le ++ to_block_id rest

-- The loop of `NewLocationSliceFromBlockId` over the entries left, each of 16 bytes.
unfoldable pub read_entries : ℕ → Bytes → Outcome (List LocationEntry)
unfolding location_entry_from_key_so
read_entries zero b = ok []
read_entries (suc n) b = do
  le ← location_entry_from_key_so (take 16 b)
  ls ← read_entries n (drop 16 b)
  ok (le ∷ ls)

unfoldable pub location_slice_from_block_id : Bytes → Outcome (List LocationEntry)
unfolding read_entries
location_slice_from_block_id bid =
    if length bid % 16 == 0 then read_entries (length bid / 16) bid else panic
