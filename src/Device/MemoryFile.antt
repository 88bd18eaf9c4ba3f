-- ===== src/Device/MemoryFile.antt =====
-- `inMemoryFile` of storage/tree/persist.go: a growing array of bytes, read and written by lists of
-- places. The capacity of a slice is taken to be its length.
use go_tfhfs.Common.{
  ℕ, zero, suc, ◌+◌, ◌-◌, ◌%◌, ◌^◌, List, [], ◌∷◌, ◌++◌, Bytes, length, take, drop, replicate,
  Outcome, ok, panic, ◌>>=◌, if◌then◌else◌, ltb,
}
use go_tfhfs.Device.Location.{LocationEntry}
pub mod Windows
pub mod Reads
pub mod Rounds
pub mod Writes

-- Go's `copy`: as many bytes as both slices hold.
unfoldable pub overwrite : Bytes → Bytes → Bytes
overwrite [] src = []
overwrite (d ∷ ds) [] = d ∷ ds
overwrite (d ∷ ds) (s ∷ ss) = s ∷ overwrite ds ss

-- `copy(dst[ofs:ofs+size], src)`; the slice expression panics out of range.
unfoldable pub copy_window : Bytes → ℕ → ℕ → Bytes → Outcome Bytes
unfolding overwrite
copy_window dst ofs size src =
    if ltb (length dst) (ofs + size)
    then panic
    else ok (take ofs dst ++ (overwrite (take size (drop ofs dst)) src ++ drop (ofs + size) dst))

-- `b[ofs:]`.
unfoldable pub slice_from : Bytes → ℕ → Outcome Bytes
slice_from b ofs = if ltb (length b) ofs then panic else ok (drop ofs b)

-- `b[ofs:ofs+size]`.
unfoldable pub slice : Bytes → ℕ → ℕ → Outcome Bytes
slice b ofs size = if ltb (length b) (ofs + size) then panic else ok (take size (drop ofs b))

-- The first loop of `ReadData`.
unfoldable pub total_size : List LocationEntry → ℕ
total_size [] = 0
total_size (v ∷ vs) = (v.size + total_size vs) % 2 ^ 64

-- The second loop of `ReadData`: `b` is the result so far.
unfoldable pub read_loop : Bytes → List LocationEntry → ℕ → Bytes → Outcome Bytes
unfolding copy_window slice_from
read_loop file [] ofs b = ok b
read_loop file (v ∷ vs) ofs b = do
  src ← slice_from file v.offset
  b' ← copy_window b ofs v.size src
  read_loop file vs (ofs + v.size) b'

unfoldable pub read_data : Bytes → List LocationEntry → Outcome Bytes
unfolding total_size read_loop
read_data file location = read_loop file location 0 (replicate (total_size location) 0)

-- `bytes.Repeat([]byte{0}, int(n))`; from 2 ^ 63 on the int is negative, and Go panics.
unfoldable pub repeated_zeros : ℕ → Outcome Bytes
repeated_zeros n = if ltb n (2 ^ 63) then ok (replicate n 0) else panic

-- The file grows with zeros up to the end of a place.
unfoldable pub grow_file : Bytes → ℕ → Outcome Bytes
unfolding repeated_zeros
grow_file file eofs =
    if ltb (length file) eofs
    then (do zeros ← repeated_zeros (eofs - length file); ok (file ++ zeros))
    else ok file

-- One round of `WriteData`: the file grows, and takes the next bytes of the data.
unfoldable pub write_entry : Bytes → LocationEntry → ℕ → Bytes → Outcome Bytes
unfolding copy_window slice grow_file
write_entry file v ofs data_bytes = do
  grown ← grow_file file ((v.offset + v.size) % 2 ^ 64)
  chunk ← slice data_bytes ofs v.size
  tail ← slice_from grown v.offset
  copy_window grown v.offset (length tail) chunk

unfoldable pub write_loop : Bytes → List LocationEntry → ℕ → Bytes → Outcome Bytes
unfolding write_entry
write_loop file [] ofs data_bytes = ok file
write_loop file (v ∷ vs) ofs data_bytes = do
  file' ← write_entry file v ofs data_bytes
  write_loop file' vs (ofs + v.size) data_bytes

unfoldable pub write_data : Bytes → List LocationEntry → Bytes → Outcome Bytes
unfolding write_loop
write_data file location data_bytes = write_loop file location 0 data_bytes
