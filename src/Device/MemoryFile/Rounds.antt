-- ===== src/Device/MemoryFile/Rounds.antt =====
-- One round of `WriteData` of storage/tree/persist.go.
use native.Mathlib.Nat.{mod-eq_of_lt}
use go_tfhfs.Common.{
  ℕ, ◌+◌, ◌-◌, ◌^◌, ◌%◌, ◌≤◌, ◌<◌, ◌≡◌, ◌++◌, ◌&&◌, Bytes, length, take, drop, ok, ge→ltb,
  if◌then◌else◌, ltb, leb, arith, get_or, length-append, length-take, length-drop,
}
use go_tfhfs.Device.Location.{LocationEntry}
use go_tfhfs.Device.MemoryFile.{
  overwrite, copy_window, slice, slice_from, repeated_zeros, grow_file, write_entry,
}
use go_tfhfs.Device.MemoryFile.Windows.{
  get_or-append, get_or-take, get_or-drop, get_or-grown, length-overwrite, get_or-overwrite,
}
use go_tfhfs.Device.MemoryFile.Reads.{IsInside, zeros, length-zeros}

-- `dst` with `src` copied to the window of `n` bytes at `o`.
abbrev patched : Bytes → ℕ → ℕ → Bytes → Bytes
patched dst o n src = take o dst ++ (overwrite (take n (drop o dst)) src ++ drop (o + n) dst)

get_or-patched :
    (dst : Bytes) (o n : ℕ) (src : Bytes) (i : ℕ)
    → o + n ≤ length dst
    → length src ≤ n
    → get_or (patched dst o n src) i 0
      ≡ (if leb o i && ltb i (o + length src) then get_or src (i - o) 0 else get_or dst i 0)
get_or-patched dst o n src i h k = ground (
  arith,
  get_or-append (take o dst) (overwrite (take n (drop o dst)) src ++ drop (o + n) dst) i,
  get_or-append (overwrite (take n (drop o dst)) src) (drop (o + n) dst) (i - length (take o dst)),
  length-take o dst,
  length-overwrite (take n (drop o dst)) src,
  length-take n (drop o dst),
  length-drop o dst,
  get_or-take o dst i,
  get_or-overwrite (take n (drop o dst)) src (i - o),
  get_or-take n (drop o dst) (i - o),
  get_or-drop o dst (i - o),
  get_or-drop (o + n) dst (i - o - n),
)

length-patched :
    (dst : Bytes) (o n : ℕ) (src : Bytes)
    → o + n ≤ length dst
    → length (patched dst o n src) ≡ length dst
length-patched dst o n src h = omega (
  arith,
  length-append (take o dst) (overwrite (take n (drop o dst)) src ++ drop (o + n) dst),
  length-append (overwrite (take n (drop o dst)) src) (drop (o + n) dst),
  length-take o dst,
  length-overwrite (take n (drop o dst)) src,
  length-take n (drop o dst),
  length-drop o dst,
  length-drop (o + n) dst,
)

-- The file after one round of a write of `chunk` at `o`.
abbrev grown : Bytes → ℕ → Bytes
grown file eofs = if ltb (length file) eofs then file ++ zeros (eofs - length file) else file

length-grown :
    (file : Bytes) (eofs : ℕ)
    → (length file ≤ length (grown file eofs)) × (eofs ≤ length (grown file eofs))
length-grown file eofs =
    ground
      (arith, length-append file (zeros (eofs - length file)), length-zeros (eofs - length file))

grow_file_lem :
    (file : Bytes) (eofs : ℕ) → eofs < 2 ^ 63 → grow_file file eofs ≡ ok (grown file eofs)
unfolding grow_file repeated_zeros
grow_file_lem file eofs small = ground arith

get_or-grown_file : (file : Bytes) (eofs i : ℕ) → get_or (grown file eofs) i 0 ≡ get_or file i 0
get_or-grown_file file eofs i = ground (arith, get_or-grown file (eofs - length file) i)

-- What one round of `WriteData` does to the bytes of the file.
abbrev pub IsWritten : Bytes → LocationEntry → ℕ → Bytes → Bytes → Type 0
IsWritten file v ofs data_bytes file' =
    (length file ≤ length file')
    × IsInside file' v
    × ((i : ℕ)
        → get_or file' i 0 ≡ (
            if leb v.offset i && ltb i (v.offset + v.size)
            then get_or data_bytes (ofs + (i - v.offset)) 0
            else get_or file i 0))

pub write_entry-IsWritten :
    (file : Bytes) (v : LocationEntry) (ofs : ℕ) (data_bytes : Bytes)
    → v.offset + v.size < 2 ^ 63
    → ofs + v.size ≤ length data_bytes
    → (file' : Bytes) × (write_entry file v ofs data_bytes ≡ ok file')
      × IsWritten file v ofs data_bytes file'
unfolding write_entry slice slice_from copy_window
write_entry-IsWritten file v ofs data_bytes fits enough = (
  patched dst v.offset rest chunk,
  ran,
  (
    omega (arith, dst_length, length-grown file (v.offset + v.size)),
    omega (arith, dst_length, length-grown file (v.offset + v.size)),
    λ i. byte i,
  ),
)
  where
    dst : Bytes
    dst = grown file (v.offset + v.size)

    rest : ℕ
    rest = length (drop v.offset dst)

    chunk : Bytes
    chunk = take v.size (drop ofs data_bytes)

    window : v.offset + rest ≤ length dst
    window = omega (arith, length-drop v.offset dst, length-grown file (v.offset + v.size))

    dst_length : length (patched dst v.offset rest chunk) ≡ length dst
    dst_length = length-patched dst v.offset rest chunk window

    eofs_fits : (v.offset + v.size) % 2 ^ 64 ≡ v.offset + v.size
    eofs_fits = mod-eq_of_lt (omega (arith, fits))

    ran : write_entry file v ofs data_bytes ≡ ok (patched dst v.offset rest chunk)
    ran = rw (
      eofs_fits,
      grow_file_lem file (v.offset + v.size) fits,
      ge→ltb (length data_bytes) (ofs + v.size) enough,
      ge→ltb (length dst) v.offset (omega (arith, window)),
      ge→ltb (length dst) (v.offset + rest) window,
    )

    chunk_length : length chunk ≡ v.size
    chunk_length =
        omega (arith, length-take v.size (drop ofs data_bytes), length-drop ofs data_bytes)

    byte :
        (i : ℕ)
        → get_or (patched dst v.offset rest chunk) i 0 ≡ (
            if leb v.offset i && ltb i (v.offset + v.size)
            then get_or data_bytes (ofs + (i - v.offset)) 0
            else get_or file i 0)
    byte i =
        rw
          (
            get_or-patched dst v.offset rest chunk i window (
                omega (
                  arith,
                  chunk_length,
                  length-drop v.offset dst,
                  length-grown file (v.offset + v.size),
                )),
            chunk_length,
          )
          (ground (
            arith,
            get_or-take v.size (drop ofs data_bytes) (i - v.offset),
            get_or-drop ofs data_bytes (i - v.offset),
            get_or-grown_file file (v.offset + v.size) i,
          ))
