-- ===== src/Device/MemoryFile/Writes.antt =====
-- Writing places of the file, and reading them back: `WriteData` of storage/tree/persist.go.
use go_tfhfs.Common.{
  ℕ, ◌+◌, ◌-◌, ◌^◌, ◌≤◌, ◌<◌, ◌≡◌, refl, ap, List, [], ◌∷◌, Bytes, length, ok, arith, get_or, All,
  take_of_length-le,
}
use go_tfhfs.Device.Location.{LocationEntry}
use go_tfhfs.Device.MemoryFile.{read_data, write_loop, write_data}
use go_tfhfs.Device.MemoryFile.Windows.{bytes_at, bytes_at-shift, bytes_at-append, take-drop}
use go_tfhfs.Device.MemoryFile.Reads.{
  sum_sizes, IsInside, Apart, IsDisjoint, IsOutside, pieces, read_data-pieces,
}
use go_tfhfs.Device.MemoryFile.Rounds.{IsWritten, write_entry-IsWritten}

-- What a whole write does: the places hold the data, and nothing else changes.
abbrev IsStored : Bytes → List LocationEntry → ℕ → Bytes → Bytes → Type 0
IsStored file vs ofs data_bytes file' =
    (length file ≤ length file')
    × All (IsInside file') vs
    × ((i : ℕ) → IsOutside i vs → get_or file' i 0 ≡ get_or file i 0)
    × (pieces file' vs ≡ bytes_at data_bytes ofs (sum_sizes vs))

IsInside-longer :
    (file file' : Bytes) (vs : List LocationEntry)
    → length file ≤ length file'
    → All (IsInside file) vs
    → All (IsInside file') vs
IsInside-longer file file' [] h k = tt
IsInside-longer file file' (v ∷ vs) h k = (omega arith, IsInside-longer file file' vs h k.1)

IsOutside-Apart :
    (v : LocationEntry) (i : ℕ) (vs : List LocationEntry)
    → v.offset ≤ i
    → i < v.offset + v.size
    → All (Apart v) vs
    → IsOutside i vs
IsOutside-Apart v i [] lo hi a = tt
IsOutside-Apart v i (w ∷ vs) lo hi a = (ground arith, IsOutside-Apart v i vs lo hi a.1)

abbrev pub IsAddressable : List LocationEntry → Type 0
IsAddressable = All (λ v. v.offset + v.size < 2 ^ 63)

IsStored-cons :
    (file file₁ file₂ : Bytes) (v : LocationEntry) (vs : List LocationEntry) (ofs : ℕ)
    (data_bytes : Bytes)
    → All (Apart v) vs
    → IsWritten file v ofs data_bytes file₁
    → IsStored file₁ vs (ofs + v.size) data_bytes file₂
    → IsStored file (v ∷ vs) ofs data_bytes file₂
unfolding pieces
IsStored-cons file file₁ file₂ v vs ofs data_bytes apart one more =
    (omega arith, (omega arith, more.1), outside, placed)
  where
    kept : (i : ℕ) → v.offset ≤ i → i < v.offset + v.size → get_or file₂ i 0 ≡ get_or file₁ i 0
    kept i lo hi = more.2 i (IsOutside-Apart v i vs lo hi apart)

    outside : (i : ℕ) → IsOutside i (v ∷ vs) → get_or file₂ i 0 ≡ get_or file i 0
    outside i h = ground (arith, more.2 i h.1, one.2 i)

    here : (i : ℕ) → i < v.size → get_or file₂ (v.offset + i) 0 ≡ get_or data_bytes (ofs + i) 0
    here i lt =
        let back : v.offset + i - v.offset ≡ i = omega arith in
        ground (arith, back, kept (v.offset + i), one.2 (v.offset + i))

    placed : pieces file₂ (v ∷ vs) ≡ bytes_at data_bytes ofs (v.size + sum_sizes vs)
    placed =
        rw (bytes_at-append data_bytes ofs v.size (sum_sizes vs), more.3)
          (rw (bytes_at-shift file₂ data_bytes v.offset ofs v.size here))

write_loop-IsStored :
    (file : Bytes) (vs : List LocationEntry) (ofs : ℕ) (data_bytes : Bytes)
    → IsAddressable vs
    → IsDisjoint vs
    → ofs + sum_sizes vs ≤ length data_bytes
    → (file' : Bytes) × (write_loop file vs ofs data_bytes ≡ ok file')
      × IsStored file vs ofs data_bytes file'
unfolding write_loop pieces bytes_at
write_loop-IsStored file [] ofs data_bytes fits apart enough =
    (file, refl, (omega arith, tt, λ i h. refl, refl))
write_loop-IsStored file (v ∷ vs) ofs data_bytes fits apart enough =
    let (file₁, ran, one) = write_entry-IsWritten file v ofs data_bytes fits.0 (omega arith) in
    let (file₂, rest, more) =
      write_loop-IsStored file₁ vs (ofs + v.size) data_bytes fits.1 apart.1 (omega arith) in
    (file₂, rw (ran, rest), IsStored-cons file file₁ file₂ v vs ofs data_bytes apart.0 one more)

bytes_at_all : (xs : Bytes) → bytes_at xs 0 (length xs) ≡ xs
bytes_at_all xs =
    rw (← take-drop xs 0 (length xs) (omega arith)) (take_of_length-le (length xs) xs (omega arith))

pub write_data-IsStored :
    (file : Bytes) (vs : List LocationEntry) (data_bytes : Bytes)
    → IsAddressable vs
    → IsDisjoint vs
    → length data_bytes ≡ sum_sizes vs
    → (file' : Bytes) × (write_data file vs data_bytes ≡ ok file')
      × (length file ≤ length file')
      × All (IsInside file') vs
      × ((i : ℕ) → IsOutside i vs → get_or file' i 0 ≡ get_or file i 0)
      × (pieces file' vs ≡ data_bytes)
unfolding write_data
write_data-IsStored file vs data_bytes fits apart exact =
    let (file', ran, stored) = write_loop-IsStored file vs 0 data_bytes fits apart (omega arith) in
    (file', ran, stored.0, stored.1, stored.2, rw (stored.3, ← exact) (bytes_at_all data_bytes))

-- Writing data to disjoint places that hold exactly the data, with ends below 2 ^ 63 and a total size
-- below 2 ^ 64, succeeds; reading the same places gives the data back, and every byte outside of the places is as
-- before (where the file was shorter, 0).
pub read_data-write_data :
    (file : Bytes) (vs : List LocationEntry) (data_bytes : Bytes)
    → IsAddressable vs
    → IsDisjoint vs
    → length data_bytes ≡ sum_sizes vs
    → sum_sizes vs < 2 ^ 64
    → (file' : Bytes) × (write_data file vs data_bytes ≡ ok file')
      × (read_data file' vs ≡ ok data_bytes)
      × ((i : ℕ) → IsOutside i vs → get_or file' i 0 ≡ get_or file i 0)
unfolding write_data
read_data-write_data file vs data_bytes fits apart exact small =
    let (file', ran, stored) = write_loop-IsStored file vs 0 data_bytes fits apart (omega arith) in
    (
      file',
      ran,
      rw (read_data-pieces file' vs stored.1 small, stored.3, ← exact)
          (ap ok (bytes_at_all data_bytes)),
      stored.2,
    )
