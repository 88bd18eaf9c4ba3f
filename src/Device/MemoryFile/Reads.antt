-- ===== src/Device/MemoryFile/Reads.antt =====
-- Reading places of the file: `ReadData` of storage/tree/persist.go.
use mathlib.Core.List.{append_assoc}
use go_tfhfs.Common.{
  ℕ, zero, suc, ◌+◌, ◌^◌, ◌≤◌, ◌<◌, ◌≡◌, refl, ap, sym, ◌⊎◌, List, [], ◌∷◌, ◌++◌, Bytes, length,
  take, drop, replicate, ok, ge→ltb, arith, All, length-append, take-append, drop-append,
}
use go_tfhfs.Device.Location.{LocationEntry}
use go_tfhfs.Device.MemoryFile.{copy_window, slice_from, total_size, read_loop, read_data}
use go_tfhfs.Device.MemoryFile.Windows.{bytes_at, overwrite-replicate}

abbrev pub sum_sizes : List LocationEntry → ℕ
sum_sizes [] = 0
sum_sizes (v ∷ vs) = v.size + sum_sizes vs

-- The place lies inside the file.
abbrev pub IsInside : Bytes → LocationEntry → Type 0
IsInside file v = v.offset + v.size ≤ length file

abbrev pub Apart : LocationEntry → LocationEntry → Type 0
Apart v w = (v.offset + v.size ≤ w.offset) ⊎ (w.offset + w.size ≤ v.offset)

abbrev pub IsDisjoint : List LocationEntry → Type 0
IsDisjoint [] = Unit
IsDisjoint (v ∷ vs) = All (Apart v) vs × IsDisjoint vs

-- The byte at `i` belongs to none of the places.
abbrev pub IsOutside : ℕ → List LocationEntry → Type 0
IsOutside i = All (λ v. (i < v.offset) ⊎ (v.offset + v.size ≤ i))

-- The bytes of the places, one place after another.
unfoldable pub pieces : Bytes → List LocationEntry → Bytes
pieces file [] = []
pieces file (v ∷ vs) = bytes_at file v.offset v.size ++ pieces file vs

abbrev pub zeros : ℕ → Bytes
zeros n = replicate n 0

zeros_add : (n m : ℕ) → zeros (n + m) ≡ zeros n ++ zeros m
zeros_add zero m = let p : zero + m ≡ m = omega arith in rw p
zeros_add (suc n) m =
    let p : suc n + m ≡ suc (n + m) = omega arith in rw p (ap (◌∷◌ 0) (zeros_add n m))

pub length-zeros : (n : ℕ) → length (zeros n) ≡ n
length-zeros zero = refl
length-zeros (suc n) = ap suc (length-zeros n)

drop_past : (xs ys : Bytes) (n : ℕ) → drop (length xs + n) (xs ++ ys) ≡ drop n ys
drop_past [] ys n = let p : 0 + n ≡ n = omega arith in rw p
drop_past (x ∷ xs) ys n =
    let p : suc (length xs) + n ≡ suc (length xs + n) = omega arith in rw p (drop_past xs ys n)

take-zeros : (n : ℕ) (ys : Bytes) → take n (zeros n ++ ys) ≡ zeros n
take-zeros n ys = rw (length-zeros n) at (take-append (zeros n) ys)

drop-zeros : (n : ℕ) (ys : Bytes) → drop n (zeros n ++ ys) ≡ ys
drop-zeros n ys = rw (length-zeros n) at (drop-append (zeros n) ys)

-- One round of a read replaces the next zeros of the result by the bytes of the place.
copy_window-zeros :
    (file pre : Bytes) (ofs n m : ℕ)
    → ofs + n ≤ length file
    → copy_window (pre ++ zeros (n + m)) (length pre) n (drop ofs file)
      ≡ ok ((pre ++ bytes_at file ofs n) ++ zeros m)
unfolding copy_window
copy_window-zeros file pre ofs n m h =
    rw (ge→ltb (length (pre ++ zeros (n + m))) (length pre + n) fits) (
      ap ok (
        rw
          (
            take-append pre (zeros (n + m)),
            drop-append pre (zeros (n + m)),
            drop_past pre (zeros (n + m)) n,
            zeros_add n m,
            take-zeros n (zeros m),
            drop-zeros n (zeros m),
            overwrite-replicate file ofs n h,
          )
          (sym (append_assoc pre (bytes_at file ofs n) (zeros m)))))
  where
    fits : length pre + n ≤ length (pre ++ zeros (n + m))
    fits = omega (arith, length-append pre (zeros (n + m)), length-zeros (n + m))

pub length-bytes_at : (file : Bytes) (ofs n : ℕ) → length (bytes_at file ofs n) ≡ n
unfolding bytes_at
length-bytes_at file ofs zero = refl
length-bytes_at file ofs (suc n) = ap suc (length-bytes_at file (suc ofs) n)

read_loop-pieces :
    (file : Bytes) (vs : List LocationEntry) (pre : Bytes)
    → All (IsInside file) vs
    → read_loop file vs (length pre) (pre ++ zeros (sum_sizes vs)) ≡ ok (pre ++ pieces file vs)
unfolding read_loop pieces slice_from
read_loop-pieces file [] pre h = refl
read_loop-pieces file (v ∷ vs) pre h =
    let sized : length (pre ++ bytes_at file v.offset v.size) ≡ length pre + v.size = omega (
      arith,
      length-append pre (bytes_at file v.offset v.size),
      length-bytes_at file v.offset v.size,
    ) in
    rw
      (
        ge→ltb (length file) v.offset (omega arith),
        copy_window-zeros file pre v.offset v.size (sum_sizes vs) h.0,
      )
      (rw (
        ← sized,
        read_loop-pieces file vs (pre ++ bytes_at file v.offset v.size) h.1,
        append_assoc pre (bytes_at file v.offset v.size) (pieces file vs),
      ))

total_size-sum : (vs : List LocationEntry) → sum_sizes vs < 2 ^ 64 → total_size vs ≡ sum_sizes vs
unfolding total_size
total_size-sum [] h = refl
total_size-sum (v ∷ vs) h = omega (arith, total_size-sum vs)

-- A read of places inside the file returns their bytes, place after place.
pub read_data-pieces :
    (file : Bytes) (vs : List LocationEntry)
    → All (IsInside file) vs
    → sum_sizes vs < 2 ^ 64
    → read_data file vs ≡ ok (pieces file vs)
unfolding read_data
read_data-pieces file vs h k = rw (total_size-sum vs k) (read_loop-pieces file vs [] h)
