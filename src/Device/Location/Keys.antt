-- ===== src/Device/Location/Keys.antt =====
-- The keys of the free-space trees: storage/tree/locationentry.go.
use go_tfhfs.Common.{
  ℕ, ◌+◌, ◌%◌, ◌^◌, ◌≤◌, ◌<◌, ◌≡◌, refl, ap, [], ◌++◌, Bytes, length, drop, ok, if◌then◌else◌, ltb,
  ◌==◌, bytes_lt, bytes_lt_irrefl, arith, take-append, drop-append, append_right-nil, length-append,
}
use go_tfhfs.Util.BigEndian.{
  uint64_bytes, length-be_bytes, be_number-uint64_bytes, bytes_lt-uint64_bytes,
}
use go_tfhfs.Device.Location.{
  LocationEntry, block_size, to_key_so, to_key_os, read_uint64, location_entry_from_key_so,
}

pub record IsOnDevice (le : LocationEntry) : Type 0 where
  pub size_fits : le.size + 511 < 2 ^ 64
  pub offset_fits : le.offset < 2 ^ 64

-- Where rounding does not overflow, the rounded size is the least multiple of 512 that holds the
-- size.
pub block_size_bounds :
    (le : LocationEntry)
    → le.size + 511 < 2 ^ 64
    → (le.size ≤ block_size le) × (block_size le < le.size + 512) × (block_size le % 512 ≡ 0)
unfolding block_size
block_size_bounds le h = ground arith

pub block_size-lt : (le : LocationEntry) → le.size + 511 < 2 ^ 64 → block_size le < 2 ^ 64
unfolding block_size
block_size-lt le h = ground arith

pub length-uint64_bytes : (n : ℕ) → length (uint64_bytes n) ≡ 8
unfolding uint64_bytes
length-uint64_bytes n = length-be_bytes 8 n

-- A number at the front of a slice is read back.
pub read_uint64-uint64_bytes :
    (n : ℕ) (rest : Bytes) → n < 2 ^ 64 → read_uint64 (uint64_bytes n ++ rest) ≡ ok n
unfolding read_uint64 uint64_bytes
read_uint64-uint64_bytes n rest h = ground (
  arith,
  be_number-uint64_bytes n,
  length-append (uint64_bytes n) rest,
  length-be_bytes 8 n,
  take-append (uint64_bytes n) rest,
)

pub to_key_so_lem :
    (le : LocationEntry) → to_key_so le ≡ uint64_bytes (block_size le) ++ uint64_bytes le.offset
unfolding to_key_so
to_key_so_lem le =
    ap (λ t. uint64_bytes (block_size le) ++ t) (append_right-nil (uint64_bytes le.offset))

pub length-to_key_so : (le : LocationEntry) → length (to_key_so le) ≡ 16
length-to_key_so le = omega (
  arith,
  ap length (to_key_so_lem le),
  length-append (uint64_bytes (block_size le)) (uint64_bytes le.offset),
  length-uint64_bytes (block_size le),
  length-uint64_bytes le.offset,
)

drop_8 : (n : ℕ) (rest : Bytes) → drop 8 (uint64_bytes n ++ rest) ≡ rest
drop_8 n rest = rw (length-uint64_bytes n) at (drop-append (uint64_bytes n) rest)

-- For an entry whose fields fit 64 bits after rounding, decoding its (size, offset) key gives the
-- entry with its size rounded up to blocks.
pub from_key_so-to_key_so :
    (le : LocationEntry)
    → IsOnDevice le
    → location_entry_from_key_so (to_key_so le)
      ≡ ok (record { size = block_size le; offset = le.offset })
unfolding location_entry_from_key_so
from_key_so-to_key_so le v = rw (to_key_so_lem le) (
    rw
      (read_uint64-uint64_bytes (block_size le) (uint64_bytes le.offset)
        (block_size-lt le v.size_fits))
      (rw (drop_8 (block_size le) (uint64_bytes le.offset)) (
        rw (← append_right-nil (uint64_bytes le.offset))
          (rw (read_uint64-uint64_bytes le.offset [] v.offset_fits) refl))))

bytes_lt_pair :
    (n p m q : ℕ)
    → n < 2 ^ 64
    → p < 2 ^ 64
    → m < 2 ^ 64
    → q < 2 ^ 64
    → bytes_lt (uint64_bytes n ++ (uint64_bytes p ++ [])) (uint64_bytes m ++ (uint64_bytes q ++ []))
      ≡ (if n == m then ltb p q else ltb n m)
bytes_lt_pair n p m q hn hp hm hq = ground (
  arith,
  bytes_lt-uint64_bytes n m (uint64_bytes p ++ []) (uint64_bytes q ++ []),
  bytes_lt-uint64_bytes p q [] [],
  bytes_lt_irrefl [],
)

-- For entries whose fields fit 64 bits after rounding, the byte order of the (size, offset) keys
-- compares the rounded sizes first and then the offsets.
pub bytes_lt-to_key_so :
    (a b : LocationEntry)
    → IsOnDevice a
    → IsOnDevice b
    → bytes_lt (to_key_so a) (to_key_so b) ≡ (
        if block_size a == block_size b
        then ltb a.offset b.offset
        else ltb (block_size a) (block_size b))
unfolding to_key_so
bytes_lt-to_key_so a b va vb =
    bytes_lt_pair (block_size a) a.offset (block_size b) b.offset (block_size-lt a va.size_fits)
      va.offset_fits (block_size-lt b vb.size_fits) vb.offset_fits

-- For entries whose fields fit 64 bits after rounding, the byte order of the (offset, size) keys
-- compares the offsets first and then the rounded sizes.
pub bytes_lt-to_key_os :
    (a b : LocationEntry)
    → IsOnDevice a
    → IsOnDevice b
    → bytes_lt (to_key_os a) (to_key_os b)
      ≡ (if a.offset == b.offset then ltb (block_size a) (block_size b) else ltb a.offset b.offset)
unfolding to_key_os
bytes_lt-to_key_os a b va vb =
    bytes_lt_pair a.offset (block_size a) b.offset (block_size b) va.offset_fits
      (block_size-lt a va.size_fits) vb.offset_fits (block_size-lt b vb.size_fits)
