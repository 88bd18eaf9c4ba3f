-- ===== src/Device/Allocator/Places.antt =====
-- Lists of free places, as the two trees of storage/tree/tree.go hold them.
use go_tfhfs.Common.{
  ◌%◌, ◌^◌, ◌<◌, ◌≡◌, refl, Bool, true, false, List, [], ◌∷◌, Bytes, bytes_eq, bytes_eq_iff,
  if◌then◌else◌, arith, All, inl, inr, Bool-cases, ◌⊎◌,
}
use go_tfhfs.Device.Location.{LocationEntry, block_size}
use go_tfhfs.Device.Location.Keys.{IsOnDevice}

-- A place of whole blocks, on a device below 2 ^ 60 bytes.
pub record IsWhole (x : LocationEntry) : Type 0 where
  pub positive : 0 < x.size
  pub aligned : x.size % 512 ≡ 0
  pub size_fits : x.size < 2 ^ 60
  pub offset_fits : x.offset < 2 ^ 60

-- The blocks that a place takes.
abbrev pub blocks : LocationEntry → LocationEntry
blocks x = record { size = block_size x; offset = x.offset }

-- One of the places has the key.
unfoldable pub key_in : (LocationEntry → Bytes) → List LocationEntry → Bytes → Bool
key_in f [] k = false
key_in f (x ∷ xs) k = if bytes_eq (f x) k then true else key_in f xs k

pub block_size-IsWhole : (x : LocationEntry) → IsWhole x → block_size x ≡ x.size
unfolding block_size
block_size-IsWhole x w = ground (arith, w.aligned)

pub IsWhole-IsOnDevice : (x : LocationEntry) → IsWhole x → IsOnDevice x
IsWhole-IsOnDevice x w = record {
  size_fits = omega (arith, w.size_fits);
  offset_fits = omega (arith, w.offset_fits);
}

-- `e` is one of the places.
abbrev pub IsAmong : LocationEntry → List LocationEntry → Type 0
IsAmong e [] = ⊥
IsAmong e (x ∷ xs) = (x ≡ e) ⊎ IsAmong e xs

pub All-IsAmong :
    (P : LocationEntry → Type 0) (e : LocationEntry) (xs : List LocationEntry)
    → All P xs
    → IsAmong e xs
    → P e
All-IsAmong P e [] h m = elim m [ ]
All-IsAmong P e (x ∷ xs) h (inl same) = rw same at h.0
All-IsAmong P e (x ∷ xs) h (inr m) = All-IsAmong P e xs h.1 m

-- A key that is held is the key of one of the places.
pub key_in-IsAmong :
    (f : LocationEntry → Bytes) (xs : List LocationEntry) (k : Bytes)
    → key_in f xs k ≡ true
    → (e : LocationEntry) × IsAmong e xs × (f e ≡ k)
unfolding key_in
key_in-IsAmong f [] k h = cc
key_in-IsAmong f (x ∷ xs) k h = elim (Bool-cases (bytes_eq (f x) k)) [
  | inl same ↦ (x, inl refl, (bytes_eq_iff (f x) k).0 same)
  | inr other ↦ let (e, m, found) = key_in-IsAmong f xs k (rw other at h) in (e, inr m, found)
]
