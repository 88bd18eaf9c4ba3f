-- ===== src/Device/Allocator/FreeTrees.antt =====
-- What it means that the two trees of free places of storage/tree/tree.go hold some places.
use go_tfhfs.Common.{
  ◌≡◌, refl, Bool, true, Option, none, some, [], ◌∷◌, Bytes, bytes_eq_self, List, arith,
  if◌then◌else◌, All, inl, inr,
}
use go_tfhfs.IbTree.KeyTree.{View}
use go_tfhfs.Device.Location.{LocationEntry, to_key_so, to_key_os}
use go_tfhfs.Device.MemoryFile.Reads.{IsDisjoint}
use go_tfhfs.Device.Allocator.Places.{IsWhole, key_in, IsAmong}

abbrev pub held : Bool → Option Bytes
held b = if b then some [] else none

-- The free places of a view are `fs`, in both trees.
pub record HasFree (v : View) (fs : List LocationEntry) : Type 0 where
  pub by_size : (k : Bytes) → v (115 ∷ k) ≡ held (key_in to_key_so fs k)
  pub by_offset : (k : Bytes) → v (111 ∷ k) ≡ held (key_in to_key_os fs k)
  pub whole : All IsWhole fs
  pub disjoint : IsDisjoint fs

pub key_in-own :
    (f : LocationEntry → Bytes) (e : LocationEntry) (xs : List LocationEntry)
    → IsAmong e xs
    → key_in f xs (f e) ≡ true
unfolding key_in
key_in-own f e [] m = elim m [ ]
key_in-own f e (x ∷ xs) (inl here) = rw (here, bytes_eq_self (f e)) refl
key_in-own f e (x ∷ xs) (inr m) = ground (arith, key_in-own f e xs m)
