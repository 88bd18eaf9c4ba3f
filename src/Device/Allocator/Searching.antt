-- ===== src/Device/Allocator/Searching.antt =====
-- The search for a free place by its size, in `allocateSlice` of storage/tree/tree.go.
use go_tfhfs.Common.{
  ℕ, ◌^◌, ◌<◌, ◌≤◌, ◌≡◌, refl, ◌∙◌, inl, inr, true, Option, some, none, List, ◌∷◌, Bytes, bytes_lt,
  ok, arith, if◌then◌else◌, ltb, ◌==◌, Bool-cases,
}
use go_tfhfs.IbTree.KeyTree.{KeyTree, IsReadable, View, IsNext}
use go_tfhfs.IbTree.SubTree.Laws.{next_key-sub_tree, under}
use go_tfhfs.Device.Location.{LocationEntry, block_size, to_key_so}
use go_tfhfs.Device.Location.Keys.{bytes_lt-to_key_so}
use go_tfhfs.Device.Allocator.{TreeBackend, free_size2_offset_tree}
use go_tfhfs.Device.Allocator.Places.{
  IsWhole, IsAmong, All-IsAmong, key_in, key_in-IsAmong, block_size-IsWhole, IsWhole-IsOnDevice,
}
use go_tfhfs.Device.Allocator.FreeTrees.{HasFree, key_in-own}
use go_tfhfs.Device.Allocator.Devices.{IsDevice}

abbrev pub wanted : ℕ → LocationEntry
wanted size = record { size = size; offset = 0 }

-- The search by size: it gives a free place that is large enough, and fails only if there is none
-- but at the start of the device.
abbrev pub Found : ℕ → List LocationEntry → Option Bytes → Type 0
Found size fs none =
    (e : LocationEntry) → IsAmong e fs → 0 < e.offset → e.size < block_size (wanted size)
Found size fs (some key) =
    (e : LocationEntry) × IsAmong e fs × (to_key_so e ≡ key) × (block_size (wanted size) ≤ e.size)

-- The order of the keys by size.
key_order :
    (size : ℕ) (e : LocationEntry)
    → size < 2 ^ 60
    → IsWhole e
    → bytes_lt (to_key_so (wanted size)) (to_key_so e) ≡ (
        if block_size (wanted size) == e.size
        then ltb 0 e.offset
        else ltb (block_size (wanted size)) e.size)
key_order size e small w =
    bytes_lt-to_key_so (wanted size) e
      (record { size_fits = omega arith; offset_fits = omega arith }) (IsWhole-IsOnDevice e w)
    ∙ rw (block_size-IsWhole e w) refl

is_Found :
    (size : ℕ) (v : View) (fs : List LocationEntry) (r : Option Bytes)
    → size < 2 ^ 60
    → HasFree v fs
    → IsNext (under 115 v) (to_key_so (wanted size)) r
    → Found size fs r
is_Found size v fs none small free next = λ e m pos.
    elim (Bool-cases (ltb e.size (block_size (wanted size)))) [
      | inl lt ↦ ground arith
      | inr ge ↦
          let w = All-IsAmong IsWhole e fs free.whole m in
          let after : bytes_lt (to_key_so (wanted size)) (to_key_so e) ≡ true =
            ground (arith, key_order size e small w) in
          absurd (
            ground (
              arith,
              next (to_key_so e) after,
              free.by_size (to_key_so e),
              key_in-own to_key_so e fs m,
            ))
    ]
is_Found size v fs (some key) small free (up, there, least) =
    let here : key_in to_key_so fs key ≡ true = elim (Bool-cases (key_in to_key_so fs key)) [
      | inl e ↦ e
      | inr e ↦ absurd (there (free.by_size key ∙ rw e refl))
    ] in
    let (e, m, same) = key_in-IsAmong to_key_so fs key here in
    let w = All-IsAmong IsWhole e fs free.whole m in
    (e, m, same, ground (arith, key_order size e small w, same))

module _ {T : Type 0} (o : KeyTree T) (h : IsReadable o) where
  pub same_view :
      (t' : T) (self : TreeBackend T) (fs : List LocationEntry)
      → IsDevice o h self fs
      → h.valid t'
      → ((k : Bytes) → h.view t' k ≡ h.view self.t k)
      → IsDevice o h (record self { t = t' }) fs
  same_view t' self fs d valid same = record {
    valid = valid;
    free = record {
      by_size = λ k. same (115 ∷ k) ∙ d.free.by_size k;
      by_offset = λ k. same (111 ∷ k) ∙ d.free.by_offset k;
      whole = d.free.whole;
      disjoint = d.free.disjoint;
    };
    inside = d.inside;
    clear = d.clear;
    accounted = d.accounted;
    bounded = d.bounded;
    blocks = d.blocks;
    past = d.past;
  }

  -- On a sound device, the search for a size below 2 ^ 60 in the tree of free places by size returns
  -- and leaves the device as it was. A key that it finds is that of a free place which is as large as
  -- the blocks of the size; if it finds none, every free place but one at the start of the device is
  -- smaller.
  pub search_lem :
      (size : ℕ) (self : TreeBackend T) (fs : List LocationEntry)
      → IsDevice o h self fs
      → size < 2 ^ 60
      → (r : Option Bytes) × (t' : T) × ((free_size2_offset_tree o).next_key self.t
            (to_key_so (wanted size))
          ≡ ok (r, t'))
        × IsDevice o h (record self { t = t' }) fs
        × ((k : Bytes) → h.view t' k ≡ h.view self.t k)
        × Found size fs r
  search_lem size self fs d small =
      let (r, t', ran, valid', same, next) =
        next_key-sub_tree o h 115 self.t (to_key_so (wanted size)) d.valid in
      (
        r,
        t',
        ran,
        same_view t' self fs d valid' same,
        same,
        is_Found size (h.view self.t) fs r small d.free next,
      )
