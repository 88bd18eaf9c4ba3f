-- ===== src/Device/Allocator/Tests.antt =====
-- Tests of the free places of storage/tree/tree.go, on a transaction of the tree.
use go_tfhfs.Common.{
  List, ◌>>=◌, ℕ, ◌<◌, zero, suc, ◌^◌, ◌+◌, ◌≡◌, refl, inl, inr, Option, true, false, ◌≤◌, none,
  some, Bytes, [], ◌∷◌, Outcome, ok, panic, arith, map_get, pos, bytes_lt, bytes_eq,
}
use go_tfhfs.IbTree.Node.{Node, make_node}
use go_tfhfs.IbTree.Stack.{Stack}
use go_tfhfs.IbTree.Tests.{tree}
use go_tfhfs.IbTree.Walk.Contents.{contents, IsTree}
use go_tfhfs.IbTree.Walk.Paths.{IsFilled}
use go_tfhfs.IbTree.Walk.Lookup.{IsReady}
use go_tfhfs.IbTree.KeyTree.Tests.{Entries, list_tree}
use go_tfhfs.Util.{concat_bytes}
use go_tfhfs.Util.BigEndian.{uint64_bytes, be_bytes, be_number}
use go_tfhfs.IbTree.KeyTree.{KeyTree, IsReadable}
use go_tfhfs.IbTree.KeyTree.Transactions.{
  transaction, transaction-IsReadable, transaction-valid, transaction-view,
}
use go_tfhfs.Device.Location.{LocationEntry, to_key_so, to_key_os}
use go_tfhfs.Device.Superblocks.{super_block_offset, calculate_number_of_super_blocks}
use go_tfhfs.Device.Superblocks.Offsets.{super_block_offset_mono}
use go_tfhfs.Device.Allocator.{TreeBackend, free_size2_offset_tree, allocate_slice, free_slice}
use go_tfhfs.Device.Allocator.Places.{key_in}
use go_tfhfs.Device.Allocator.FreeTrees.{HasFree}
use go_tfhfs.Device.Allocator.Devices.{IsDevice, IsPast, IsClear}
use go_tfhfs.Device.Allocator.Searching.{Found, search_lem, wanted}

-- A device with one superblock, one block in use and one free block.
abbrev pub free_place : LocationEntry
free_place = record { size = 512; offset = 66048 }

-- The leaf of its tree, with the data of a block.
abbrev pub leaf : Bytes → Node
leaf stored =
    make_node true
      (record { key = 98 ∷ 7 ∷ []; value = stored; child_node = none }
        ∷ record { key = 111 ∷ to_key_os free_place; value = []; child_node = none }
        ∷ record { key = 115 ∷ to_key_so free_place; value = []; child_node = none }
        ∷ [])
      none

leaf-IsTree : (stored : Bytes) → IsTree tree 0 (leaf stored)
unfolding bytes_lt
leaf-IsTree stored = (refl, (refl, (refl, (tt, tt))))

leaf-IsFilled : (stored : Bytes) → IsFilled tree 0 (leaf stored)
leaf-IsFilled stored = (refl, (refl, (refl, tt)))

leaf_named : (stored : Bytes) → map_get [] (contents tree 0 (leaf stored)) ≡ none
unfolding map_get bytes_eq
leaf_named stored = refl

-- Nothing is written in these tests.
abbrev no_set : Stack → Bytes → Bytes → Outcome Stack
no_set s k v = panic

abbrev no_delete : Stack → Bytes → Outcome Stack
no_delete s k = panic

abbrev pub device_tree : KeyTree Stack
device_tree = transaction tree no_set no_delete

pub reading : Bytes → IsReadable device_tree
reading stored =
    transaction-IsReadable tree no_set no_delete (leaf stored) 0 (leaf-IsTree stored)
      (leaf-IsFilled stored) (omega arith) (leaf_named stored)

abbrev pub only_root : Bytes → ℕ → Option Node
only_root stored zero = some (leaf stored)
only_root stored (suc j) = none

none_below : (stored : Bytes) (i : ℕ) → 0 < i → only_root stored i ≡ none
none_below stored zero lt = absurd (omega (arith, lt))
none_below stored (suc i) lt = refl

abbrev pub started : Bytes → Stack
started stored = record {
  nodes = only_root stored;
  indexes = λ i. pos 0;
  top = 0;
  maxtop = 0;
  small_count = 0;
}

started-IsReady : (stored : Bytes) → IsReady tree (leaf stored) (started stored)
started-IsReady stored = record {
  coherent = record {
    inside = omega arith;
    empty_below = λ i h. none_below stored i h;
    linked = λ i m e. cc;
  };
  at_root = refl;
  rooted = inr refl;
}

pub started-valid : (stored : Bytes) → (reading stored).valid (started stored)
unfolding reading
started-valid stored =
    transaction-valid tree no_set no_delete (leaf stored) 0 (leaf-IsTree stored)
      (leaf-IsFilled stored) (omega arith) (leaf_named stored) (started stored) refl
      (started-IsReady stored)

pub started-view :
    (stored k : Bytes)
    → (reading stored).view (started stored) k ≡ map_get k (contents tree 0 (leaf stored))
unfolding reading
started-view stored k =
    transaction-view tree no_set no_delete (leaf stored) 0 (leaf-IsTree stored)
      (leaf-IsFilled stored) (omega arith) (leaf_named stored) (started stored) k

one_free : (stored : Bytes) → HasFree ((reading stored).view (started stored)) (free_place ∷ [])
unfolding key_in map_get bytes_eq
one_free stored = record {
  by_size = λ k. ground (arith, started-view stored (115 ∷ k));
  by_offset = λ k. ground (arith, started-view stored (111 ∷ k));
  whole = (
    record {
      positive = omega arith;
      aligned = refl;
      size_fits = omega arith;
      offset_fits = omega arith;
    },
    tt,
  );
  disjoint = (tt, tt);
}

abbrev pub device : Bytes → TreeBackend Stack
device stored = record {
  t = started stored;
  bytes_used = 66048;
  bytes_total = 66560;
  pending = [];
  flushing = false;
}

second_super_block : super_block_offset 1 ≡ 2 ^ 20
unfolding super_block_offset
second_super_block = refl

device-IsPast : IsPast 66560
unfolding super_block_offset
device-IsPast zero small some_size at = omega arith
device-IsPast (suc i) small some_size at = absurd (
    omega
      (arith, super_block_offset_mono 1 (suc i) (omega arith) (omega arith), second_super_block))

pub early-IsClear : (x : LocationEntry) → 65536 ≤ x.offset → x.offset + x.size ≤ 2 ^ 20 → IsClear x
unfolding super_block_offset
early-IsClear x lo hi zero small = inl (omega arith)
early-IsClear x lo hi (suc i) small = inr (
    omega
      (arith, super_block_offset_mono 1 (suc i) (omega arith) (omega arith), second_super_block))

pub device-IsDevice :
    (stored : Bytes) → IsDevice device_tree (reading stored) (device stored) (free_place ∷ [])
device-IsDevice stored = record {
  valid = started-valid stored;
  free = one_free stored;
  inside = (omega arith, tt);
  clear = (early-IsClear free_place (omega arith) (omega arith), tt);
  accounted = refl;
  bounded = omega arith;
  blocks = refl;
  past = device-IsPast;
}

search_lem_example :
    (r : Option Bytes) × (t' : Stack) × ((free_size2_offset_tree device_tree).next_key
        (started [])
        (to_key_so (wanted 300))
      ≡ ok (r, t'))
    × IsDevice device_tree (reading []) (record (device []) { t = t' }) (free_place ∷ [])
    × ((k : Bytes) → (reading []).view t' k ≡ (reading []).view (started []) k)
    × Found 300 (free_place ∷ []) r
search_lem_example =
    search_lem device_tree (reading []) 300 (device []) (free_place ∷ []) (device-IsDevice [])
      (omega arith)

-- Runs of the operations that write, over a list of entries: an allocation on an empty device grows
-- it, takes two blocks after the superblock, and leaves nothing free; what is given back is found
-- by the next allocation.
abbrev empty_device : TreeBackend Entries
empty_device = record { t = []; bytes_used = 0; bytes_total = 0; pending = []; flushing = false }

abbrev allocated : ℕ → TreeBackend Entries → Outcome (Option (List LocationEntry))
allocated size self = do (ls, self') ← allocate_slice list_tree 2 size self; ok ls

first_allocation :
    allocated 1000 empty_device ≡ ok (some (record { size = 1000; offset = 65536 } ∷ []))
unfolding allocate_slice list_tree concat_bytes uint64_bytes be_bytes be_number bytes_eq
    super_block_offset calculate_number_of_super_blocks
first_allocation = refl

abbrev reused : Outcome (Option (List LocationEntry))
reused = do
  (ls, s) ← allocate_slice list_tree 2 1000 empty_device
  s' ← free_slice list_tree (record { size = 1000; offset = 65536 } ∷ []) s
  allocated 600 s'

second_allocation : reused ≡ ok (some (record { size = 600; offset = 65536 } ∷ []))
unfolding allocate_slice free_slice list_tree concat_bytes uint64_bytes be_bytes be_number bytes_eq
    super_block_offset calculate_number_of_super_blocks
second_allocation = refl
