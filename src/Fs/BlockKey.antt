-- ===== src/Fs/BlockKey.antt =====
-- fs/blockkey.go: the keys under which the file system keeps its entries in the tree. Sub-types are
-- their bytes, as in fs/fs_greenpack.go; hashes are FNV-1 of 32 and 64 bits.
use Prim.Native.Nat.{bit_xor}
use go_tfhfs.Common.{
  ℕ, suc, ◌+◌, ◌*◌, ◌/◌, ◌%◌, ◌^◌, List, [], ◌∷◌, ◌++◌, Bytes, length, take, drop, replicate,
  Outcome, ok, panic, ◌>>=◌, if◌then◌else◌, ltb, leb, ◌==◌, get_or,
}
use go_tfhfs.Util.{concat_bytes}
use go_tfhfs.Util.BigEndian.{be_number, uint32_bytes, uint64_bytes}
pub mod Ranges
pub mod Tests

abbrev pub bst_none : ℕ
bst_none = 0

abbrev pub bst_meta : ℕ
bst_meta = 1

abbrev pub bst_xattr : ℕ
bst_xattr = 2

abbrev pub bst_dir_name2inode : ℕ
bst_dir_name2inode = 16

abbrev pub bst_file_inodefilename : ℕ
bst_file_inodefilename = 32

abbrev pub bst_file_offset2extent : ℕ
bst_file_offset2extent = 33

abbrev pub bst_last : ℕ
bst_last = 47

abbrev pub bst_namehash_name_block : ℕ
bst_namehash_name_block = 48

abbrev pub inode_data_length : ℕ
inode_data_length = 8

abbrev pub filename_hash_size : ℕ
filename_hash_size = 4

abbrev pub data_extent_size : ℕ
data_extent_size = 65536

unfoldable pub sub_type : Bytes → ℕ
sub_type self = if leb (length self) inode_data_length then 0 else get_or self inode_data_length 0

unfoldable pub ino : Bytes → ℕ
ino self =
    if ltb (length self) inode_data_length then 0 else be_number 0 (take inode_data_length self)

-- `self[inodeDataLength+1:]`.
unfoldable pub sub_type_data : Bytes → Outcome Bytes
sub_type_data self = if ltb (length self) 9 then panic else ok (drop 9 self)

unfoldable pub filename : Bytes → Outcome Bytes
unfolding sub_type sub_type_data
filename self =
    if sub_type self == bst_dir_name2inode
    then (do
      d ← sub_type_data self
      if ltb (length d) filename_hash_size then panic else ok (drop filename_hash_size d))
    else ok []

unfoldable pub new_block_key : ℕ → ℕ → Bytes → Bytes
unfolding concat_bytes uint64_bytes
new_block_key ino st d = concat_bytes (uint64_bytes ino ∷ (st ∷ []) ∷ d ∷ [])

-- FNV-1 of `hash/fnv`, from a hash so far.
unfoldable pub fnv : (prime modulus : ℕ) → ℕ → Bytes → ℕ
fnv prime modulus h [] = h
fnv prime modulus h (b ∷ bs) = fnv prime modulus (bit_xor (h * prime % modulus) b) bs

unfoldable pub fnv_32 : Bytes → ℕ
unfolding fnv
fnv_32 = fnv 16777619 (2 ^ 32) 2166136261

unfoldable pub fnv_64 : Bytes → ℕ
unfolding fnv
fnv_64 = fnv 1099511628211 (2 ^ 64) 14695981039346656037

unfoldable pub new_block_key_dir_filename : ℕ → Bytes → Bytes
unfolding fnv_32 new_block_key concat_bytes uint32_bytes
new_block_key_dir_filename ino name =
    new_block_key ino bst_dir_name2inode (concat_bytes (uint32_bytes (fnv_32 name) ∷ name ∷ []))

unfoldable pub new_block_key_reverse_dir_filename : ℕ → ℕ → Bytes → Bytes
unfolding new_block_key concat_bytes uint64_bytes
new_block_key_reverse_dir_filename ino dir_ino name =
    new_block_key ino bst_file_inodefilename (concat_bytes (uint64_bytes dir_ino ∷ name ∷ []))

unfoldable pub new_block_key_offset : ℕ → ℕ → Bytes
unfolding new_block_key uint64_bytes
new_block_key_offset ino offset =
    new_block_key ino bst_file_offset2extent (uint64_bytes (offset / data_extent_size))

unfoldable pub new_block_key_name_block : Bytes → Bytes → Bytes
unfolding new_block_key fnv_64
new_block_key_name_block name id = new_block_key (fnv_64 name) bst_namehash_name_block (name ++ id)

unfoldable pub new_block_key_name_end : Bytes → Bytes
unfolding new_block_key fnv_64 concat_bytes
new_block_key_name_end name =
    new_block_key (fnv_64 name) bst_namehash_name_block
      (concat_bytes (name ∷ replicate 33 255 ∷ []))
