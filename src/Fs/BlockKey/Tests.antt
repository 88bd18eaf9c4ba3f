-- ===== src/Fs/BlockKey/Tests.antt =====
-- Runs of the keys of the file system, and instances of their theorems.
use go_tfhfs.Common.{false, ◌≡◌, refl, [], ◌∷◌, ok, if◌then◌else◌, ltb, ◌==◌, bytes_lt, arith}
use go_tfhfs.Util.BigEndian.{be_bytes}
use go_tfhfs.Fs.BlockKey.{
  filename, new_block_key, new_block_key_dir_filename, fnv_32, bst_meta, bst_xattr,
  bst_namehash_name_block, new_block_key_reverse_dir_filename, new_block_key_offset,
}
use go_tfhfs.Fs.BlockKey.Ranges.{bytes_lt-new_block_key, inode_range_lem, in_inode_range}

bytes_lt-new_block_key_example :
    bytes_lt (new_block_key 255 9 []) (new_block_key 256 1 [])
    ≡ (if ◌==◌ 255 256 then (if ◌==◌ 9 1 then bytes_lt [] [] else ltb 9 1) else ltb 255 256)
bytes_lt-new_block_key_example =
    bytes_lt-new_block_key 255 9 256 1 [] [] (omega arith) (omega arith)

inode_range_lem_example :
    (in_inode_range 5 (new_block_key 6 bst_meta []) ≡ ◌==◌ 5 6)
    × (in_inode_range 5 (new_block_key_dir_filename 6 (97 ∷ [])) ≡ ◌==◌ 5 6)
    × (in_inode_range 5 (new_block_key_reverse_dir_filename 6 1 (97 ∷ [])) ≡ ◌==◌ 5 6)
    × (in_inode_range 5 (new_block_key_offset 6 70000) ≡ ◌==◌ 5 6)
    × (in_inode_range 5 (new_block_key 6 bst_xattr (97 ∷ [])) ≡ ◌==◌ 5 6)
    × (in_inode_range 5 (new_block_key 6 bst_namehash_name_block (97 ∷ [])) ≡ false)
inode_range_lem_example = inode_range_lem 5 6 1 70000 (97 ∷ []) (omega arith) (omega arith)

-- The FNV-1 hash of "a", and the name that a directory key carries.
fnv_a : fnv_32 (97 ∷ []) ≡ 84696446
unfolding fnv_32
fnv_a = refl

filename_a : filename (new_block_key_dir_filename 1 (97 ∷ [])) ≡ ok (97 ∷ [])
unfolding filename new_block_key_dir_filename be_bytes
filename_a = refl
