-- ===== src/Fs/BlockKey/Ranges.antt =====
-- What the keys of fs/blockkey.go decode to, and how they are ordered in the tree.
use go_tfhfs.Common.{
  ℕ, suc, ◌/◌, ◌^◌, ◌<◌, ◌≡◌, refl, Bool, true, false, not, ◌||◌, [], ◌∷◌, ◌++◌, Bytes, length,
  take, drop, ok, if◌then◌else◌, ltb, ◌==◌, ◌&&◌, get_or, bytes_lt, arith, take-append, drop-append,
  append_right-nil, length-append, ◌∙◌,
}
use go_tfhfs.Util.{concat_bytes}
use go_tfhfs.Util.BigEndian.{
  uint32_bytes, uint64_bytes, be_number-uint64_bytes, bytes_lt-uint64_bytes,
}
use go_tfhfs.Device.Location.Keys.{length-uint64_bytes}
use go_tfhfs.Fs.BlockKey.{
  ino, sub_type, sub_type_data, new_block_key, new_block_key_offset, bst_none, bst_last, bst_meta,
  bst_dir_name2inode, bst_file_inodefilename, bst_file_offset2extent, bst_namehash_name_block,
  new_block_key_dir_filename, new_block_key_reverse_dir_filename, bst_xattr, fnv_32,
  data_extent_size,
}

new_block_key_lem : (i st : ℕ) (d : Bytes) → new_block_key i st d ≡ uint64_bytes i ++ (st ∷ d)
unfolding new_block_key concat_bytes
new_block_key_lem i st d = rw (append_right-nil d) refl

take_ino : (i : ℕ) (rest : Bytes) → take 8 (uint64_bytes i ++ rest) ≡ uint64_bytes i
take_ino i rest = rw (length-uint64_bytes i) at (take-append (uint64_bytes i) rest)

drop_ino : (i : ℕ) (rest : Bytes) → drop 8 (uint64_bytes i ++ rest) ≡ rest
drop_ino i rest = rw (length-uint64_bytes i) at (drop-append (uint64_bytes i) rest)

bytes_lt_right-nil : (d : Bytes) → bytes_lt d [] ≡ false
unfolding bytes_lt
bytes_lt_right-nil d = refl

get_or-append : (xs ys : Bytes) (y : ℕ) → get_or (xs ++ (y ∷ ys)) (length xs) 0 ≡ y
get_or-append [] ys y = refl
get_or-append (x ∷ xs) ys y = get_or-append xs ys y

drop-append_suc : (xs ys : Bytes) (y : ℕ) → drop (suc (length xs)) (xs ++ (y ∷ ys)) ≡ ys
drop-append_suc [] ys y = refl
drop-append_suc (x ∷ xs) ys y = drop-append_suc xs ys y

-- A key decodes to the inode, the sub-type and the data that it is made of.
pub new_block_key-decodes :
    (i st : ℕ) (d : Bytes)
    → i < 2 ^ 64
    → (ino (new_block_key i st d) ≡ i)
      × (sub_type (new_block_key i st d) ≡ st)
      × (sub_type_data (new_block_key i st d) ≡ ok d)
unfolding ino sub_type sub_type_data
new_block_key-decodes i st d h =
    let eight = length-uint64_bytes i in
    let long = length-append (uint64_bytes i) (st ∷ d) in
    let typed : get_or (uint64_bytes i ++ (st ∷ d)) 8 0 ≡ st =
      rw eight at (get_or-append (uint64_bytes i) d st) in
    let rest : drop 9 (uint64_bytes i ++ (st ∷ d)) ≡ d =
      rw eight at (drop-append_suc (uint64_bytes i) d st) in
    rw (new_block_key_lem i st d) (
      ground (arith, take_ino i (st ∷ d), be_number-uint64_bytes i h),
      ground (arith, typed),
      ground (arith, rest),
    )

-- Keys are ordered by the inode, then by the sub-type, then by the data.
pub bytes_lt-new_block_key :
    (i st j su : ℕ) (d e : Bytes)
    → i < 2 ^ 64
    → j < 2 ^ 64
    → bytes_lt (new_block_key i st d) (new_block_key j su e)
      ≡ (if i == j then (if st == su then bytes_lt d e else ltb st su) else ltb i j)
unfolding bytes_lt
bytes_lt-new_block_key i st j su d e hi hj =
    rw (new_block_key_lem i st d, new_block_key_lem j su e)
      (ground (arith, bytes_lt-uint64_bytes i j (st ∷ d) (su ∷ e)))

-- Whether a key is in a range with both ends, as `DeleteRange` takes it.
abbrev pub in_range : Bytes → Bytes → Bytes → Bool
in_range lo hi key = not (bytes_lt key lo) && not (bytes_lt hi key)

-- Whether a key is in the range of an inode.
abbrev pub in_inode_range : ℕ → Bytes → Bool
in_inode_range i = in_range (new_block_key i bst_none []) (new_block_key i bst_last [])

abbrev is_empty : Bytes → Bool
is_empty [] = true
is_empty (x ∷ xs) = false

bytes_lt_left-nil : (d : Bytes) → bytes_lt [] d ≡ not (is_empty d)
unfolding bytes_lt
bytes_lt_left-nil [] = refl
bytes_lt_left-nil (x ∷ xs) = refl

in_inode_range_lem :
    (i j st : ℕ) (d : Bytes)
    → i < 2 ^ 64
    → j < 2 ^ 64
    → in_inode_range i (new_block_key j st d)
      ≡ (i == j) && (ltb st bst_last || (st == bst_last) && is_empty d)
in_inode_range_lem i j st d hi hj = ground (
  arith,
  bytes_lt-new_block_key j st i bst_none d [] hj hi,
  bytes_lt-new_block_key i bst_last j st [] d hi hj,
  bytes_lt_right-nil d,
  bytes_lt_left-nil d,
)

-- The range of an inode, from the key of `BST_NONE` to that of `BST_LAST` with both ends, holds of
-- the keys that the file system makes, for this and any other inode, exactly those of the inode's
-- own metadata, extended attributes, directory entries, names and extents, and no key of the
-- names of blocks.
pub inode_range_lem :
    (i j dir_ino offset : ℕ) (name : Bytes)
    → i < 2 ^ 64
    → j < 2 ^ 64
    → (in_inode_range i (new_block_key j bst_meta []) ≡ (i == j))
      × (in_inode_range i (new_block_key_dir_filename j name) ≡ (i == j))
      × (in_inode_range i (new_block_key_reverse_dir_filename j dir_ino name) ≡ (i == j))
      × (in_inode_range i (new_block_key_offset j offset) ≡ (i == j))
      × (in_inode_range i (new_block_key j bst_xattr name) ≡ (i == j))
      × (in_inode_range i (new_block_key j bst_namehash_name_block name) ≡ false)
unfolding new_block_key_dir_filename new_block_key_reverse_dir_filename new_block_key_offset
inode_range_lem i j dir_ino offset name hi hj = (
  ground (arith, in_inode_range_lem i j bst_meta [] hi hj),
  ground (
    arith,
    in_inode_range_lem i j bst_dir_name2inode
        (concat_bytes (uint32_bytes (fnv_32 name) ∷ name ∷ [])) hi hj,
  ),
  ground (
    arith,
    in_inode_range_lem i j bst_file_inodefilename (concat_bytes (uint64_bytes dir_ino ∷ name ∷ []))
        hi hj,
  ),
  ground (
    arith,
    in_inode_range_lem i j bst_file_offset2extent (uint64_bytes (offset / data_extent_size)) hi hj,
  ),
  ground (arith, in_inode_range_lem i j bst_xattr name hi hj),
  ground (arith, in_inode_range_lem i j bst_namehash_name_block name hi hj),
)

number_order :
    (a b : ℕ) → a < 2 ^ 64 → b < 2 ^ 64 → bytes_lt (uint64_bytes a) (uint64_bytes b) ≡ ltb a b
number_order a b ha hb =
    rw (← append_right-nil (uint64_bytes a), ← append_right-nil (uint64_bytes b))
      (ground (arith, bytes_lt-uint64_bytes a b [] [] ha hb, bytes_lt_right-nil []))

-- The extents of an inode are ordered by their number in the file.
pub bytes_lt-new_block_key_offset :
    (i o p : ℕ)
    → i < 2 ^ 64
    → o < 2 ^ 64
    → p < 2 ^ 64
    → bytes_lt (new_block_key_offset i o) (new_block_key_offset i p) ≡ ltb (o / 65536) (p / 65536)
unfolding new_block_key_offset
bytes_lt-new_block_key_offset i o p hi ho hp =
    let a = o / 65536 in
    let b = p / 65536 in
    bytes_lt-new_block_key i 33 i 33 (uint64_bytes a) (uint64_bytes b) hi hi
    ∙ ground (arith, number_order a b (omega arith) (omega arith))
