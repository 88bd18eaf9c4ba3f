-- ===== src/Fs/Merge/Tests.antt =====
-- A local merge of a few changes.
use go_tfhfs.Common.{
  ◌≡◌, refl, true, none, some, List, [], ◌∷◌, Bytes, bytes_eq, map_get, map_set, map_delete,
  Outcome, ok, get_or,
}
use go_tfhfs.Fs.Merge.{InodeMeta, merge_to3}
use go_tfhfs.IbTree.Delta.{Change}
use go_tfhfs.IbTree.KeyTree.Tests.{Entries, list_tree}

-- Metadata of which only the ctime is kept, as a byte.
abbrev meta_of : Bytes → InodeMeta
meta_of v = record {
  st_mode = 0;
  st_rdev = 0;
  st_uid = 0;
  st_gid = 0;
  st_atime_ns = 0;
  st_ctime_ns = get_or v 0 0;
  st_mtime_ns = 0;
  st_size = 0;
  st_nlink = 1;
  parent_ino = 0;
  contents = [];
}

abbrev decode_meta : Bytes → Outcome InodeMeta
decode_meta v = ok (meta_of v)

-- The range of an inode is not deleted in a local merge.
abbrev no_range : Entries → Bytes → Bytes → Outcome Entries
no_range t a b = ok t

-- The metadata of the inode 7, and an extent of it.
abbrev meta_key : Bytes
meta_key = 0 ∷ 0 ∷ 0 ∷ 0 ∷ 0 ∷ 0 ∷ 0 ∷ 7 ∷ 1 ∷ []

abbrev extent_key : Bytes
extent_key = 0 ∷ 0 ∷ 0 ∷ 0 ∷ 0 ∷ 0 ∷ 0 ∷ 7 ∷ 33 ∷ []

abbrev before : Entries
before = (meta_key, 5 ∷ []) ∷ (extent_key, 1 ∷ []) ∷ []

-- The inode is removed, with its extent.
abbrev removal : List Change
removal =
    record { old = some (record { key = meta_key; value = 5 ∷ []; child_node = none }); new = none }
    ∷ record {
      old = some (record { key = extent_key; value = 1 ∷ []; child_node = none });
      new = none;
    }
    ∷ []

-- The extent goes, and the metadata stays.
metadata_stays :
    merge_to3 decode_meta list_tree no_range true removal before ≡ ok ((meta_key, 5 ∷ []) ∷ [])
unfolding merge_to3 list_tree map_get map_set map_delete bytes_eq
metadata_stays = refl
