-- ===== src/Fs/Merge.antt =====
-- fs/merge.go: the three-way merge, over the changes that ibtree/delta.go finds. The tree is one of
-- the interface KeyTree, with `DeleteRange`; `decode_inode_meta` stands for the generated
-- unmarshalling of metadata.
use go_tfhfs.Common.{
  ℕ, ◌^◌, ◌/◌, ◌%◌, Bool, true, false, Option, none, some, List, [], ◌∷◌, Bytes, bytes_eq, Outcome,
  ok, panic, ◌>>=◌, if◌then◌else◌, ltb, leb, ◌==◌, ◌&&◌, ◌||◌, not,
}
use go_tfhfs.Fs.BlockKey.{ino, sub_type, new_block_key, bst_none, bst_last}
use go_tfhfs.IbTree.Delta.{Change}
use go_tfhfs.IbTree.KeyTree.{KeyTree}
use go_tfhfs.IbTree.Node.{NodeDataChild}
pub mod Tests

pub record InodeMeta : Type 0 where
  pub st_mode : ℕ
  pub st_rdev : ℕ
  pub st_uid : ℕ
  pub st_gid : ℕ
  pub st_atime_ns : ℕ
  pub st_ctime_ns : ℕ
  pub st_mtime_ns : ℕ
  pub st_size : ℕ
  pub st_nlink : ℕ
  pub parent_ino : ℕ
  pub contents : Bytes

abbrev pub bst_meta : ℕ
bst_meta = 1

-- The bit of `fuse.S_IFDIR`, 0x4000.
unfoldable pub is_dir : InodeMeta → Bool
is_dir self = self.st_mode / 2 ^ 14 % 2 == 1

-- `mergeVerdict`.
pub data Verdict : Type 0 where
  mv_new : Verdict
  mv_existing : Verdict
  mv_none : Verdict

abbrev pub is_new : Verdict → Bool
is_new mv_new = true
is_new mv_existing = false
is_new mv_none = false

-- The tree and the maps `m` and `isdir` of `MergeTo3`.
pub record Merging (T : Type 0) : Type 0 where
  pub t : T
  pub m : List (ℕ × Verdict)
  pub isdir : List ℕ

abbrev pub verdict_of : ℕ → List (ℕ × Verdict) → Option Verdict
verdict_of i [] = none
verdict_of i ((j, v) ∷ m) = if j == i then some v else verdict_of i m

abbrev pub is_member : ℕ → List ℕ → Bool
is_member i [] = false
is_member i (j ∷ js) = j == i || is_member i js

abbrev pub is_value : Option Bytes → Bytes → Bool
is_value none v = false
is_value (some w) v = bytes_eq w v

abbrev pub is_none : Option Bytes → Bool
is_none none = true
is_none (some v) = false

abbrev pub with_dir : Bool → ℕ → List ℕ → List ℕ
with_dir true i dirs = i ∷ dirs
with_dir false i dirs = dirs

-- The key of a change; it is that of the old entry, if there is one.
abbrev pub key_of : Change → Option Bytes
key_of c = elim c.old [
  | some d ↦ some d.key
  | none ↦ elim c.new [ some n ↦ some n.key | none ↦ none ]
]

abbrev pub value_or : Option NodeDataChild → Bytes
value_or none = []
value_or (some c) = c.value

abbrev pub new_value : Option NodeDataChild → Option Bytes
new_value none = none
new_value (some c) = some c.value

module _ (decode_inode_meta : Bytes → Outcome InodeMeta) where
  -- The verdict on an inode by a change of its metadata, of which the tree has `op`.
  unfoldable pub meta_verdict :
      ℕ → Bytes → Option Bytes → Option Bytes → List ℕ → Outcome (Verdict × List ℕ)
  unfolding is_dir
  meta_verdict i old none none dirs = ok (mv_none, dirs)
  meta_verdict i old none (some op) dirs = do
    src ← decode_inode_meta old
    other ← decode_inode_meta op
    ok (
      if leb other.st_ctime_ns src.st_ctime_ns then mv_none else mv_existing,
      with_dir (is_dir src) i dirs,
    )
  meta_verdict i old (some new) none dirs = ok (mv_new, dirs)
  meta_verdict i old (some new) (some op) dirs = do
    dst ← decode_inode_meta new
    other ← decode_inode_meta op
    ok (
      if ltb other.st_ctime_ns dst.st_ctime_ns then mv_new else mv_existing,
      with_dir (is_dir dst) i dirs,
    )

  module _ {T : Type 0} (o : KeyTree T) (delete_range : T → Bytes → Bytes → Outcome T) where
    -- The verdict, or none where the change is ignored.
    unfoldable pub decide :
        Bool → Merging T → Bytes → Bytes → Option Bytes → Outcome (Option Verdict × Merging T)
    unfolding ino sub_type meta_verdict
    decide local self key old new = elim (verdict_of (ino key) self.m) [
      | some v ↦ ok (some v, self)
      | none ↦
          if sub_type key == bst_meta
          then (do
            (op, t₁) ← o.get self.t key
            (v, dirs) ← meta_verdict (ino key) old new op self.isdir
            ok (
              some v,
              record {
                t = t₁;
                m = if local then self.m else ((ino key, v) ∷ self.m);
                isdir = dirs;
              },
            ))
          else if local
          then ok (some mv_new, self)
          else ok (none, self)
    ]

    -- A change that is worth it.
    unfoldable pub propagate : T → Verdict → Change → Outcome T
    propagate t v c = elim c.old [
      | none ↦ elim c.new [
        | none ↦ panic
        | some n ↦ (do
          (cv, t₁) ← o.get t n.key
          if is_none cv || is_new v then o.set t₁ n.key n.value else ok t₁)
      ]
      | some d ↦ elim c.new [
        | none ↦ (do
          (cv, t₁) ← o.get t d.key
          if not (is_none cv) && (is_value cv d.value || is_new v)
              then o.delete t₁ d.key
              else ok t₁)
        | some n ↦ (do
          (cv, t₁) ← o.get t d.key
          if is_value cv d.value || is_new v then o.set t₁ n.key n.value else ok t₁)
      ]
    ]

    unfoldable pub carry_out :
        Bool → Merging T → Bytes → Option Verdict → Change → Outcome (Merging T)
    unfolding propagate ino
    carry_out local self key none c = ok self
    carry_out local self key (some mv_none) c = ok self
    carry_out local self key (some mv_existing) c =
        if not local && not (is_member (ino key) self.isdir)
        then ok self
        else propagate self.t mv_existing c >>= λ t₁. ok (record self { t = t₁ })
    carry_out local self key (some mv_new) c =
        propagate self.t mv_new c >>= λ t₁. ok (record self { t = t₁ })

    -- The callback.
    unfoldable pub merge_change : Bool → Merging T → Change → Outcome (Merging T)
    unfolding decide carry_out
    merge_change local self c = elim (key_of c) [
      | none ↦ panic
      | some key ↦ (do
        (v, self₁) ← decide local self key (value_or c.old) (new_value c.new)
        carry_out local self₁ key v c)
    ]

    unfoldable pub merge_changes : Bool → Merging T → List Change → Outcome (Merging T)
    unfolding merge_change
    merge_changes local self [] = ok self
    merge_changes local self (c ∷ cs) =
        merge_change local self c >>= λ self₁. merge_changes local self₁ cs

    -- The inodes to remove.
    unfoldable pub delete_inodes : T → List (ℕ × Verdict) → Outcome T
    unfolding new_block_key
    delete_inodes t [] = ok t
    delete_inodes t ((i, mv_none) ∷ m) =
        delete_range t (new_block_key i bst_none []) (new_block_key i bst_last []) >>= λ t₁.
        delete_inodes t₁ m
    delete_inodes t ((i, mv_new) ∷ m) = delete_inodes t m
    delete_inodes t ((i, mv_existing) ∷ m) = delete_inodes t m

    unfoldable pub merge_to3 : Bool → List Change → T → Outcome T
    unfolding merge_changes delete_inodes
    merge_to3 local changes t =
        merge_changes local (record { t = t; m = []; isdir = 1 ∷ [] }) changes >>= λ self.
        delete_inodes self.t self.m
