-- ===== src/Storage/Handles.antt =====
-- `Open` and `Close` of the handles on blocks: storage/storageblock.go. They run outside of the
-- storage goroutine, and each is one atomic step on a count.
use go_tfhfs.Common.{
  ℕ, Bool, true, false, Option, none, some, List, [], ◌∷◌, Bytes, if◌then◌else◌, ◌==◌,
}
use go_tfhfs.Storage.Types.{M, pure, fail, ◌>>=◌, ◌>>◌, pos, negsuc}
use go_tfhfs.Storage.Refs.{add_external_storage_ref_count}
use go_tfhfs.Storage.Jobs.{Job}
pub mod Counts

-- `StorageBlock`, once its block is there; `none` is the nil pointer of a block that is not found.
pub record StorageBlock : Type 0 where
  pub id : Bytes
  pub block : Option ℕ
  pub closed : Bool

-- What `ReleaseStorageBlockId` sends to the storage goroutine.
abbrev pub release_job : Bytes → Job
release_job id = Job.update_storage_ref_count id (negsuc 0)

module _ {B : Type 0} where
  -- A call on the block panics on a nil pointer.
  abbrev pub on_block : {A : Type 0} → Option ℕ → (ℕ → M B A) → M B A
  on_block none f = fail
  on_block (some p) f = f p

  -- `Open`: another handle on the block.
  unfoldable pub open_handle : StorageBlock → M B StorageBlock
  unfolding add_external_storage_ref_count
  open_handle self = if self.closed then fail else (do
    nv ← on_block self.block (λ p. add_external_storage_ref_count p (pos 1))
    pure (record { id = self.id; block = self.block; closed = false }))

  -- `Close`: the handle that is left, and the job that is sent with the last one.
  unfoldable pub close_handle : StorageBlock → M B (StorageBlock × List Job)
  unfolding add_external_storage_ref_count
  close_handle self = if self.closed then fail else (do
    nv ← on_block self.block (λ p. add_external_storage_ref_count p (negsuc 0))
    pure (record self { closed = true }, if nv == 0 then release_job self.id ∷ [] else []))
