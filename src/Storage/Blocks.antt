-- ===== src/Storage/Blocks.antt =====
-- Writing a block out, purging it, and changing its status: `flush`, `flushStorageRef` and
-- `setStatus` of storage/block.go.
use go_tfhfs.Common.{
  ℕ, ◌+◌, Bool, true, false, not, ◌&&◌, Option, none, some, List, [], ◌∷◌, Bytes, if◌then◌else◌,
  ◌==◌, ltb, length, map_delete,
}
use go_tfhfs.Storage.Types.{
  BlockStatus, BlockMetadata, pos, negsuc, Block, Backend, M, pure, fail, ◌>>=◌, ◌>>◌, remove,
  has_deps, bool_eq, same_status, lift, when, case_nil, get, get_block, modify, set_blocks,
  set_dirty, set_dirty_storage_refs, set_backend, set_counters,
}
use go_tfhfs.Storage.Refs.{
  add_storage_ref_count, mark_dirty, get_data, get_block_by_id, iterate_references,
  set_storage_dependencies, set_disk_dependencies, should_have_storage_dependencies,
  should_have_disk_dependencies,
}

-- Whether the block was referred to on disk when it became dirty.
unfoldable pub was_on_disk : Block → Bool
was_on_disk b = elim b.stored [ none ↦ false | some m ↦ ltb 0 m.ref_count ]

module _ {B : Type 0} where
  -- The end of `flush`: the block is dirty no more.
  unfoldable pub forget_stored : ℕ → M B (Unit {0})
  unfolding modify
  forget_stored p = do
    modify p (λ b. record b { stored = none })
    s ← get
    set_dirty (remove p s.dirty_blocks)

  -- `cleanrefs`.
  unfoldable pub clean_references : List ℕ → M B (Unit {0})
  unfolding add_storage_ref_count
  clean_references [] = pure tt
  clean_references (p ∷ ps) = do clean_references ps; add_storage_ref_count p (pos 0)

  -- `delete(self.storage.blocks, self.Id)`.
  unfoldable pub drop_block : Bytes → M B (Unit {0})
  unfolding map_delete
  drop_block id = do s ← get; set_blocks (map_delete id s.blocks)

module _ {B : Type 0} (be : Backend B) (references : Option (Bytes → Bytes → List Bytes)) where
  -- The branch of `flush` for a block that nothing refers to.
  unfoldable pub flush_removed : ℕ → M B ℕ
  unfolding get_data modify
  flush_removed p = do
    b ← get_block p
    when b.has_backend (do
      _ ← get_data be references p
      s ← get
      let c = s.counters
      set_counters (record c { delete = c.delete + 1 })
      backend ← lift (be.delete_block s.backend b.id)
      set_backend backend
      modify p (λ b'. record b' { has_backend = false }))
    pure 1

  -- The branch for a block that is not in the backend yet.
  unfoldable pub flush_added : ℕ → M B ℕ
  unfolding get_data modify
  flush_added p = do
    s ← get
    let c = s.counters
    set_counters (record c { write = c.write + 1 })
    block_data ← get_data be references p
    s' ← get
    let c' = s'.counters
    set_counters (record c' { write_bytes = c'.write_bytes + length block_data })
    b ← get_block p
    backend ← lift (be.store_block s'.backend b)
    set_backend backend
    modify p (λ b'. record b' { has_backend = true })
    pure 1

  -- The branch for a block whose metadata alone has changed.
  unfoldable pub flush_updated : ℕ → M B ℕ
  flush_updated p = do
    b ← get_block p
    s ← get
    (ops, backend) ← lift (be.update_block s.backend b)
    set_backend backend
    pure ops

  unfoldable pub flush_content : Block → ℕ → M B ℕ
  unfolding flush_removed flush_added flush_updated
  flush_content b p =
      if b.ref_count == 0
      then flush_removed p
      else if not b.has_backend
      then flush_added p
      else flush_updated p

  -- The references on disk follow the block in or out.
  unfoldable pub flush_dependencies : Bool → ℕ → M B (Unit {0})
  unfolding should_have_disk_dependencies should_have_storage_dependencies
  flush_dependencies have_refs p = do
    _ ← should_have_disk_dependencies be references have_refs p
    when have_refs (do _ ← should_have_storage_dependencies be references false p; pure tt)

  -- `flush`, where the block is dirty.
  unfoldable pub flush_dirty : BlockMetadata → ℕ → M B ℕ
  unfolding flush_content flush_dependencies forget_stored add_storage_ref_count
  flush_dirty stored p = do
    b ← get_block p
    let had_refs = b.has_backend && not (stored.ref_count == 0)
    ops ← flush_content b p
    b' ← get_block p
    let have_refs = not (b'.ref_count == 0)
    when (not (bool_eq had_refs have_refs)) (flush_dependencies have_refs p)
    forget_stored p
    add_storage_ref_count p (negsuc 0)
    pure ops

  unfoldable pub flush : ℕ → M B ℕ
  unfolding flush_dirty
  flush p = do b ← get_block p; case_nil b.stored fail (λ stored. flush_dirty stored p)

  unfoldable pub flush_storage_ref : ℕ → M B ℕ
  unfolding should_have_storage_dependencies drop_block
  flush_storage_ref p = do
    s ← get
    set_dirty_storage_refs (remove p s.dirty_storage_ref_blocks)
    b ← get_block p
    if b.storage_ref_count == 0
        then (do
          _ ← should_have_storage_dependencies be references false p
          drop_block b.id
          pure 1)
        else (do
          changed ← should_have_storage_dependencies be references (b.ref_count == 0) p
          pure (if changed then 1 else 0))

  -- The loop of `setStatus` that looks for the blocks referred to: those found, and whether all were.
  unfoldable pub find_references : List Bytes → List ℕ → M B (Bool × List ℕ)
  unfolding get_block_by_id
  find_references [] refs = pure (true, refs)
  find_references (id ∷ ids) refs = do
    found ← get_block_by_id be references id
    case_nil found (pure (false, refs)) (λ p. find_references ids (p ∷ refs))

  -- The new dependencies are set before the old ones are dropped.
  unfoldable pub change_dependencies : BlockStatus → ℕ → M B (Unit {0})
  unfolding set_disk_dependencies set_storage_dependencies should_have_storage_dependencies
      should_have_disk_dependencies was_on_disk modify
  change_dependencies st p = do
    b ← get_block p
    let disk = was_on_disk b
    let in_storage = not disk && ltb 0 b.storage_ref_count
    when disk (set_disk_dependencies be references true st p)
    when in_storage (set_storage_dependencies be references true st p)
    _ ← should_have_storage_dependencies be references false p
    _ ← should_have_disk_dependencies be references false p
    modify p (λ b'. record b' { have_disk_refs = disk; have_storage_refs = in_storage })

  unfoldable pub apply_status : Bool → BlockStatus → ℕ → M B (Unit {0})
  unfolding mark_dirty change_dependencies modify
  apply_status changing st p = do
    mark_dirty p
    when changing (change_dependencies st p)
    modify p (λ b. record b { status = st })

  -- `setStatus` where references are to be taken on: all blocks must be there.
  unfoldable pub take_references : BlockStatus → ℕ → M B Bool
  unfolding apply_status find_references clean_references iterate_references
  take_references st p = do
    ids ← iterate_references be references p
    (possible, refs) ← find_references ids []
    when possible (apply_status true st p)
    clean_references refs
    pure possible

  -- `setStatus`; whether the status could be set.
  unfoldable pub set_status : BlockStatus → ℕ → M B Bool
  unfolding apply_status take_references
  set_status st p = do
    b ← get_block p
    let changing = not (bool_eq (has_deps st) (has_deps b.status))
    if same_status b.status st
        then pure true
        else if changing && has_deps st
        then take_references st p
        else (do apply_status changing st p; pure true)
