-- ===== src/Storage/Refs.antt =====
-- The reference counts and dependencies of blocks: storage/block.go. The section's parameters are
-- the backend, and the callback that names the blocks which the data of a block refers to.
use go_tfhfs.Common.{
  ℕ, ◌+◌, Bool, true, false, ◌||◌, not, Option, none, some, List, [], ◌∷◌, Bytes, ok, if◌then◌else◌,
  ◌==◌, length, map_get, map_set, reverse,
}
use go_tfhfs.Storage.Types.{
  BlockStatus, ℤ, pos, negsuc, add_count, Backend, M, pure, fail, ◌>>=◌, ◌>>◌, insert, metadata,
  has_deps, bool_eq, lift, when, case_nil, enter_block, get, get_block, modify, set_dirty,
  set_dirty_storage_refs, set_counters,
}

-- The change by one that `add` stands for.
abbrev pub sign : Bool → ℤ
sign add = if add then pos 1 else negsuc 0

abbrev pub is_zero : ℤ → Bool
is_zero (pos n) = n == 0
is_zero (negsuc n) = false

module _ {B : Type 0} where
  -- `addStorageRefCount`.
  unfoldable pub add_storage_ref_count : ℕ → ℤ → M B (Unit {0})
  unfolding add_count modify
  add_storage_ref_count p v = do
    b ← get_block p
    rc ← lift (add_count b.storage_ref_count v)
    modify p (λ b'. record b' { storage_ref_count = rc })
    s ← get
    when (rc == 0 || not (bool_eq (b.ref_count == 0) b.have_storage_refs))
        (set_dirty_storage_refs (insert p s.dirty_storage_ref_blocks))

  -- `addExternalStorageRefCount`; it returns the new count.
  unfoldable pub add_external_storage_ref_count : ℕ → ℤ → M B ℕ
  unfolding add_count modify
  add_external_storage_ref_count p v = do
    b ← get_block p
    nv ← lift (add_count b.external_storage_ref_count v)
    modify p (λ b'. record b' { external_storage_ref_count = nv })
    pure nv

  -- `self.Stored = &BlockMetadata{…}` and the entry in the map of dirty blocks.
  unfoldable pub note_stored : ℕ → M B (Unit {0})
  unfolding modify
  note_stored p = do
    modify p (λ b. record b { stored = some (metadata b) })
    s ← get
    set_dirty (insert p s.dirty_blocks)

  -- `markDirty`, where the block is not dirty yet.
  unfoldable pub mark_fresh : ℕ → M B (Unit {0})
  unfolding add_storage_ref_count note_stored
  mark_fresh p = do add_storage_ref_count p (pos 1); note_stored p

  unfoldable pub mark_dirty : ℕ → M B (Unit {0})
  unfolding mark_fresh
  mark_dirty p = do b ← get_block p; case_nil b.stored (mark_fresh p) (λ m. pure tt)

  -- `self.RefCount += count` with its check; the new count.
  unfoldable pub change_ref_count : ℕ → ℤ → M B ℕ
  unfolding add_count modify
  change_ref_count p count = do
    b ← get_block p
    rc ← lift (add_count b.ref_count count)
    modify p (λ b'. record b' { ref_count = rc })
    pure rc

module _ {B : Type 0} (be : Backend B) (references : Option (Bytes → Bytes → List Bytes)) where
  -- `GetData`, where the data is not in memory.
  unfoldable pub load_data : ℕ → M B Bytes
  unfolding modify
  load_data p = do
    b ← get_block p
    s ← get
    block_data ← lift (be.get_block_data s.backend b.id)
    modify p (λ b'. record b' { block_data = some block_data })
    let c = s.counters
    set_counters (record c { read = c.read + 1; read_bytes = c.read_bytes + length block_data })
    pure block_data

  unfoldable pub get_data : ℕ → M B Bytes
  unfolding load_data
  get_data p = do
    b ← get_block p
    case_nil b.block_data (load_data p) (λ block_data. pure block_data)

  -- `getBlockById`; the address of the block, if there is one.
  unfoldable pub load_block : Bytes → M B (Option ℕ)
  unfolding enter_block
  load_block id s = elim (be.get_block_by_id s.backend id) [
    | none ↦ ok (none, s)
    | some b ↦ ok (
      some s.next,
      enter_block id
          (record b {
            storage_ref_count = 0;
            external_storage_ref_count = 0;
            have_disk_refs = true;
            have_storage_refs = false;
            stored = none;
          })
          s,
    )
  ]

  unfoldable pub get_block_by_id : Bytes → M B (Option ℕ)
  unfolding load_block map_get map_set
  get_block_by_id id s = elim (map_get id s.blocks) [
    | some p ↦ ok (some p, s)
    | none ↦ load_block id s
  ]

  -- The block with the id; a nil pointer panics where it is used.
  unfoldable pub get_existing : Bytes → M B ℕ
  unfolding get_block_by_id
  get_existing id = do found ← get_block_by_id id; case_nil found fail (λ p. pure p)

  -- The ids that `iterateReferences` visits. The first visit puts each id at the front.
  unfoldable pub visit_data : (Bytes → Bytes → List Bytes) → ℕ → M B (List Bytes)
  unfolding get_data modify
  visit_data callback p = do
    block_data ← get_data p
    b ← get_block p
    let ids = reverse (callback b.id block_data)
    modify p (λ b'. record b' { deps = some ids })
    pure ids

  unfoldable pub iterate_references : ℕ → M B (List Bytes)
  unfolding visit_data
  iterate_references p =
      case_nil references (pure [])
        λ callback. do b ← get_block p; case_nil b.deps (visit_data callback p) (λ ids. pure ids)

  -- The loop of `setDependencies`, with the change of one block as a parameter.
  unfoldable pub change_each : (ℕ → M B (Unit {0})) → List Bytes → M B (Unit {0})
  unfolding get_existing
  change_each change [] = pure tt
  change_each change (id ∷ ids) = do p ← get_existing id; change p; change_each change ids

  unfoldable pub set_dependencies : (ℕ → M B (Unit {0})) → BlockStatus → ℕ → M B (Unit {0})
  unfolding iterate_references change_each
  set_dependencies change st p =
      if has_deps st then (do ids ← iterate_references p; change_each change ids) else pure tt

  -- `setDependencies` and `shouldHaveStorageDependencies` for references in memory.
  unfoldable pub set_storage_dependencies : Bool → BlockStatus → ℕ → M B (Unit {0})
  unfolding set_dependencies
  set_storage_dependencies add = set_dependencies (λ q. add_storage_ref_count q (sign add))

  unfoldable pub should_have_storage_dependencies : Bool → ℕ → M B Bool
  unfolding set_storage_dependencies modify
  should_have_storage_dependencies add p = do
    b ← get_block p
    if bool_eq b.have_storage_refs add then pure false else (do
      modify p (λ b'. record b' { have_storage_refs = add })
      set_storage_dependencies add b.status p
      pure true)

  -- `addRefCount`.
  unfoldable pub add_ref_count : ℕ → ℤ → M B (Unit {0})
  unfolding mark_dirty should_have_storage_dependencies change_ref_count
  add_ref_count p count = if is_zero count then pure tt else (do
    mark_dirty p
    rc ← change_ref_count p count
    when (rc == 0) (do _ ← should_have_storage_dependencies true p; pure tt))

  -- `setDependencies` and `shouldHaveDiskDependencies` for references on disk.
  unfoldable pub set_disk_dependencies : Bool → BlockStatus → ℕ → M B (Unit {0})
  unfolding set_dependencies
  set_disk_dependencies add = set_dependencies (λ q. add_ref_count q (sign add))

  unfoldable pub should_have_disk_dependencies : Bool → ℕ → M B Bool
  unfolding set_disk_dependencies modify
  should_have_disk_dependencies add p = do
    b ← get_block p
    if bool_eq b.have_disk_refs add then pure false else (do
      modify p (λ b'. record b' { have_disk_refs = add })
      set_disk_dependencies add b.status p
      pure true)
