-- ===== src/Storage/Jobs.antt =====
-- The jobs of the storage goroutine, and `flush` of the whole storage: storage/storagejob.go,
-- storage/storage.go, and `setBlock` of storage/storageblock.go.
use go_tfhfs.Common.{
  ℕ, zero, suc, ◌+◌, ◌||◌, Bool, false, not, Option, none, some, List, [], ◌∷◌, Bytes,
  if◌then◌else◌, ltb, ◌==◌, ok,
}
use go_tfhfs.Storage.Types.{
  BlockStatus, ℤ, pos, Block, Backend, Counters, M, pure, fail, ◌>>=◌, ◌>>◌, enter_block, lift,
  when, case_nil, is_nil, get, get_block, set_backend, set_counters,
}
use go_tfhfs.Storage.Refs.{
  add_storage_ref_count, add_external_storage_ref_count, add_ref_count, get_block_by_id,
  get_existing,
}
use go_tfhfs.Storage.Blocks
use go_tfhfs.Storage.Names.{get_name, set_name_to_block_id, flush_block_names}

-- `jobIn`, a constructor for each job type with the fields that it reads.
pub data Job : Type 0 where
  quit : Job
  flush : Job
  get_by_id : Bytes → Job
  get_id_by_name : Bytes → Job
  set_name : Bytes → Bytes → Job
  set_status : ℕ → BlockStatus → Job
  refer_or_store : Bytes → BlockStatus → Bytes → Option (List Bytes) → ℤ → Job
  update_ref_count : Bytes → ℤ → Job
  update_storage_ref_count : Bytes → ℤ → Job
  store : Bytes → BlockStatus → Bytes → Option (List Bytes) → ℤ → Job

-- What a job answers: `jobOut`, or the block that it puts into the `StorageBlock` of the caller.
pub data Answer : Type 0 where
  done : Answer
  block : Option ℕ → Answer
  id : Bytes → Answer
  status_set : Bool → Answer

abbrev pub no_counts : Counters
no_counts = record { read = 0; read_bytes = 0; write = 0; write_bytes = 0; delete = 0 }

module _ {B : Type 0} (be : Backend B) (references : Option (Bytes → Bytes → List Bytes)) where
  -- The first loop over the dirty blocks: those that are referred to.
  unfoldable pub flush_referred : List ℕ → ℕ → M B ℕ
  unfolding Blocks.flush
  flush_referred [] ops = pure ops
  flush_referred (p ∷ ps) ops = do
    b ← get_block p
    n ← (if b.ref_count == 0 then pure 0 else Blocks.flush be references p)
    flush_referred ps (ops + n)

  -- The second loop: removals, up to the first block that is referred to.
  unfoldable pub flush_unreferred : List ℕ → ℕ → M B ℕ
  unfolding Blocks.flush
  flush_unreferred [] ops = pure ops
  flush_unreferred (p ∷ ps) ops = do
    b ← get_block p
    if not (b.ref_count == 0)
        then pure ops
        else (do n ← Blocks.flush be references p; flush_unreferred ps (ops + n))

  -- `for len(self.dirtyBlocks) > 0`, on fuel.
  unfoldable pub flush_dirty_blocks : ℕ → ℕ → M B (Option ℕ)
  unfolding flush_referred flush_unreferred
  flush_dirty_blocks zero ops = pure none
  flush_dirty_blocks (suc fuel) ops = do
    s ← get
    if is_nil s.dirty_blocks then pure (some ops) else (do
      ops' ← flush_referred s.dirty_blocks ops
      if not (ops' == ops) then flush_dirty_blocks fuel ops' else (do
        s' ← get
        ops'' ← flush_unreferred s'.dirty_blocks ops'
        flush_dirty_blocks fuel ops''))

  unfoldable pub flush_storage_refs_kept : List ℕ → ℕ → M B ℕ
  unfolding Blocks.flush_storage_ref
  flush_storage_refs_kept [] ops = pure ops
  flush_storage_refs_kept (p ∷ ps) ops = do
    b ← get_block p
    n ← (if b.storage_ref_count == 0 then pure 0 else Blocks.flush_storage_ref be references p)
    flush_storage_refs_kept ps (ops + n)

  unfoldable pub flush_storage_refs_gone : List ℕ → ℕ → M B ℕ
  unfolding Blocks.flush_storage_ref
  flush_storage_refs_gone [] ops = pure ops
  flush_storage_refs_gone (p ∷ ps) ops = do
    b ← get_block p
    if not (b.storage_ref_count == 0)
        then pure ops
        else (do n ← Blocks.flush_storage_ref be references p; flush_storage_refs_gone ps (ops + n))

  -- `for len(self.dirtyStorageRefBlocks) > 0`, on fuel.
  unfoldable pub flush_dirty_storage_refs : ℕ → ℕ → M B (Option ℕ)
  unfolding flush_storage_refs_kept flush_storage_refs_gone
  flush_dirty_storage_refs zero ops = pure none
  flush_dirty_storage_refs (suc fuel) ops = do
    s ← get
    if is_nil s.dirty_storage_ref_blocks then pure (some ops) else (do
      ops' ← flush_storage_refs_kept s.dirty_storage_ref_blocks ops
      if not (ops' == ops) then flush_dirty_storage_refs fuel ops' else (do
        s' ← get
        ops'' ← flush_storage_refs_gone s'.dirty_storage_ref_blocks ops'
        flush_dirty_storage_refs fuel ops''))

  -- The end of `flush`: the backend is told if anything was written or removed.
  unfoldable pub flush_backend : Counters → ℕ → M B ℕ
  flush_backend c ops = do
    when (ltb 0 ops || ltb 0 c.write || ltb 0 c.delete)
        (do s ← get; backend ← lift (be.flush s.backend); set_backend backend)
    pure ops

  -- `flush` of the storage; the counts printed to the log are left out.
  unfoldable pub flush_all : ℕ → M B (Option ℕ)
  unfolding flush_block_names flush_dirty_blocks flush_dirty_storage_refs flush_backend
  flush_all fuel = do
    s ← get
    let c = s.counters
    set_counters no_counts
    ops ← flush_block_names be references
    flushed ← flush_dirty_blocks fuel ops
    case_nil flushed (pure none) λ ops'. do
      purged ← flush_dirty_storage_refs fuel ops'
      case_nil purged (pure none) λ ops''. do total ← flush_backend c ops''; pure (some total)

  -- `setBlock`: the first handle on a block holds a storage reference.
  unfoldable pub set_block : Option ℕ → M B (Unit {0})
  unfolding add_external_storage_ref_count add_storage_ref_count
  set_block none = pure tt
  set_block (some p) = do
    nv ← add_external_storage_ref_count p (pos 1)
    when (nv == 1) (add_storage_ref_count p (pos 1))

  -- A fresh block object in the map.
  unfoldable pub new_block : Bytes → BlockStatus → Bytes → Option (List Bytes) → M B ℕ
  unfolding enter_block
  new_block bid status block_data deps s =
      let b : Block = record {
        id = bid;
        ref_count = 0;
        status = status;
        block_data = some block_data;
        has_backend = false;
        stored = none;
        deps = deps;
        storage_ref_count = 0;
        external_storage_ref_count = 0;
        have_disk_refs = false;
        have_storage_refs = false;
      } in
      ok (s.next, enter_block bid b s)

  -- `case jobStoreBlock`.
  unfoldable pub run_store : Bytes → BlockStatus → Bytes → Option (List Bytes) → ℤ → M B Answer
  unfolding new_block add_ref_count set_block
  run_store bid status block_data deps count = do
    p ← new_block bid status block_data deps
    add_ref_count be references p count
    set_block (some p)
    pure (block (some p))

  -- One round of `run`; the fuel is that of `jobFlush`, which panics where it is not enough.
  unfoldable pub run_job : ℕ → Job → M B Answer
  unfolding run_store flush_all get_block_by_id get_existing get_name set_name_to_block_id
      add_ref_count add_storage_ref_count set_block Blocks.set_status
  run_job fuel quit = pure done
  run_job fuel flush = do flushed ← flush_all fuel; case_nil flushed fail (λ ops. pure done)
  run_job fuel (get_by_id bid) = do
    found ← get_block_by_id be references bid
    set_block found
    pure (block found)
  run_job fuel (get_id_by_name name) = do n ← get_name be references name; pure (id n.new_value)
  run_job fuel (set_name name bid) = do set_name_to_block_id be references name bid; pure done
  run_job fuel (set_status p status) = do
    possible ← Blocks.set_status be references status p
    pure (status_set possible)
  run_job fuel (refer_or_store bid status block_data deps count) = do
    found ← get_block_by_id be references bid
    case_nil found (run_store bid status block_data deps count)
        λ p. do add_ref_count be references p count; set_block (some p); pure (block (some p))
  run_job fuel (update_ref_count bid count) = do
    p ← get_existing be references bid
    add_ref_count be references p count
    pure done
  run_job fuel (update_storage_ref_count bid count) = do
    p ← get_existing be references bid
    add_storage_ref_count p count
    pure done
  run_job fuel (store bid status block_data deps count) = run_store bid status block_data deps count

  -- `run`, on the jobs that come through the channel: it returns after `jobQuit`.
  unfoldable pub run : ℕ → List Job → M B (List Answer)
  unfolding run_job
  run fuel [] = pure []
  run fuel (quit ∷ jobs) = do a ← run_job fuel quit; pure (a ∷ [])
  run fuel (job ∷ jobs) = do a ← run_job fuel job; rest ← run fuel jobs; pure (a ∷ rest)
