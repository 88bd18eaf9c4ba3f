-- ===== src/Storage/Tests.antt =====
-- Runs of the block layer over the in-memory backend, and instances of its theorems.
use mathlib.Core.List.{List, [], ◌∷◌}
use go_tfhfs.Common.{
  ℕ, ◌≡◌, ◌≢◌, refl, false, ◌==◌, true, false, Option, none, some, Bytes, Outcome, ok, panic, arith,
  map_get, map_set, bytes_eq,
}
use go_tfhfs.Storage.Types.{Block, bs_normal, pos, Storage, contains, insert, remove, at, add_count}
use go_tfhfs.Storage.Names.{set_name_to_block_id}
use go_tfhfs.Storage.Names.Removal.{set_name_after_removal_panics}
use go_tfhfs.Storage.InMemory.{
  InMemoryBackend, delete_block, get_block_data, get_block_by_id, store_block,
}
use go_tfhfs.Storage.InMemory.Laws.{
  Owned, in_memory, in_memory-HasOwnIds, store_block_lem, delete_block_lem,
}
use go_tfhfs.Storage.Refs.{add_storage_ref_count}
use go_tfhfs.Storage.Invariant.Releases.{IsCounted, add_storage_ref_count-IsCounted}
use go_tfhfs.Storage.Handles.{StorageBlock, open_handle, close_handle, release_job}
use go_tfhfs.Storage.Handles.Counts.{handle, handles, close_handle-open_handle}
use go_tfhfs.Storage.Jobs.{Job, no_counts, run_job}
use go_tfhfs.Storage.Invariant.{Ends, IsConsistent}
use go_tfhfs.Storage.Invariant.Jobs.{run_job-IsConsistent}

abbrev blank : Block
blank = record {
  id = [];
  ref_count = 0;
  status = bs_normal;
  block_data = none;
  has_backend = false;
  stored = none;
  deps = none;
  storage_ref_count = 0;
  external_storage_ref_count = 0;
  have_disk_refs = false;
  have_storage_refs = false;
}

no_blocks : (id : Bytes) (b : Block) → map_get id [] ≡ some b → b.id ≡ id
unfolding map_get
no_blocks id b e = cc

abbrev fresh : Storage Owned
fresh = record {
  backend = record { memory = record { id2_block = []; name2_id = [] }; own = no_blocks };
  heap = λ p. blank;
  next = 0;
  blocks = [];
  dirty_blocks = [];
  dirty_storage_ref_blocks = [];
  names = [];
  counters = no_counts;
}

fresh-IsConsistent : IsConsistent 0 fresh
unfolding contains map_get
fresh-IsConsistent = record {
  bound = omega arith;
  idle = λ p h. refl;
  tracked = λ p. refl;
  addressed = λ id p e. cc;
}

-- The callback of a store whose data are the ids of the blocks referred to, a byte each.
abbrev each_byte : Bytes → List Bytes
each_byte [] = []
each_byte (b ∷ bs) = (b ∷ []) ∷ each_byte bs

abbrev callback : Option (Bytes → Bytes → List Bytes)
callback = some (λ id bs. each_byte bs)

abbrev state_of : {A : Type 0} → Outcome (A × Storage Owned) → Storage Owned
state_of (ok (a, s)) = s
state_of panic = fresh

abbrev store_leaf : Job
store_leaf = Job.store (1 ∷ []) bs_normal [] none (pos 1)

run_job-IsConsistent_example : Ends (IsConsistent 0) (run_job in_memory callback 5 store_leaf fresh)
run_job-IsConsistent_example =
    run_job-IsConsistent in_memory callback in_memory-HasOwnIds 0 5 store_leaf fresh tt
      fresh-IsConsistent

-- A stored block with one reference is dirty, referred to by the handle and by being dirty.
stored_leaf : (state_of (run_job in_memory callback 5 store_leaf fresh)).dirty_blocks ≡ 0 ∷ []
unfolding run_job in_memory insert contains
stored_leaf = refl

stored_leaf_count :
    ((state_of (run_job in_memory callback 5 store_leaf fresh)).heap 0).storage_ref_count ≡ 2
unfolding run_job in_memory at
stored_leaf_count = refl

-- A parent that refers to the leaf, both flushed: the leaf has one more reference on disk.
abbrev parent_flushed : Storage Owned
parent_flushed =
    let s₁ = state_of (run_job in_memory callback 5 store_leaf fresh) in
    let s₂ =
      state_of
        (run_job in_memory callback 5 (Job.store (2 ∷ []) bs_normal (1 ∷ []) none (pos 1)) s₁) in
    state_of (run_job in_memory callback 5 Job.flush s₂)

parent_flushed_counts :
    (parent_flushed.dirty_blocks ≡ [])
    × ((parent_flushed.heap 0).ref_count ≡ 2)
    × ((parent_flushed.heap 1).ref_count ≡ 1)
    × ((parent_flushed.heap 1).have_disk_refs ≡ true)
unfolding run_job in_memory at insert contains bytes_eq remove
parent_flushed_counts = (refl, refl, refl, refl)

-- The name "x" removed, and set again.
abbrev removed : Storage Owned
removed = record fresh {
  names = ((120 ∷ []), record { old_value = []; new_value = []; got_storage_ref = true }) ∷ [];
}

set_name_after_removal_panics_example :
    set_name_to_block_id in_memory callback (120 ∷ []) (1 ∷ []) removed ≡ panic
unfolding in_memory map_get bytes_eq set_name_to_block_id map_set
set_name_after_removal_panics_example =
    set_name_after_removal_panics in_memory callback (120 ∷ []) (1 ∷ []) fresh removed (refl, refl)
      refl

abbrev leaf_block : Block
leaf_block = record blank { id = 7 ∷ []; block_data = some (1 ∷ 2 ∷ []) }

abbrev one_in_memory : InMemoryBackend
one_in_memory = record { id2_block = ((7 ∷ []), leaf_block) ∷ []; name2_id = [] }

store_block_lem_example :
    (get_block_by_id one_in_memory (7 ∷ []) ≢ none → store_block one_in_memory leaf_block ≡ panic)
    × (get_block_by_id one_in_memory (7 ∷ []) ≡ none
        → (self' : InMemoryBackend) × (store_block one_in_memory leaf_block ≡ ok self')
          × (get_block_by_id self' (7 ∷ []) ≡ some (record leaf_block { has_backend = true }))
          × (get_block_data self' (7 ∷ []) ≡ ok (1 ∷ 2 ∷ []))
          × ((id : Bytes)
              → id ≢ 7 ∷ []
              → get_block_by_id self' id ≡ get_block_by_id one_in_memory id)
          × (self'.name2_id ≡ []))
store_block_lem_example = store_block_lem one_in_memory leaf_block (1 ∷ 2 ∷ []) refl

deleted_from_memory :
    (self' : InMemoryBackend) × (delete_block one_in_memory (7 ∷ []) ≡ ok self')
    × (get_block_by_id self' (7 ∷ []) ≡ none)
    × ((j : Bytes) → j ≢ 7 ∷ [] → get_block_by_id self' j ≡ get_block_by_id one_in_memory j)
deleted_from_memory = delete_block_lem one_in_memory (7 ∷ [])

one_found : get_block_by_id one_in_memory (7 ∷ []) ≡ some leaf_block
unfolding get_block_by_id bytes_eq
one_found = refl

-- A new block has no storage reference, and is looked at by a flush once one comes and goes.
add_storage_ref_count-IsCounted_example :
    (s' : Storage Owned) × (add_storage_ref_count 0 (pos 1) fresh ≡ ok (tt, s'))
    × IsCounted 0 (pos 1) fresh s'
unfolding add_count
add_storage_ref_count-IsCounted_example = add_storage_ref_count-IsCounted 0 1 (pos 1) fresh refl

close_handle-open_handle_example :
    (other closed : StorageBlock) × (s₁ s₂ : Storage Owned) × (open_handle
        (handle (7 ∷ []) 0 false)
        fresh
      ≡ ok (other, s₁))
    × (handles s₁ 0 ≡ 1)
    × (close_handle other s₁ ≡ ok ((closed, release_job (7 ∷ []) ∷ []), s₂))
    × (handles s₂ 0 ≡ 0)
    × ((q : ℕ) → (0 == q) ≡ false → s₂.heap q ≡ fresh.heap q)
    × (close_handle closed s₂ ≡ panic)
close_handle-open_handle_example = close_handle-open_handle (7 ∷ []) 0 fresh (omega arith)
