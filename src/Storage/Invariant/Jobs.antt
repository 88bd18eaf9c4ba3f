-- ===== src/Storage/Invariant/Jobs.antt =====
-- Every job of the storage goroutine keeps the invariant: storage/storagejob.go and
-- storage/storage.go.
use go_tfhfs.Common.{ℕ, suc, ◌<◌, ◌≤◌, refl, Option, none, some, List, Bytes, arith}
use go_tfhfs.Storage.Types.{ℤ, BlockStatus, Backend, Storage, M, ◌>>=◌}
use go_tfhfs.Storage.Jobs.{Job, Answer, set_block, new_block, run_store, run_job}
use go_tfhfs.Storage.Invariant.{Keeps, Ends, IsConsistent}
use go_tfhfs.Storage.Invariant.Rules.{Keeps-case_nil, Keeps-fail, steps, Keeps-bind, Keeps-pure}
use go_tfhfs.Storage.Invariant.Refs.{
  Keeps-add_storage_ref_count, Keeps-add_external_storage_ref_count,
}
use go_tfhfs.Storage.Invariant.Loads.{
  HasOwnIds, Keeps-found, Keeps-existing, enter_block-IsConsistent, Ends-weaken,
}
use go_tfhfs.Storage.Invariant.Deps.{Keeps-add_ref_count}
use go_tfhfs.Storage.Invariant.Blocks.{Keeps-set_status}
use go_tfhfs.Storage.Invariant.Flushes.{Keeps-get_name, Keeps-set_name_to_block_id, Keeps-flush_all}

-- The address that a job carries is that of a live block.
abbrev pub IsLive : ℕ → Job → Type 0
IsLive n (Job.set_status p st) = p < n
IsLive n other = Unit

module _ {B : Type 0} (be : Backend B) (references : Option (Bytes → Bytes → List Bytes))
    (own : HasOwnIds be) where
  Keeps-set_block :
      {n : ℕ} (found : Option ℕ) → Keeps (IsConsistent n) (set_block be references found)
  unfolding set_block
  Keeps-set_block none = Keeps-pure tt
  Keeps-set_block (some p) =
      search (steps, Keeps-add_external_storage_ref_count, Keeps-add_storage_ref_count) depth 8

  Keeps-new_block :
      {n : ℕ} {C : Type 0} (id : Bytes) (st : BlockStatus) (block_data : Bytes)
      (deps : Option (List Bytes)) (f : ℕ → M B C)
      → ((n' q : ℕ) → n ≤ n' → q < n' → Keeps (IsConsistent n') (f q))
      → Keeps (IsConsistent n) (new_block be references id st block_data deps >>= f)
  unfolding new_block
  Keeps-new_block {n} id st block_data deps f k = record {
    run = λ s h. Ends-weaken n (suc s.next) _ (omega (arith, h.bound)) (
        (k (suc s.next) s.next (omega (arith, h.bound)) (omega arith)).run _
          (enter_block-IsConsistent n id _ s h refl refl));
  }

  Keeps-run_store :
      {n : ℕ} (id : Bytes) (st : BlockStatus) (block_data : Bytes) (deps : Option (List Bytes))
      (count : ℤ)
      → Keeps (IsConsistent n) (run_store be references id st block_data deps count)
  unfolding run_store
  Keeps-run_store id st block_data deps count =
      Keeps-new_block id st block_data deps _ λ n' q le lt.
        Keeps-bind (Keeps-add_ref_count be references own q count lt)
          (λ _. Keeps-bind (Keeps-set_block (some q)) (λ _. Keeps-pure (Answer.block (some q))))

  Keeps-run_job :
      (n fuel : ℕ) (job : Job)
      → IsLive n job
      → Keeps (IsConsistent n) (run_job be references fuel job)
  unfolding run_job
  Keeps-run_job n fuel Job.flush live =
      Keeps-bind (Keeps-flush_all be references own fuel)
        (λ flushed. Keeps-case_nil flushed Keeps-fail (λ ops. Keeps-pure Answer.done))
  Keeps-run_job n fuel Job.quit live = Keeps-pure Answer.done
  Keeps-run_job n fuel (Job.get_by_id bid) live =
      Keeps-found be references own bid _
        (Keeps-bind (Keeps-set_block none) (λ _. Keeps-pure (Answer.block none)))
        (λ n' q le lt.
          Keeps-bind (Keeps-set_block (some q)) (λ _. Keeps-pure (Answer.block (some q))))
  Keeps-run_job n fuel (Job.get_id_by_name name) live =
      Keeps-bind (Keeps-get_name be references own name) (λ v. Keeps-pure (Answer.id v.new_value))
  Keeps-run_job n fuel (Job.set_name name bid) live =
      Keeps-bind (Keeps-set_name_to_block_id be references own name bid)
        (λ _. Keeps-pure Answer.done)
  Keeps-run_job n fuel (Job.set_status p st) live =
      Keeps-bind (Keeps-set_status be references own st p live)
        (λ possible. Keeps-pure (Answer.status_set possible))
  Keeps-run_job n fuel (Job.refer_or_store bid st block_data deps count) live =
      Keeps-found be references own bid _ (Keeps-run_store bid st block_data deps count)
        λ n' q le lt.
          Keeps-bind (Keeps-add_ref_count be references own q count lt)
            (λ _. Keeps-bind (Keeps-set_block (some q)) (λ _. Keeps-pure (Answer.block (some q))))
  Keeps-run_job n fuel (Job.update_ref_count bid count) live =
      Keeps-existing be references own bid _ λ n' q le lt.
        Keeps-bind (Keeps-add_ref_count be references own q count lt) (λ _. Keeps-pure Answer.done)
  Keeps-run_job n fuel (Job.update_storage_ref_count bid count) live =
      Keeps-existing be references own bid _
        λ n' q le lt. Keeps-bind (Keeps-add_storage_ref_count q count) (λ _. Keeps-pure Answer.done)
  Keeps-run_job n fuel (Job.store bid st block_data deps count) live =
      Keeps-run_store bid st block_data deps count

  -- Every job of the storage goroutine, if it does not panic, leaves the set of dirty blocks and the
  -- map of blocks in step with the blocks themselves: a block is in the set exactly when it
  -- remembers its stored metadata, and the map leads to live blocks by their own ids.
  pub run_job-IsConsistent :
      (n fuel : ℕ) (job : Job) (s : Storage B)
      → IsLive n job
      → IsConsistent n s
      → Ends (IsConsistent n) (run_job be references fuel job s)
  run_job-IsConsistent n fuel job s live h = (Keeps-run_job n fuel job live).run s h
