-- ===== src/Storage/Invariant/Blocks.antt =====
-- Writing blocks out, purging them and changing their status keeps the invariant: `flush`,
-- `flushStorageRef` and `setStatus` of storage/block.go.
use mathlib.Core.List.{List, [], ◌∷◌}
use go_tfhfs.Common.{ℕ, ◌<◌, Bool, true, false, Option, Bytes, not, ◌&&◌, arith, map_get-map_delete}
use go_tfhfs.Storage.Types.{pos, Block, BlockStatus, Backend, same_status, bool_eq, has_deps}
use go_tfhfs.Storage.Blocks.{
  flush_removed, flush_added, flush_updated, flush_content, flush_dependencies, forget_stored,
  flush_dirty, flush, flush_storage_ref, drop_block, find_references, clean_references,
  change_dependencies, apply_status, take_references, set_status,
}
use go_tfhfs.Storage.Invariant.{Keeps, IsConsistent, Keeps-modify, contains-remove}
use go_tfhfs.Storage.Invariant.Rules.{
  steps, Keeps-bind, Keeps-pure, Keeps-get_block, Keeps-if, Keeps-when,
}
use go_tfhfs.Storage.Invariant.Refs.{Keeps-add_storage_ref_count, Keeps-mark_dirty}
use go_tfhfs.Storage.Invariant.Loads.{HasOwnIds, Keeps-found}
use go_tfhfs.Storage.Invariant.Deps.{
  Keeps-get_data, Keeps-iterate_references, Keeps-set_storage_dependencies,
  Keeps-set_disk_dependencies, Keeps-should_have_storage_dependencies,
  Keeps-should_have_disk_dependencies,
}

module _ {B : Type 0} {n : ℕ} where
  pub Keeps-forget_stored : (p : ℕ) → Keeps {B = B} (IsConsistent n) (forget_stored p)
  unfolding forget_stored
  Keeps-forget_stored p = record {
    run = λ s h. record {
      bound = h.bound;
      idle = λ q past. ground (arith, h.idle q, contains-remove q p s.dirty_blocks);
      tracked = λ q. ground (arith, h.tracked q, contains-remove q p s.dirty_blocks);
      addressed = λ id q e. ground (arith, h.addressed id q e);
    };
  }

  Keeps-drop_block : (id : Bytes) → Keeps {B = B} (IsConsistent n) (drop_block id)
  unfolding drop_block
  Keeps-drop_block id = record {
    run = λ s h. record {
      bound = h.bound;
      idle = h.idle;
      tracked = h.tracked;
      addressed = λ j q e. ground (arith, map_get-map_delete j id s.blocks, h.addressed j q);
    };
  }

  Keeps-clean_references : (ps : List ℕ) → Keeps {B = B} (IsConsistent n) (clean_references ps)
  unfolding clean_references
  Keeps-clean_references [] = Keeps-pure tt
  Keeps-clean_references (p ∷ ps) =
      Keeps-bind (Keeps-clean_references ps) (λ _. Keeps-add_storage_ref_count p (pos 0))

module _ {B : Type 0} (be : Backend B) (references : Option (Bytes → Bytes → List Bytes))
    (own : HasOwnIds be) where
  Keeps-flush_removed : {n : ℕ} (p : ℕ) → Keeps (IsConsistent n) (flush_removed be references p)
  unfolding flush_removed
  Keeps-flush_removed {n} p = search (steps, Keeps-modify n p, Keeps-get_data) depth 14

  Keeps-flush_added : {n : ℕ} (p : ℕ) → Keeps (IsConsistent n) (flush_added be references p)
  unfolding flush_added
  Keeps-flush_added {n} p = search (steps, Keeps-modify n p, Keeps-get_data) depth 14

  Keeps-flush_updated : {n : ℕ} (p : ℕ) → Keeps (IsConsistent n) (flush_updated be references p)
  unfolding flush_updated
  Keeps-flush_updated p = search steps depth 14

  Keeps-flush_content :
      {n : ℕ} (b : Block) (p : ℕ) → Keeps (IsConsistent n) (flush_content be references b p)
  unfolding flush_content
  Keeps-flush_content b p =
      search (steps, Keeps-flush_removed, Keeps-flush_added, Keeps-flush_updated) depth 8

  Keeps-flush_dependencies :
      {n : ℕ} (have_refs : Bool) (p : ℕ)
      → Keeps (IsConsistent n) (flush_dependencies be references have_refs p)
  unfolding flush_dependencies
  Keeps-flush_dependencies have_refs p =
      search
        (
          steps,
          Keeps-should_have_storage_dependencies be references own,
          Keeps-should_have_disk_dependencies be references own,
        )
        depth 8

  pub Keeps-flush : {n : ℕ} (p : ℕ) → Keeps (IsConsistent n) (flush be references p)
  unfolding flush flush_dirty
  Keeps-flush p =
      search
        (
          steps, Keeps-flush_content, Keeps-flush_dependencies, Keeps-forget_stored,
          Keeps-add_storage_ref_count,
        )
        depth 14

  pub Keeps-flush_storage_ref :
      {n : ℕ} (p : ℕ) → Keeps (IsConsistent n) (flush_storage_ref be references p)
  unfolding flush_storage_ref
  Keeps-flush_storage_ref p =
      search (steps, Keeps-should_have_storage_dependencies be references own, Keeps-drop_block)
        depth 12

  Keeps-find_references :
      {n : ℕ} (ids : List Bytes) (refs : List ℕ)
      → Keeps (IsConsistent n) (find_references be references ids refs)
  unfolding find_references
  Keeps-find_references [] refs = Keeps-pure (true, refs)
  Keeps-find_references {n} (id ∷ ids) refs =
      Keeps-found be references own id _ (Keeps-pure (false, refs))
        (λ n' q le lt. Keeps-find_references {n = n'} ids (q ∷ refs))

  Keeps-change_dependencies :
      {n : ℕ} (st : BlockStatus) (p : ℕ)
      → Keeps (IsConsistent n) (change_dependencies be references st p)
  unfolding change_dependencies
  Keeps-change_dependencies {n} st p =
      search
        (
          steps,
          Keeps-modify n p,
          Keeps-set_storage_dependencies be references own,
          Keeps-set_disk_dependencies be references own,
          Keeps-should_have_storage_dependencies be references own,
          Keeps-should_have_disk_dependencies be references own,
        )
        depth 14

  Keeps-apply_status :
      {n : ℕ} (changing : Bool) (st : BlockStatus) (p : ℕ)
      → p < n
      → Keeps (IsConsistent n) (apply_status be references changing st p)
  unfolding apply_status
  Keeps-apply_status {n} changing st p lt =
      search (steps, Keeps-modify n p, Keeps-mark_dirty p lt, Keeps-change_dependencies) depth 12

  Keeps-take_references :
      {n : ℕ} (st : BlockStatus) (p : ℕ)
      → p < n
      → Keeps (IsConsistent n) (take_references be references st p)
  unfolding take_references
  Keeps-take_references {n} st p lt =
      Keeps-bind (Keeps-iterate_references be references own p) (λ ids.
        Keeps-bind (Keeps-find_references ids []) (λ found.
          Keeps-bind (Keeps-when found.0 (Keeps-apply_status true st p lt))
            (λ _. Keeps-bind (Keeps-clean_references found.1) (λ _. Keeps-pure found.0))))

  pub Keeps-set_status :
      {n : ℕ} (st : BlockStatus) (p : ℕ)
      → p < n
      → Keeps (IsConsistent n) (set_status be references st p)
  unfolding set_status
  Keeps-set_status {n} st p lt = Keeps-bind (Keeps-get_block p) (λ b.
      Keeps-if (same_status b.status st) (Keeps-pure true) (
        Keeps-if (not (bool_eq (has_deps st) (has_deps b.status)) && has_deps st)
          (Keeps-take_references st p lt)
          (Keeps-bind (Keeps-apply_status (not (bool_eq (has_deps st) (has_deps b.status))) st p lt)
            (λ _. Keeps-pure true))))
