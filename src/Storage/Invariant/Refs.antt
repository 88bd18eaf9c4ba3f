-- ===== src/Storage/Invariant/Refs.antt =====
-- Reference counting keeps the set of dirty blocks and the map in step with the heap: storage/block.go.
use go_tfhfs.Common.{ℕ, ◌<◌, arith}
use go_tfhfs.Storage.Types.{ℤ}
use go_tfhfs.Storage.Refs.{
  add_storage_ref_count, add_external_storage_ref_count, note_stored, mark_fresh, mark_dirty,
  change_ref_count,
}
use go_tfhfs.Storage.Invariant.{Keeps, IsConsistent, Keeps-modify, contains-insert}
use go_tfhfs.Storage.Invariant.Rules.{steps}

module _ {B : Type 0} {n : ℕ} where
  pub Keeps-add_storage_ref_count :
      (p : ℕ) (v : ℤ) → Keeps {B = B} (IsConsistent n) (add_storage_ref_count p v)
  unfolding add_storage_ref_count
  Keeps-add_storage_ref_count p v = search (steps, Keeps-modify n p) depth 8

  pub Keeps-add_external_storage_ref_count :
      (p : ℕ) (v : ℤ) → Keeps {B = B} (IsConsistent n) (add_external_storage_ref_count p v)
  unfolding add_external_storage_ref_count
  Keeps-add_external_storage_ref_count p v = search (steps, Keeps-modify n p)

  pub Keeps-change_ref_count :
      (p : ℕ) (v : ℤ) → Keeps {B = B} (IsConsistent n) (change_ref_count p v)
  unfolding change_ref_count
  Keeps-change_ref_count p v = search (steps, Keeps-modify n p)

  pub Keeps-note_stored : (p : ℕ) → p < n → Keeps {B = B} (IsConsistent n) (note_stored p)
  unfolding note_stored
  Keeps-note_stored p lt = record {
    run = λ s h. record {
      bound = h.bound;
      idle = λ q past. ground (arith, h.idle q, h.bound, contains-insert q p s.dirty_blocks);
      tracked = λ q. ground (arith, h.tracked q, contains-insert q p s.dirty_blocks);
      addressed = λ id q e. ground (arith, h.addressed id q e);
    };
  }

  pub Keeps-mark_dirty : (p : ℕ) → p < n → Keeps {B = B} (IsConsistent n) (mark_dirty p)
  unfolding mark_dirty mark_fresh
  Keeps-mark_dirty p lt = search (steps, Keeps-add_storage_ref_count, Keeps-note_stored) depth 8
