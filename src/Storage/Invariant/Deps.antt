-- ===== src/Storage/Invariant/Deps.antt =====
-- Changing the references between blocks keeps the invariant: `iterateReferences`,
-- `setDependencies`, `updateDependencies` and `addRefCount` of storage/block.go.
use go_tfhfs.Common.{ℕ, ◌<◌, ◌≤◌, Bool, Option, List, [], ◌∷◌, Bytes, arith}
use go_tfhfs.Storage.Types.{ℤ, BlockStatus, Backend, M}
use go_tfhfs.Storage.Refs.{
  get_data, load_data, visit_data, iterate_references, change_each, set_dependencies,
  set_storage_dependencies, should_have_storage_dependencies, add_ref_count, set_disk_dependencies,
  should_have_disk_dependencies, sign,
}
use go_tfhfs.Storage.Invariant.{Keeps, IsConsistent, Keeps-modify}
use go_tfhfs.Storage.Invariant.Rules.{steps, Keeps-bind, Keeps-pure, Keeps-if}
use go_tfhfs.Storage.Invariant.Refs.{
  Keeps-add_storage_ref_count, Keeps-mark_dirty, Keeps-change_ref_count,
}
use go_tfhfs.Storage.Invariant.Loads.{HasOwnIds, Keeps-existing}

module _ {B : Type 0} (be : Backend B) (references : Option (Bytes → Bytes → List Bytes))
    (own : HasOwnIds be) where
  pub Keeps-get_data : {n : ℕ} (p : ℕ) → Keeps (IsConsistent n) (get_data be references p)
  unfolding get_data load_data
  Keeps-get_data {n} p = search (steps, Keeps-modify n p) depth 12

  pub Keeps-iterate_references :
      {n : ℕ} (p : ℕ) → Keeps (IsConsistent n) (iterate_references be references p)
  unfolding iterate_references visit_data
  Keeps-iterate_references {n} p = search (steps, Keeps-modify n p, Keeps-get_data) depth 12

  pub Keeps-change_each :
      {n : ℕ} (change : ℕ → M B (Unit {0})) (ids : List Bytes)
      → ((n' q : ℕ) → n ≤ n' → q < n' → Keeps (IsConsistent n') (change q))
      → Keeps (IsConsistent n) (change_each be references change ids)
  unfolding change_each
  Keeps-change_each change [] h = Keeps-pure tt
  Keeps-change_each {n} change (id ∷ ids) h = Keeps-existing be references own id _ λ n' q le lt.
      Keeps-bind (h n' q le lt)
        (λ _. Keeps-change_each {n = n'} change ids (λ n'' r le' lt'. h n'' r (omega arith) lt'))

  pub Keeps-set_dependencies :
      {n : ℕ} (change : ℕ → M B (Unit {0})) (st : BlockStatus) (p : ℕ)
      → ((n' q : ℕ) → n ≤ n' → q < n' → Keeps (IsConsistent n') (change q))
      → Keeps (IsConsistent n) (set_dependencies be references change st p)
  unfolding set_dependencies
  Keeps-set_dependencies change st p h =
      Keeps-if _ (Keeps-bind (Keeps-iterate_references p) (λ ids. Keeps-change_each change ids h))
        (Keeps-pure tt)

  pub Keeps-set_storage_dependencies :
      {n : ℕ} (add : Bool) (st : BlockStatus) (p : ℕ)
      → Keeps (IsConsistent n) (set_storage_dependencies be references add st p)
  unfolding set_storage_dependencies
  Keeps-set_storage_dependencies add st p =
      Keeps-set_dependencies _ st p (λ n' q le lt. Keeps-add_storage_ref_count q (sign add))

  pub Keeps-should_have_storage_dependencies :
      {n : ℕ} (add : Bool) (p : ℕ)
      → Keeps (IsConsistent n) (should_have_storage_dependencies be references add p)
  unfolding should_have_storage_dependencies
  Keeps-should_have_storage_dependencies {n} add p =
      search (steps, Keeps-modify n p, Keeps-set_storage_dependencies) depth 12

  pub Keeps-add_ref_count :
      {n : ℕ} (p : ℕ) (count : ℤ)
      → p < n
      → Keeps (IsConsistent n) (add_ref_count be references p count)
  unfolding add_ref_count
  Keeps-add_ref_count {n} p count lt =
      search
        (
          steps,
          Keeps-mark_dirty p lt,
          Keeps-change_ref_count,
          Keeps-should_have_storage_dependencies,
        )
        depth 12

  pub Keeps-set_disk_dependencies :
      {n : ℕ} (add : Bool) (st : BlockStatus) (p : ℕ)
      → Keeps (IsConsistent n) (set_disk_dependencies be references add st p)
  unfolding set_disk_dependencies
  Keeps-set_disk_dependencies add st p =
      Keeps-set_dependencies _ st p (λ n' q le lt. Keeps-add_ref_count q (sign add) lt)

  pub Keeps-should_have_disk_dependencies :
      {n : ℕ} (add : Bool) (p : ℕ)
      → Keeps (IsConsistent n) (should_have_disk_dependencies be references add p)
  unfolding should_have_disk_dependencies
  Keeps-should_have_disk_dependencies {n} add p =
      search (steps, Keeps-modify n p, Keeps-set_disk_dependencies) depth 12
