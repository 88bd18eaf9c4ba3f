-- ===== src/Storage/Invariant/Flushes.antt =====
-- Names and the flush of the whole storage keep the invariant: storage/storage.go.
use go_tfhfs.Common.{
  ℕ, zero, suc, Option, none, inl, inr, Option-cases, not, map_get, List, [], ◌∷◌, Bytes,
}
use go_tfhfs.Storage.Types.{ℤ, pos, negsuc, Backend, Counters, OldNew, ◌>>=◌}
use go_tfhfs.Storage.Refs.{get_existing, add_storage_ref_count}
use go_tfhfs.Storage.Names.{
  get_name, put_name, flushed_name, set_name_to_block_id, flush_block_name, flush_names_loop,
  flush_block_names, is_empty,
}
use go_tfhfs.Storage.Jobs.{
  flush_referred, flush_unreferred, flush_dirty_blocks, flush_storage_refs_kept,
  flush_storage_refs_gone, flush_dirty_storage_refs, flush_backend, flush_all,
}
use go_tfhfs.Storage.Invariant.{Keeps, Ends, IsConsistent}
use go_tfhfs.Storage.Invariant.Rules.{
  steps, Keeps-bind, Keeps-pure, Keeps-when, Keeps-get, Keeps-lift, Keeps-set_backend,
}
use go_tfhfs.Storage.Invariant.Refs.{Keeps-add_storage_ref_count}
use go_tfhfs.Storage.Invariant.Loads.{HasOwnIds, Keeps-existing}
use go_tfhfs.Storage.Invariant.Deps.{Keeps-add_ref_count}
use go_tfhfs.Storage.Invariant.Blocks.{Keeps-flush, Keeps-flush_storage_ref}

Keeps-put_name :
    {B : Type 0} {n : ℕ} (name : Bytes) (v : OldNew)
    → Keeps {B = B} (IsConsistent n) (put_name name v)
unfolding put_name
Keeps-put_name name v = search steps

module _ {B : Type 0} (be : Backend B) (references : Option (Bytes → Bytes → List Bytes))
    (own : HasOwnIds be) where
  Keeps-flush_referred :
      {n : ℕ} (ps : List ℕ) (ops : ℕ) → Keeps (IsConsistent n) (flush_referred be references ps ops)
  unfolding flush_referred
  Keeps-flush_referred [] ops = Keeps-pure ops
  Keeps-flush_referred {n} (p ∷ ps) ops =
      let later = λ (ops' : ℕ). Keeps-flush_referred {n = n} ps ops' in
      search (steps, later, Keeps-flush be references own p) depth 12

  Keeps-flush_unreferred :
      {n : ℕ} (ps : List ℕ) (ops : ℕ)
      → Keeps (IsConsistent n) (flush_unreferred be references ps ops)
  unfolding flush_unreferred
  Keeps-flush_unreferred [] ops = Keeps-pure ops
  Keeps-flush_unreferred {n} (p ∷ ps) ops =
      let later = λ (ops' : ℕ). Keeps-flush_unreferred {n = n} ps ops' in
      search (steps, later, Keeps-flush be references own p) depth 12

  Keeps-flush_dirty_blocks :
      {n : ℕ} (fuel ops : ℕ) → Keeps (IsConsistent n) (flush_dirty_blocks be references fuel ops)
  unfolding flush_dirty_blocks
  Keeps-flush_dirty_blocks zero ops = Keeps-pure none
  Keeps-flush_dirty_blocks {n} (suc fuel) ops =
      let later = λ (ops' : ℕ). Keeps-flush_dirty_blocks {n = n} fuel ops' in
      search (steps, later, Keeps-flush_referred, Keeps-flush_unreferred) depth 14

  Keeps-flush_storage_refs_kept :
      {n : ℕ} (ps : List ℕ) (ops : ℕ)
      → Keeps (IsConsistent n) (flush_storage_refs_kept be references ps ops)
  unfolding flush_storage_refs_kept
  Keeps-flush_storage_refs_kept [] ops = Keeps-pure ops
  Keeps-flush_storage_refs_kept {n} (p ∷ ps) ops =
      let later = λ (ops' : ℕ). Keeps-flush_storage_refs_kept {n = n} ps ops' in
      search (steps, later, Keeps-flush_storage_ref be references own p) depth 12

  Keeps-flush_storage_refs_gone :
      {n : ℕ} (ps : List ℕ) (ops : ℕ)
      → Keeps (IsConsistent n) (flush_storage_refs_gone be references ps ops)
  unfolding flush_storage_refs_gone
  Keeps-flush_storage_refs_gone [] ops = Keeps-pure ops
  Keeps-flush_storage_refs_gone {n} (p ∷ ps) ops =
      let later = λ (ops' : ℕ). Keeps-flush_storage_refs_gone {n = n} ps ops' in
      search (steps, later, Keeps-flush_storage_ref be references own p) depth 12

  Keeps-flush_dirty_storage_refs :
      {n : ℕ} (fuel ops : ℕ)
      → Keeps (IsConsistent n) (flush_dirty_storage_refs be references fuel ops)
  unfolding flush_dirty_storage_refs
  Keeps-flush_dirty_storage_refs zero ops = Keeps-pure none
  Keeps-flush_dirty_storage_refs {n} (suc fuel) ops =
      let later = λ (ops' : ℕ). Keeps-flush_dirty_storage_refs {n = n} fuel ops' in
      search (steps, later, Keeps-flush_storage_refs_kept, Keeps-flush_storage_refs_gone) depth 14

  pub Keeps-get_name : {n : ℕ} (name : Bytes) → Keeps (IsConsistent n) (get_name be references name)
  unfolding get_name
  Keeps-get_name name = record {
    run = λ s h. elim (Option-cases (map_get name s.names)) [
      | inl e ↦
          rw (e, Ends)
            (record {
              bound = h.bound;
              idle = h.idle;
              tracked = h.tracked;
              addressed = h.addressed;
            })
      | inr (v, e) ↦ rw (e, Ends) h
    ];
  }

  pub Keeps-set_name_to_block_id :
      {n : ℕ} (name bid : Bytes)
      → Keeps (IsConsistent n) (set_name_to_block_id be references name bid)
  unfolding set_name_to_block_id
  Keeps-set_name_to_block_id name bid = Keeps-bind (Keeps-get_name name) λ v.
      Keeps-bind (Keeps-when (not (is_empty bid)) (change bid (pos 1))) λ _.
        Keeps-bind (Keeps-when v.got_storage_ref (change v.new_value (negsuc 0)))
          λ _. Keeps-put_name name _
    where
      change :
          {n : ℕ} (id : Bytes) (v : ℤ)
          → Keeps
              (IsConsistent n)
              (get_existing be references id >>= λ p. add_storage_ref_count p v)
      change id v =
          Keeps-existing be references own id _ (λ n' q le lt. Keeps-add_storage_ref_count q v)

  Keeps-flush_block_name :
      {n : ℕ} (k : Bytes) (v : OldNew) → Keeps (IsConsistent n) (flush_block_name be references k v)
  unfolding flush_block_name
  Keeps-flush_block_name k v = Keeps-bind Keeps-get λ s. Keeps-bind (Keeps-lift _) λ backend.
      Keeps-bind (Keeps-set_backend backend) λ _.
        Keeps-bind
          (Keeps-when (not (is_empty v.new_value)) (
            Keeps-existing be references own v.new_value _ λ n' q le lt.
              Keeps-bind (Keeps-add_ref_count be references own q (pos 1) lt)
                (λ _. Keeps-add_storage_ref_count q (negsuc 0))))
          λ _.
            Keeps-bind
              (Keeps-when (not (is_empty v.old_value)) (
                Keeps-existing be references own v.old_value _
                  λ n' q le lt. Keeps-add_ref_count be references own q (negsuc 0) lt))
              λ _. Keeps-put_name k (flushed_name v)

  Keeps-flush_names_loop :
      {n : ℕ} (m : List (Bytes × OldNew)) (ops : ℕ)
      → Keeps (IsConsistent n) (flush_names_loop be references m ops)
  unfolding flush_names_loop
  Keeps-flush_names_loop [] ops = Keeps-pure ops
  Keeps-flush_names_loop {n} ((k, v) ∷ m) ops =
      let later = λ (ops' : ℕ). Keeps-flush_names_loop {n = n} m ops' in
      search (steps, later, Keeps-flush_block_name) depth 8

  Keeps-flush_block_names : {n : ℕ} → Keeps (IsConsistent n) (flush_block_names be references)
  unfolding flush_block_names
  Keeps-flush_block_names = search (steps, Keeps-flush_names_loop)

  Keeps-flush_backend :
      {n : ℕ} (c : Counters) (ops : ℕ) → Keeps (IsConsistent n) (flush_backend be references c ops)
  unfolding flush_backend
  Keeps-flush_backend c ops = search steps depth 10

  pub Keeps-flush_all : {n : ℕ} (fuel : ℕ) → Keeps (IsConsistent n) (flush_all be references fuel)
  unfolding flush_all
  Keeps-flush_all fuel =
      search
        (
          steps, Keeps-flush_block_names, Keeps-flush_dirty_blocks, Keeps-flush_dirty_storage_refs,
          Keeps-flush_backend,
        )
        depth 14
