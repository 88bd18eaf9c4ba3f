-- ===== src/Storage/Names.antt =====
-- The names of blocks: `getName`, `setNameToBlockId` and `flushBlockNames` of storage/storage.go.
use go_tfhfs.Common.{
  ℕ, suc, ◌+◌, Bool, true, false, not, Option, none, some, List, [], ◌∷◌, Bytes, bytes_eq,
  if◌then◌else◌, map_get, map_set, ok,
}
use go_tfhfs.Storage.Types.{
  ℤ, pos, negsuc, Backend, OldNew, M, pure, ◌>>=◌, ◌>>◌, lift, when, get, set_backend, set_names,
}
use go_tfhfs.Storage.Refs.{add_storage_ref_count, add_ref_count, get_existing}
pub mod Removal

abbrev pub is_empty : Bytes → Bool
is_empty [] = true
is_empty (b ∷ bs) = false

-- The entry of a name in the map.
unfoldable pub put_name : {B : Type 0} → Bytes → OldNew → M B (Unit {0})
unfolding map_set
put_name name n = do s ← get; set_names (map_set name n s.names)

-- The entry after its flush.
unfoldable pub flushed_name : OldNew → OldNew
flushed_name v = record v {
  old_value = v.new_value;
  got_storage_ref = if is_empty v.new_value then v.got_storage_ref else false;
}

module _ {B : Type 0} (be : Backend B) (references : Option (Bytes → Bytes → List Bytes)) where
  unfoldable pub get_name : Bytes → M B OldNew
  unfolding map_get map_set
  get_name name s = elim (map_get name s.names) [
    | some n ↦ ok (n, s)
    | none ↦
        let id = be.get_block_id_by_name s.backend name in
        let n : OldNew = record { old_value = id; new_value = id; got_storage_ref = false } in
        ok (n, record s { names = map_set name n s.names })
  ]

  unfoldable pub set_name_to_block_id : Bytes → Bytes → M B (Unit {0})
  unfolding get_name get_existing add_storage_ref_count put_name
  set_name_to_block_id name bid = do
    n ← get_name name
    when (not (is_empty bid))
        (do p ← get_existing be references bid; add_storage_ref_count p (pos 1))
    when n.got_storage_ref
        (do p ← get_existing be references n.new_value; add_storage_ref_count p (negsuc 0))
    put_name name (record n { new_value = bid; got_storage_ref = true })

  unfoldable pub flush_block_name : Bytes → OldNew → M B (Unit {0})
  unfolding get_existing add_storage_ref_count add_ref_count put_name flushed_name
  flush_block_name k v = do
    s ← get
    backend ← lift (be.set_name_to_block_id s.backend k v.new_value)
    set_backend backend
    when (not (is_empty v.new_value)) (do
      p ← get_existing be references v.new_value
      add_ref_count be references p (pos 1)
      add_storage_ref_count p (negsuc 0))
    when (not (is_empty v.old_value))
        (do p ← get_existing be references v.old_value; add_ref_count be references p (negsuc 0))
    put_name k (flushed_name v)

  -- The loop of `flushBlockNames` over the entries of the map.
  unfoldable pub flush_names_loop : List (Bytes × OldNew) → ℕ → M B ℕ
  unfolding flush_block_name
  flush_names_loop [] ops = pure ops
  flush_names_loop ((k, v) ∷ rest) ops =
      if bytes_eq v.old_value v.new_value
      then flush_names_loop rest ops
      else (do flush_block_name k v; flush_names_loop rest (ops + 1))

  unfoldable pub flush_block_names : M B ℕ
  unfolding flush_names_loop
  flush_block_names = do s ← get; flush_names_loop s.names 0
