-- ===== src/Storage/InMemory/Laws.antt =====
-- What the in-memory backend promises to the storage: storage/inmemory/inmemory.go, against the
-- comments of storage/backend.go.
use go_tfhfs.Common.{
  ℕ, ◌≡◌, ◌≢◌, refl, ap, true, none, some, Bytes, Outcome, ok, panic, arith, map_get, map_set,
  map_delete, Option-cases, inl, inr, map_get-map_set, map_get-map_delete, bytes_eq_iff,
  bytes_eq_self,
}
use go_tfhfs.Storage.Types.{Block, Backend}
use go_tfhfs.Storage.InMemory.{
  InMemoryBackend, delete_block, get_block_data, get_block_by_id, get_block_id_by_name, add_block,
  store_block,
}
use go_tfhfs.Storage.Invariant.Loads.{HasOwnIds}

-- Storing a block that has data succeeds exactly for a new id; then that id leads to the block and its data, every other
-- id leads where it did, and the names are the same.
pub store_block_lem :
    (self : InMemoryBackend) (b : Block) (d : Bytes)
    → b.block_data ≡ some d
    → (get_block_by_id self b.id ≢ none → store_block self b ≡ panic)
      × (get_block_by_id self b.id ≡ none
          → (self' : InMemoryBackend) × (store_block self b ≡ ok self')
            × (get_block_by_id self' b.id ≡ some (record b { has_backend = true }))
            × (get_block_data self' b.id ≡ ok d)
            × ((id : Bytes) → id ≢ b.id → get_block_by_id self' id ≡ get_block_by_id self id)
            × (self'.name2_id ≡ self.name2_id))
unfolding get_block_by_id store_block get_block_data
store_block_lem self b d e = (
  λ old. ground arith,
  λ new. (
    add_block self b,
    ground arith,
    ground (
      arith,
      map_get-map_set b.id b.id (record b { has_backend = true }) self.id2_block,
      bytes_eq_self b.id,
    ),
    ground (
      arith,
      map_get-map_set b.id b.id (record b { has_backend = true }) self.id2_block,
      bytes_eq_self b.id,
    ),
    λ id other. ground (
      arith,
      map_get-map_set id b.id (record b { has_backend = true }) self.id2_block,
      bytes_eq_iff b.id id,
    ),
    refl,
  ),
)

-- Deleting removes the id, and no other.
pub delete_block_lem :
    (self : InMemoryBackend) (id : Bytes)
    → (self' : InMemoryBackend) × (delete_block self id ≡ ok self')
      × (get_block_by_id self' id ≡ none)
      × ((j : Bytes) → j ≢ id → get_block_by_id self' j ≡ get_block_by_id self j)
unfolding delete_block get_block_by_id
delete_block_lem self id = (
  record self { id2_block = map_delete id self.id2_block },
  refl,
  ground (arith, map_get-map_delete id id self.id2_block, bytes_eq_self id),
  λ j other. ground (arith, map_get-map_delete j id self.id2_block, bytes_eq_iff id j),
)

-- A backend whose blocks stand under their own ids. Only `StoreBlock` adds blocks, under their ids.
pub record Owned : Type 0 where
  pub memory : InMemoryBackend
  pub own : (id : Bytes) (b : Block) → map_get id memory.id2_block ≡ some b → b.id ≡ id

pub own_add :
    (self : Owned) (b : Block) (id : Bytes) (c : Block)
    → map_get id (add_block self.memory b).id2_block ≡ some c
    → c.id ≡ id
own_add self b id c e = ground (
  arith,
  map_get-map_set id b.id (record b { has_backend = true }) self.memory.id2_block,
  bytes_eq_iff b.id id,
  self.own id c,
)

pub own_delete :
    (self : Owned) (k id : Bytes) (c : Block)
    → map_get id (map_delete k self.memory.id2_block) ≡ some c
    → c.id ≡ id
own_delete self k id c e =
    ground (arith, map_get-map_delete id k self.memory.id2_block, self.own id c)

owned_delete : Owned → Bytes → Outcome Owned
owned_delete self id = ok (record {
  memory = record self.memory { id2_block = map_delete id self.memory.id2_block };
  own = own_delete self id;
})

owned_store : Owned → Block → Outcome Owned
owned_store self b = elim (map_get b.id self.memory.id2_block) [
  | some old ↦ panic
  | none ↦ ok (record { memory = add_block self.memory b; own = own_add self b })
]

owned_update : Owned → Block → Outcome (ℕ × Owned)
owned_update self b = elim (map_get b.id self.memory.id2_block) [
  | some old ↦ ok (1, self)
  | none ↦ panic
]

-- The in-memory backend as an instance of the interface.
unfoldable pub in_memory : Backend Owned
unfolding owned_delete owned_store owned_update get_block_data get_block_by_id get_block_id_by_name
    map_get map_set map_delete
in_memory = record {
  get_block_data = λ self id. get_block_data self.memory id;
  get_block_by_id = λ self id. get_block_by_id self.memory id;
  delete_block = owned_delete;
  store_block = owned_store;
  update_block = owned_update;
  get_block_id_by_name = λ self name. get_block_id_by_name self.memory name;
  set_name_to_block_id = λ self name id. ok (record {
    memory = record self.memory { name2_id = map_set name id self.memory.name2_id };
    own = self.own;
  });
  flush = λ self. ok self;
}

-- The in-memory backend meets what the storage relies on.
pub in_memory-HasOwnIds : HasOwnIds in_memory
unfolding in_memory
in_memory-HasOwnIds self id b e = self.own id b e

memory_or : InMemoryBackend → Outcome Owned → InMemoryBackend
memory_or m (ok self) = self.memory
memory_or m panic = m

stored_memory :
    (self self' : Owned) (b : Block)
    → map_get b.id self.memory.id2_block ≡ none
    → owned_store self b ≡ ok self'
    → add_block self.memory b ≡ self'.memory
unfolding owned_store memory_or
stored_memory self self' b new h = ap (memory_or self.memory) (rw (new, owned_store) at h)

-- A block with data that has been stored in memory comes back with the same data.
pub in_memory_stored :
    (self self' : Owned) (b : Block) (d : Bytes)
    → b.block_data ≡ some d
    → in_memory.store_block self b ≡ ok self'
    → in_memory.get_block_data self' b.id ≡ ok d
unfolding in_memory owned_store get_block_data
in_memory_stored self self' b d e h = elim (Option-cases (map_get b.id self.memory.id2_block)) [
  | inl new ↦
      let same : add_block self.memory b ≡ self'.memory = stored_memory self self' b new h in
      rw (← same) (
        ground (
          arith,
          e,
          map_get-map_set b.id b.id (record b { has_backend = true }) self.memory.id2_block,
          bytes_eq_self b.id,
        ))
  | inr (old, at) ↦
      let never : ◌≡◌ {A = Outcome Owned} panic (ok self') = rw (at, owned_store) at h in cc
]
