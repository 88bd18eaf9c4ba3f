-- ===== src/Storage/InMemory.antt =====
-- The in-memory backend: storage/inmemory/inmemory.go. Its lock makes each call one step.
use go_tfhfs.Common.{
  ℕ, Bool, true, false, Option, none, some, List, [], ◌∷◌, Bytes, Outcome, ok, panic, ◌>>=◌,
  map_get, map_set, map_delete,
}
use go_tfhfs.Storage.Types.{Block, Backend}
pub mod Laws
pub mod Names

pub record InMemoryBackend : Type 0 where
  pub id2_block : List (Bytes × Block)
  pub name2_id : List (Bytes × Bytes)

unfoldable pub new_in_memory_backend : InMemoryBackend
new_in_memory_backend = record { id2_block = []; name2_id = [] }

unfoldable pub delete_block : InMemoryBackend → Bytes → Outcome InMemoryBackend
unfolding map_delete
delete_block self id = ok (record self { id2_block = map_delete id self.id2_block })

-- A nil pointer or a missing block panics.
abbrev pub present : {A : Type 0} → Option A → Outcome A
present none = panic
present (some a) = ok a

unfoldable pub get_block_data : InMemoryBackend → Bytes → Outcome Bytes
unfolding map_get
get_block_data self id = do b ← present (map_get id self.id2_block); present b.block_data

unfoldable pub get_block_by_id : InMemoryBackend → Bytes → Option Block
unfolding map_get
get_block_by_id self id = map_get id self.id2_block

-- A missing key of a Go map of strings reads as the empty string.
abbrev pub or_empty : Option Bytes → Bytes
or_empty none = []
or_empty (some id) = id

unfoldable pub get_block_id_by_name : InMemoryBackend → Bytes → Bytes
unfolding map_get
get_block_id_by_name self name = or_empty (map_get name self.name2_id)

unfoldable pub set_name_to_block_id : InMemoryBackend → Bytes → Bytes → Outcome InMemoryBackend
unfolding map_set
set_name_to_block_id self name block_id =
    ok (record self { name2_id = map_set name block_id self.name2_id })

-- The copy that the map holds.
abbrev pub add_block : InMemoryBackend → Block → InMemoryBackend
add_block self b = record self {
  id2_block = map_set b.id (record b { has_backend = true }) self.id2_block;
}

unfoldable pub store_block : InMemoryBackend → Block → Outcome InMemoryBackend
unfolding map_get map_set
store_block self b = elim (map_get b.id self.id2_block) [
  | some old ↦ panic
  | none ↦ ok (add_block self b)
]

unfoldable pub update_block : InMemoryBackend → Block → Outcome (ℕ × InMemoryBackend)
unfolding map_get
update_block self b = elim (map_get b.id self.id2_block) [ some old ↦ ok (1, self) | none ↦ panic ]
