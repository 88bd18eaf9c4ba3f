-- ===== src/Storage/BlockNames.antt =====
-- The names of blocks that are kept in a block: storage/nameinblock.go, over the calls of a backend
-- of blocks. Every call may change the state `S` of that backend.
use go_tfhfs.Common.{
  ℕ, true, false, Option, none, some, List, [], ◌∷◌, Bytes, bytes_eq, Outcome, ok, panic, ◌>>=◌,
  map_get, map_set, map_delete, if◌then◌else◌, ◌≡◌, ◌≢◌, ◌⊎◌,
}
use go_tfhfs.Codec.{Wire}
use go_tfhfs.Storage.Types.{Block, BlockStatus, bs_unset}
pub mod Laws
pub mod Changes
pub mod Tests

-- The part of `BlockBackend` that is used.
pub record BlockBackend (S : Type 0) : Type 0 where
  pub get_block_by_id : S → Bytes → Outcome (Option Block × S)
  pub get_block_data : S → Bytes → Outcome (Bytes × S)
  pub delete_block : S → Bytes → Outcome S
  pub store_block : S → Block → Outcome S

-- What looking a block up gives, by what is held.
abbrev pub IsBlock : Bytes → Option Bytes → Option Block → Type 0
IsBlock id none r = r ≡ none
IsBlock id (some d) none = ⊥
IsBlock id (some d) (some b) = (b.id ≡ id) × ((b.block_data ≡ none) ⊎ (b.block_data ≡ some d))

-- What the backend promises, in states that are `valid`. A block that it gives has its id, and its
-- data if it has any; the data of a block that is `storable` are read back.
pub record IsBlockBackend {S : Type 0} (bb : BlockBackend S) : Type 1 where
  pub valid : S → Type 0
  pub holds : S → Bytes → Option Bytes
  pub storable : S → Bytes → Type 0
  pub by_id_law :
      (s : S) (id : Bytes)
      → valid s
      → (r : Option Block) × (s' : S) × (bb.get_block_by_id s id ≡ ok (r, s'))
        × valid s'
        × ((j : Bytes) → holds s' j ≡ holds s j)
        × ((d : Bytes) → storable s d → storable s' d)
        × IsBlock id (holds s id) r
  pub data_law :
      (s : S) (id d : Bytes)
      → valid s
      → holds s id ≡ some d
      → (s' : S) × (bb.get_block_data s id ≡ ok (d, s'))
        × valid s'
        × ((j : Bytes) → holds s' j ≡ holds s j)
        × ((x : Bytes) → storable s x → storable s' x)
  pub delete_law :
      (s : S) (id : Bytes)
      → valid s
      → holds s id ≢ none
      → (s' : S) × (bb.delete_block s id ≡ ok s')
        × valid s'
        × ((j : Bytes) → holds s' j ≡ (if bytes_eq id j then none else holds s j))
        × ((d : Bytes) → storable s d → storable s' d)
  pub store_law :
      (s : S) (bl : Block) (d : Bytes)
      → valid s
      → bl.block_data ≡ some d
      → holds s bl.id ≡ none
      → storable s d
      → (s' : S) × (bb.store_block s bl ≡ ok s')
        × valid s'
        × ((j : Bytes) → holds s' j ≡ (if bytes_eq bl.id j then some d else holds s j))

abbrev pub NameMap : Type 0
NameMap = List (Bytes × Bytes)

-- A map of Go, which may be nil.
abbrev pub GoMap : Type 0
GoMap = Option NameMap

-- A nil map reads as an empty one.
abbrev pub entries_of : GoMap → NameMap
entries_of none = []
entries_of (some m) = m

-- What `UnmarshalMsg` leaves of a new map: it makes the map only if there is an entry.
abbrev pub unmarshalled : NameMap → GoMap
unmarshalled [] = none
unmarshalled (e ∷ m) = some (e ∷ m)

-- `NameInBlockBackend`: the map once it is loaded, and the block that it stands in.
pub record NameInBlock : Type 0 where
  pub named_map : Option GoMap
  pub block : Option Bytes

unfoldable pub new_name_in_block : NameInBlock
new_name_in_block = record { named_map = none; block = none }

abbrev pub or_panic : {A : Type 0} → Option A → Outcome A
or_panic none = panic
or_panic (some a) = ok a

-- A missing key of a Go map of strings reads as the empty string.
abbrev pub or_no_id : Option Bytes → Bytes
or_no_id none = []
or_no_id (some id) = id

-- The map after a change: the empty id removes the name.
abbrev pub renamed : Bytes → Bytes → NameMap → NameMap
renamed name block_id m =
    if bytes_eq block_id [] then map_delete name m else map_set name block_id m

-- The change of the map, where an assignment to a nil map panics, and a removal leaves it.
unfoldable pub change_map : Bytes → Bytes → GoMap → Outcome GoMap
unfolding map_set map_delete
change_map name block_id none = if bytes_eq block_id [] then ok none else panic
change_map name block_id (some m) = ok (some (renamed name block_id m))

module _ {S : Type 0} (bb : BlockBackend S) (wire : Wire NameMap) (map_name : Bytes) where
  -- `GetData` of a block outside of a storage.
  abbrev pub data_of : Block → S → Outcome (Bytes × S)
  data_of b s = elim b.block_data [ some d ↦ ok (d, s) | none ↦ bb.get_block_data s b.id ]

  -- `getBlock` where nothing is loaded yet.
  unfoldable pub load_names : NameInBlock → S → Outcome (GoMap × NameInBlock × S)
  load_names self s = do
    (v, s₁) ← bb.get_block_by_id s map_name
    elim v [
      | none ↦ ok (some [], record self { named_map = some (some []) }, s₁)
      | some b ↦ (do
        (d, s₂) ← data_of b s₁
        m ← or_panic (wire.unmarshal d)
        ok (unmarshalled m, record { named_map = some (unmarshalled m); block = some b.id }, s₂))
    ]

  unfoldable pub get_names : NameInBlock → S → Outcome (GoMap × NameInBlock × S)
  unfolding load_names
  get_names self s = elim self.named_map [ some m ↦ ok (m, self, s) | none ↦ load_names self s ]

  unfoldable pub get_block_id_by_name : NameInBlock → S → Bytes → Outcome (Bytes × NameInBlock × S)
  unfolding get_names map_get
  get_block_id_by_name self s name = do
    (m, self', s') ← get_names self s
    ok (or_no_id (map_get name (entries_of m)), self', s')

  -- The block that the map is written to.
  abbrev pub name_block : NameMap → Block
  name_block m = record {
    id = map_name;
    ref_count = 0;
    status = bs_unset;
    block_data = some (wire.marshal m);
    has_backend = false;
    stored = none;
    deps = none;
    storage_ref_count = 0;
    external_storage_ref_count = 0;
    have_disk_refs = false;
    have_storage_refs = false;
  }

  abbrev pub delete_old : Option Bytes → S → Outcome S
  delete_old none s = ok s
  delete_old (some id) s = bb.delete_block s id

  unfoldable pub set_name_to_block_id : NameInBlock → S → Bytes → Bytes → Outcome (NameInBlock × S)
  unfolding get_names change_map
  set_name_to_block_id self s name block_id = do
    (m, self', s₁) ← get_names self s
    m' ← change_map name block_id m
    s₂ ← delete_old self'.block s₁
    s₃ ← bb.store_block s₂ (name_block (entries_of m'))
    ok (record { named_map = some m'; block = some map_name }, s₃)
