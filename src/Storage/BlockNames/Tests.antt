-- ===== src/Storage/BlockNames/Tests.antt =====
-- Tests of the names of storage/nameinblock.go, in blocks in memory.
use mathlib.Core.List.{append_assoc}
use go_tfhfs.Common.{
  zero, suc, true, false, Option, none, some, [], ◌∷◌, ◌++◌, Bytes, bytes_eq, bytes_eq_iff, Outcome,
  ok, panic, ◌>>=◌, map_get, map_set, ◌≡◌, ◌≢◌, inl, inr, refl, ◌∙◌, ap, append_right-nil,
  Bool-cases,
}
use go_tfhfs.Codec.{Wire}
use go_tfhfs.Storage.Types.{Block, bs_unset}
use go_tfhfs.Storage.InMemory.{InMemoryBackend}
use go_tfhfs.Storage.InMemory.Names.{
  IsStocked, memory_blocks, memory_blocks-IsBlockBackend, memory_blocks-valid, memory_blocks-holds,
  memory_blocks-storable,
}
use go_tfhfs.Storage.BlockNames.{
  NameMap, NameInBlock, new_name_in_block, get_block_id_by_name, set_name_to_block_id, renamed,
  or_no_id,
}
use go_tfhfs.Storage.BlockNames.Laws.{Agrees, Untouched, get_block_id_by_name_lem}
use go_tfhfs.Storage.BlockNames.Changes.{
  SameBlocks, set_name_to_block_id_lem, set_name_on_nil_map_panics,
}

-- A marshalling of names: bytes are raised by one, and 0 ends a string.
abbrev string : Bytes → Bytes → Bytes
string [] rest = zero ∷ rest
string (x ∷ xs) rest = suc x ∷ string xs rest

abbrev strings : NameMap → Bytes
strings [] = []
strings ((k, v) ∷ m) = string k (string v (strings m))

abbrev read_strings : Bytes → Option Bytes → Bytes → NameMap
read_strings cur k [] = []
read_strings cur none (zero ∷ r) = read_strings [] (some cur) r
read_strings cur (some k) (zero ∷ r) = (k, cur) ∷ read_strings [] none r
read_strings cur none (suc x ∷ r) = read_strings (cur ++ (x ∷ [])) none r
read_strings cur (some k) (suc x ∷ r) = read_strings (cur ++ (x ∷ [])) (some k) r

read_string :
    (xs cur rest : Bytes) (k : Option Bytes)
    → read_strings cur k (string xs rest) ≡ read_strings (cur ++ xs) k (zero ∷ rest)
read_string [] cur rest k = rw (append_right-nil cur) refl
read_string (x ∷ xs) cur rest none =
    read_string xs (cur ++ (x ∷ [])) rest none ∙ rw (append_assoc cur (x ∷ []) xs) refl
read_string (x ∷ xs) cur rest (some k) =
    read_string xs (cur ++ (x ∷ [])) rest (some k) ∙ rw (append_assoc cur (x ∷ []) xs) refl

read_strings-strings : (m : NameMap) → read_strings [] none (strings m) ≡ m
read_strings-strings [] = refl
read_strings-strings ((k, v) ∷ m) =
    read_string k [] (string v (strings m)) none
    ∙ (read_string v [] (strings m) (some k) ∙ ap (◌∷◌ (k, v)) (read_strings-strings m))

abbrev names_wire : Wire NameMap
names_wire = record { marshal = strings; unmarshal = λ b. some (read_strings [] none b) }

names_round_trip : (m : NameMap) → names_wire.unmarshal (names_wire.marshal m) ≡ some m
names_round_trip m = ap some (read_strings-strings m)

abbrev names_id : Bytes
names_id = 9 ∷ []

-- The block of names in memory, by its data.
abbrev names_block : Bytes → Block
names_block d = record {
  id = names_id;
  ref_count = 0;
  status = bs_unset;
  block_data = some d;
  has_backend = true;
  stored = none;
  deps = none;
  storage_ref_count = 0;
  external_storage_ref_count = 0;
  have_disk_refs = false;
  have_storage_refs = false;
}

abbrev with_names : NameMap → InMemoryBackend
with_names m = record { id2_block = (names_id, names_block (strings m)) ∷ []; name2_id = [] }

abbrev no_blocks : InMemoryBackend
no_blocks = record { id2_block = []; name2_id = [] }

no_blocks-IsStocked : IsStocked no_blocks
unfolding map_get
no_blocks-IsStocked id b e = cc

with_names-IsStocked : (m : NameMap) → IsStocked (with_names m)
unfolding map_get
with_names-IsStocked m id b e = elim (Bool-cases (bytes_eq names_id id)) [
  | inl same ↦
      let e' : some (names_block (strings m)) ≡ some b = rw same at e in
      let this : names_block (strings m) ≡ b = cc in
      rw (← this) ((bytes_eq_iff names_id id).0 same, strings m, refl)
  | inr other ↦ let e' : ◌≡◌ {A = Option Block} none (some b) = rw other at e in cc
]

-- The names of a new start.
abbrev one_name : NameMap
one_name = (1 ∷ [], 5 ∷ []) ∷ []

not_no_names : one_name ≢ []
not_no_names e = cc

set_name_to_block_id_lem_example :
    (self' : NameInBlock) × (s' : InMemoryBackend) × (set_name_to_block_id memory_blocks names_wire
        names_id new_name_in_block
        (with_names one_name)
        (2 ∷ [])
        (6 ∷ [])
      ≡ ok (self', s'))
    × memory_blocks-IsBlockBackend.valid s'
    × Agrees memory_blocks memory_blocks-IsBlockBackend names_wire names_id names_round_trip self'
        s'
        (renamed (2 ∷ []) (6 ∷ []) one_name)
    × Agrees memory_blocks memory_blocks-IsBlockBackend names_wire names_id names_round_trip
        new_name_in_block s'
        (renamed (2 ∷ []) (6 ∷ []) one_name)
    × SameBlocks memory_blocks memory_blocks-IsBlockBackend names_wire names_id names_round_trip
        (with_names one_name)
        s'
unfolding new_name_in_block map_get bytes_eq
set_name_to_block_id_lem_example =
    set_name_to_block_id_lem memory_blocks memory_blocks-IsBlockBackend names_wire names_id
      names_round_trip new_name_in_block (with_names one_name) one_name (2 ∷ []) (6 ∷ [])
      (memory_blocks-valid (with_names one_name) (with_names-IsStocked one_name))
      (inr (refl, refl, inl (memory_blocks-holds (with_names one_name) names_id)))
      (inr (inr (refl, inl not_no_names)))
      (memory_blocks-storable (with_names one_name) (strings (renamed (2 ∷ []) (6 ∷ []) one_name)))

get_block_id_by_name_lem_example :
    (self' : NameInBlock) × (s' : InMemoryBackend) × (get_block_id_by_name memory_blocks names_wire
        names_id new_name_in_block
        (with_names one_name)
        (1 ∷ [])
      ≡ ok (or_no_id (map_get (1 ∷ []) one_name), self', s'))
    × memory_blocks-IsBlockBackend.valid s'
    × Untouched memory_blocks memory_blocks-IsBlockBackend names_wire names_id names_round_trip
        (with_names one_name)
        s'
    × Agrees memory_blocks memory_blocks-IsBlockBackend names_wire names_id names_round_trip self'
        s' one_name
unfolding new_name_in_block map_get bytes_eq
get_block_id_by_name_lem_example =
    get_block_id_by_name_lem memory_blocks memory_blocks-IsBlockBackend names_wire names_id
      names_round_trip new_name_in_block (with_names one_name) one_name (1 ∷ [])
      (memory_blocks-valid (with_names one_name) (with_names-IsStocked one_name))
      (inr (refl, refl, inl (memory_blocks-holds (with_names one_name) names_id)))

set_name_on_nil_map_panics_example :
    set_name_to_block_id memory_blocks names_wire names_id new_name_in_block
      (with_names [])
      (1 ∷ [])
      (5 ∷ [])
    ≡ panic
unfolding map_get bytes_eq
set_name_on_nil_map_panics_example =
    set_name_on_nil_map_panics memory_blocks memory_blocks-IsBlockBackend names_wire names_id
      names_round_trip (with_names []) (1 ∷ []) (5 ∷ [])
      (memory_blocks-valid (with_names []) (with_names-IsStocked []))
      (memory_blocks-holds (with_names []) names_id) refl

-- A first name is set where there is no block, and can be set again.
abbrev set_twice : Outcome Bytes
set_twice = do
  (a, s) ←
      set_name_to_block_id memory_blocks names_wire names_id new_name_in_block no_blocks (1 ∷ [])
        (5 ∷ [])
  (b, s') ← set_name_to_block_id memory_blocks names_wire names_id a s (2 ∷ []) (6 ∷ [])
  (x, c, s'') ← get_block_id_by_name memory_blocks names_wire names_id new_name_in_block s' (1 ∷ [])
  ok x

names_kept : set_twice ≡ ok (5 ∷ [])
unfolding set_name_to_block_id get_block_id_by_name memory_blocks bytes_eq map_set new_name_in_block
names_kept = refl
