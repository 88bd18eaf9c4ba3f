-- ===== src/Storage/InMemory/Names.antt =====
-- The in-memory backend of storage/inmemory/inmemory.go as the block backend that the names of
-- storage/nameinblock.go stand in.
use go_tfhfs.Common.{
  ◌≡◌, ◌∙◌, Bool, true, false, refl, inl, inr, none, some, Option, Bytes, bytes_eq, bytes_eq_iff,
  Bool-cases, ok, panic, ◌>>=◌, arith, if◌then◌else◌, map_get, map_delete, map_get-map_set,
  map_get-map_delete, ap,
}
use go_tfhfs.Storage.Types.{Block}
use go_tfhfs.Storage.BlockNames.{BlockBackend, IsBlockBackend, IsBlock}
use go_tfhfs.Storage.InMemory.{
  InMemoryBackend, delete_block, get_block_data, get_block_by_id, store_block, add_block,
}

unfoldable pub memory_blocks : BlockBackend InMemoryBackend
unfolding delete_block get_block_data get_block_by_id store_block
memory_blocks = record {
  get_block_by_id = λ self id. ok (get_block_by_id self id, self);
  get_block_data = λ self id. (do d ← get_block_data self id; ok (d, self));
  delete_block = delete_block;
  store_block = store_block;
}

-- Every block stands under its own id, and has data.
abbrev pub IsStocked : InMemoryBackend → Type 0
IsStocked self =
    (id : Bytes) (b : Block)
    → map_get id self.id2_block ≡ some b
    → (b.id ≡ id) × (d : Bytes) × (b.block_data ≡ some d)

abbrev pub data_in : Option Block → Option Bytes
data_in none = none
data_in (some b) = b.block_data

abbrev pub held : InMemoryBackend → Bytes → Option Bytes
held self id = data_in (map_get id self.id2_block)

with_data :
    (id : Bytes) (b : Block) (v : Option Bytes) (d : Bytes)
    → b.id ≡ id
    → b.block_data ≡ v
    → v ≡ some d
    → IsBlock id v (some b)
with_data id b none d its_id at e = cc
with_data id b (some x) d its_id at e = (its_id, inr at)

found-IsBlock :
    (id : Bytes) (r : Option Block)
    → ((b : Block) → r ≡ some b → (b.id ≡ id) × (d : Bytes) × (b.block_data ≡ some d))
    → IsBlock id (data_in r) r
found-IsBlock id none own = refl
found-IsBlock id (some b) own =
    let (its_id, d, has) = own b refl in with_data id b b.block_data d its_id refl has

data_found :
    (self : InMemoryBackend) (id d : Bytes) (r : Option Block)
    → map_get id self.id2_block ≡ r
    → data_in r ≡ some d
    → memory_blocks.get_block_data self id ≡ ok (d, self)
unfolding memory_blocks get_block_data
data_found self id d none at e = cc
data_found self id d (some b) at e = rw (at, ◌>>=◌, e) refl

nothing_held :
    (self : InMemoryBackend) (id : Bytes) (r : Option Block)
    → ((b : Block) → r ≡ some b → (b.id ≡ id) × (d : Bytes) × (b.block_data ≡ some d))
    → data_in r ≡ none
    → r ≡ none
nothing_held self id none own e = refl
nothing_held self id (some b) own e = let (its_id, d, has) = own b refl in cc

deleted-IsStocked :
    (self : InMemoryBackend) (id : Bytes)
    → IsStocked self
    → IsStocked (record self { id2_block = map_delete id self.id2_block })
deleted-IsStocked self id h j b e = h j b (ground (arith, map_get-map_delete j id self.id2_block))

stored-IsStocked :
    (self : InMemoryBackend) (b : Block) (d : Bytes)
    → b.block_data ≡ some d
    → IsStocked self
    → IsStocked (add_block self b)
stored-IsStocked self b d has h j c e = elim (Bool-cases (bytes_eq b.id j)) [
  | inl same ↦
      let this : record b { has_backend = true } ≡ c =
        let e' : some (record b { has_backend = true }) ≡ some c = ground (
          arith,
          e,
          same,
          map_get-map_set j b.id (record b { has_backend = true }) self.id2_block,
        ) in
        cc in
      rw (← this) ((bytes_eq_iff b.id j).0 same, d, has)
  | inr other ↦
      h j c
        (ground (arith, map_get-map_set j b.id (record b { has_backend = true }) self.id2_block))
]

store_steps :
    (self : InMemoryBackend) (b : Block)
    → map_get b.id self.id2_block ≡ none
    → memory_blocks.store_block self b ≡ ok (add_block self b)
unfolding memory_blocks store_block
store_steps self b e =
    ap (λ (v : Option Block). elim v [ some old ↦ panic | none ↦ ok (add_block self b) ]) e

if_data :
    (c : Bool) (x y : Option Block)
    → data_in (if c then x else y) ≡ (if c then data_in x else data_in y)
if_data true x y = refl
if_data false x y = refl

-- The in-memory backend promises what the names in a block rely on, in states whose blocks stand
-- under their ids and have data.
pub memory_blocks-IsBlockBackend : IsBlockBackend memory_blocks
unfolding memory_blocks get_block_by_id delete_block store_block
memory_blocks-IsBlockBackend = record {
  valid = IsStocked;
  holds = held;
  storable = λ self d. Unit;
  by_id_law = λ self id v. (
    map_get id self.id2_block,
    self,
    refl,
    v,
    (λ j. refl),
    (λ d k. tt),
    found-IsBlock id (map_get id self.id2_block) (v id),
  );
  data_law = λ self id d v e.
      (self, data_found self id d (map_get id self.id2_block) refl e, v, (λ j. refl), (λ x k. tt));
  delete_law = λ self id v e. (
    record self { id2_block = map_delete id self.id2_block },
    refl,
    deleted-IsStocked self id v,
    (λ j.
        ap data_in (map_get-map_delete j id self.id2_block)
        ∙ if_data (bytes_eq id j) none (map_get j self.id2_block)),
    (λ d k. tt),
  );
  store_law = λ self b d v e absent k.
      let free = nothing_held self b.id (map_get b.id self.id2_block) (v b.id) absent in
      (
        add_block self b,
        store_steps self b free,
        stored-IsStocked self b d e v,
        λ j.
            ap data_in (map_get-map_set j b.id (record b { has_backend = true }) self.id2_block)
            ∙ if_data (bytes_eq b.id j) (some (record b { has_backend = true }))
                (map_get j self.id2_block)
            ∙ rw e refl,
      );
}

pub memory_blocks-valid :
    (self : InMemoryBackend) → IsStocked self → memory_blocks-IsBlockBackend.valid self
unfolding memory_blocks-IsBlockBackend
memory_blocks-valid self h = h

pub memory_blocks-holds :
    (self : InMemoryBackend) (id : Bytes)
    → memory_blocks-IsBlockBackend.holds self id ≡ held self id
unfolding memory_blocks-IsBlockBackend
memory_blocks-holds self id = refl

pub memory_blocks-storable :
    (self : InMemoryBackend) (d : Bytes) → memory_blocks-IsBlockBackend.storable self d
unfolding memory_blocks-IsBlockBackend
memory_blocks-storable self d = tt
