-- ===== src/Device/Backend/Rows.antt =====
-- What the flat device of storage/tree/tree.go holds: a list of blocks with their data and places.
use go_tfhfs.Common.{
  ◌^◌, ◌<◌, ◌≤◌, ◌≡◌, refl, inl, inr, Option, none, some, List, [], ◌∷◌, Bytes, length, arith, All,
  bytes_eq, map_get, Bool-cases,
}
use go_tfhfs.Codec.{Codec, Wire}
use go_tfhfs.Storage.Types.{BlockMetadata}
use go_tfhfs.IbTree.KeyTree.{KeyTree, IsReadable}
use go_tfhfs.Device.Location.{LocationEntry}
use go_tfhfs.Device.MemoryFile.Reads.{Apart, IsDisjoint, IsInside, pieces, sum_sizes}
use go_tfhfs.Device.Allocator.{TreeBackend}
use go_tfhfs.Device.Allocator.Places.{blocks}
use go_tfhfs.Device.Allocator.Devices.{IsDevice, IsUsed, IsGiven, all_blocks}
use go_tfhfs.Device.Backend.{BlockData, TreeStore}

-- A block on the device.
pub record Row : Type 0 where
  pub block_metadata : BlockMetadata
  pub location : List LocationEntry
  pub block_data : Bytes

abbrev pub entry_of : Row → BlockData
entry_of r = record { block_metadata = r.block_metadata; location = r.location }

abbrev pub entries_of : Wire BlockData → Option Row → Option Bytes
entries_of wire none = none
entries_of wire (some r) = some (wire.marshal (entry_of r))

-- The blocks of the places lie apart from all those of the others.
abbrev pub Across : List LocationEntry → List LocationEntry → Type 0
Across vs ws = All (λ v. All (Apart v) (all_blocks ws)) (all_blocks vs)

abbrev pub RowsApart : List (Bytes × Row) → Type 0
RowsApart [] = Unit
RowsApart ((id, r) ∷ rows) = All (λ p. Across r.location p.1.location) rows × RowsApart rows

module _ {T R : Type 0} (o : KeyTree T) (h : IsReadable o) (c : Codec R)
    (wire : Wire BlockData) where
  -- The data of the row are on the device, in places that are in use.
  pub record IsRow (space : TreeBackend T) (file : Bytes) (fs : List LocationEntry) (r : Row)
      : Type 0 where
    pub given : All (IsGiven o h space fs) r.location
    pub disjoint : IsDisjoint (all_blocks r.location)
    pub inside : All (IsInside file) r.location
    pub sized : sum_sizes r.location < 2 ^ 58
    pub decodes : c.decode_bytes (pieces file r.location) [] ≡ some r.block_data

  -- The device is sound and holds exactly the blocks of `rows`.
  pub record IsStore (self : TreeStore T R) (fs : List LocationEntry) (rows : List (Bytes × Row))
      : Type 0 where
    pub device : IsDevice o h self.space fs
    pub table : (id : Bytes) → h.view self.space.t (98 ∷ id) ≡ entries_of wire (map_get id rows)
    pub rows_held : All (λ p. IsRow self.space self.file fs p.1) rows
    pub rows_apart : RowsApart rows

pub All-map_get :
    {A : Type 0} (P : A → Type 0) (rows : List (Bytes × A)) (id : Bytes) (r : A)
    → All (λ p. P p.1) rows
    → map_get id rows ≡ some r
    → P r
unfolding map_get
All-map_get P [] id r a e = cc
All-map_get P ((j, x) ∷ rows) id r a e = elim (Bool-cases (bytes_eq j id)) [
  | inl same ↦ let this : x ≡ r = let e' : some x ≡ some r = rw same at e in cc in rw this at a.0
  | inr other ↦ All-map_get P rows id r a.1 (rw other at e)
]

module _ {T R : Type 0} (o : KeyTree T) (h : IsReadable o) (c : Codec R)
    (wire : Wire BlockData) where
  -- Every place in use stays in use.
  abbrev pub StillUsed :
      TreeBackend T → TreeBackend T → List LocationEntry → List LocationEntry → Type 0
  StillUsed space space' fs fs' =
      (v : LocationEntry) → IsUsed o h space fs v → IsUsed o h space' fs' v

  kept-IsGiven :
      (space space' : TreeBackend T) (fs fs' ls : List LocationEntry)
      → StillUsed space space' fs fs'
      → All (IsGiven o h space fs) ls
      → All (IsGiven o h space' fs') ls
  kept-IsGiven space space' fs fs' [] keeps a = tt
  kept-IsGiven space space' fs fs' (le ∷ ls) keeps a = (
    record {
      positive = a.0.positive;
      small = a.0.small;
      used = keeps (blocks le) a.0.used;
      clear = a.0.clear;
    },
    kept-IsGiven space space' fs fs' ls keeps a.1,
  )

  IsInside-more :
      (file file' : Bytes) (ls : List LocationEntry)
      → length file ≤ length file'
      → All (IsInside file) ls
      → All (IsInside file') ls
  IsInside-more file file' [] more a = tt
  IsInside-more file file' (le ∷ ls) more a =
      (omega (arith, a.0), IsInside-more file file' ls more a.1)

  pub kept_row :
      (space space' : TreeBackend T) (file file' : Bytes) (fs fs' : List LocationEntry) (r : Row)
      → StillUsed space space' fs fs'
      → length file ≤ length file'
      → pieces file' r.location ≡ pieces file r.location
      → IsRow o h c wire space file fs r
      → IsRow o h c wire space' file' fs' r
  kept_row space space' file file' fs fs' r keeps more same x = record {
    given = kept-IsGiven space space' fs fs' r.location keeps x.given;
    disjoint = x.disjoint;
    inside = IsInside-more file file' r.location more x.inside;
    sized = x.sized;
    decodes = rw same x.decodes;
  }

  -- Rows on a file that does not change.
  pub kept_rows :
      (space space' : TreeBackend T) (file : Bytes) (fs fs' : List LocationEntry)
      (rows : List (Bytes × Row))
      → StillUsed space space' fs fs'
      → All (λ p. IsRow o h c wire space file fs p.1) rows
      → All (λ p. IsRow o h c wire space' file fs' p.1) rows
  kept_rows space space' file fs fs' [] keeps a = tt
  kept_rows space space' file fs fs' (p ∷ rows) keeps a = (
    kept_row space space' file file fs fs' p.1 keeps (omega arith) refl a.0,
    kept_rows space space' file fs fs' rows keeps a.1,
  )
