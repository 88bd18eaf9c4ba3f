-- ===== src/Device/Backend/Reads.antt =====
-- Reading blocks of the flat device: `GetBlockData` and `GetBlockById` of storage/tree/tree.go.
use go_tfhfs.Common.{
  ◌≡◌, refl, ◌∙◌, Option, none, some, List, ◌∷◌, Bytes, ok, arith, ◌>>=◌, map_get,
}
use go_tfhfs.Codec.{Codec, Wire}
use go_tfhfs.Storage.Types.{Block}
use go_tfhfs.IbTree.KeyTree.{KeyTree, IsReadable}
use go_tfhfs.Device.Location.{LocationEntry}
use go_tfhfs.Device.MemoryFile.Reads.{read_data-pieces}
use go_tfhfs.Device.Allocator.Searching.{same_view}
use go_tfhfs.Device.Backend.{
  BlockData, TreeStore, load_block_data, read_decoded, get_block_data, block_of, unmarshalled,
}
use go_tfhfs.Device.Backend.Rows.{Row, IsRow, IsStore, entry_of, entries_of, kept_rows, All-map_get}

abbrev pub row_data : Option Row → Option Bytes
row_data none = none
row_data (some r) = some r.block_data

abbrev pub row_entry : Option Row → Option BlockData
row_entry none = none
row_entry (some r) = some (entry_of r)

abbrev pub row_block : Bytes → Option Row → Option Block
row_block id none = none
row_block id (some r) = some (block_of id (entry_of r))

module _ {T R : Type 0} (o : KeyTree T) (h : IsReadable o) (c : Codec R) (wire : Wire BlockData)
    (round_trip : (bd : BlockData) → wire.unmarshal (wire.marshal bd) ≡ some bd) where
  -- A call on the tree that changes no entry leaves the device as it was.
  pub moved :
      (t' : T) (self : TreeStore T R) (fs : List LocationEntry) (rows : List (Bytes × Row))
      → IsStore o h c wire self fs rows
      → h.valid t'
      → ((k : Bytes) → h.view t' k ≡ h.view self.space.t k)
      → IsStore o h c wire (record self { space = record self.space { t = t' } }) fs rows
  moved t' self fs rows s valid same = record {
    device = same_view o h t' self.space fs s.device valid same;
    table = λ id. same (98 ∷ id) ∙ s.table id;
    rows_held =
        kept_rows o h c wire self.space (record self.space { t = t' }) self.file fs fs rows
          (λ v u. u) s.rows_held;
    rows_apart = s.rows_apart;
  }

  unmarshalled_lem : (r : Option Row) → unmarshalled o c wire (entries_of wire r) ≡ ok (row_entry r)
  unmarshalled_lem none = refl
  unmarshalled_lem (some r) = rw (round_trip (entry_of r)) refl

  pub load_block_data_lem :
      (self : TreeStore T R) (fs : List LocationEntry) (rows : List (Bytes × Row)) (id : Bytes)
      → IsStore o h c wire self fs rows
      → (self' : TreeStore T R) × (load_block_data o c wire self id
          ≡ ok (row_entry (map_get id rows), self'))
        × IsStore o h c wire self' fs rows
        × (self'.space.bytes_total ≡ self.space.bytes_total)
  unfolding load_block_data
  load_block_data_lem self fs rows id s =
      let (t', ran, valid', same) = h.get_law self.space.t (98 ∷ id) s.device.valid in
      (
        record self { space = record self.space { t = t' } },
        rw (ran, ◌>>=◌, s.table id, unmarshalled_lem (map_get id rows)) refl,
        moved t' self fs rows s valid' same,
        refl,
      )

  read_row :
      (self : TreeStore T R) (fs : List LocationEntry) (r : Row)
      → IsRow o h c wire self.space self.file fs r
      → read_decoded c self.file r.location ≡ ok (some r.block_data)
  unfolding read_decoded
  read_row self fs r x =
      rw (read_data-pieces self.file r.location x.inside (omega (arith, x.sized)), ◌>>=◌, x.decodes)
        refl

  data_steps :
      (self self' : TreeStore T R) (fs : List LocationEntry) (rows : List (Bytes × Row))
      (id : Bytes) (r : Option Row)
      → map_get id rows ≡ r
      → load_block_data o c wire self id ≡ ok (row_entry r, self')
      → IsStore o h c wire self' fs rows
      → get_block_data o c wire self id ≡ ok (row_data r, self')
  unfolding get_block_data
  data_steps self self' fs rows id none e ran s = rw (ran, ◌>>=◌) refl
  data_steps self self' fs rows id (some r) e ran s =
      let row = All-map_get (IsRow o h c wire self'.space self'.file fs) rows id r s.rows_held e in
      rw (ran, ◌>>=◌, read_row self' fs r row) refl

  -- Reading a block of a sound device never panics: it gives the data of the block, or nil where the
  -- id is not there, and the device keeps its size and holds what it held. The marshalling of block
  -- data gives back what it took.
  pub get_block_data_lem :
      (self : TreeStore T R) (fs : List LocationEntry) (rows : List (Bytes × Row)) (id : Bytes)
      → IsStore o h c wire self fs rows
      → (self' : TreeStore T R) × (get_block_data o c wire self id
          ≡ ok (row_data (map_get id rows), self'))
        × IsStore o h c wire self' fs rows
        × (self'.space.bytes_total ≡ self.space.bytes_total)
  get_block_data_lem self fs rows id s =
      let (self', ran, s', total) = load_block_data_lem self fs rows id s in
      (self', data_steps self self' fs rows id (map_get id rows) refl ran s', s', total)
