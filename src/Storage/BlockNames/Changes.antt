-- ===== src/Storage/BlockNames/Changes.antt =====
-- A name that is set stays set, also for the next start: `SetNameToBlockId` of
-- storage/nameinblock.go.
use go_tfhfs.Common.{
  true, false, [], Option, none, some, Bytes, bytes_eq, bytes_eq_self, ok, ◌>>=◌, ◌≡◌, ◌≢◌, ◌⊎◌,
  inl, inr, panic, refl, ◌∙◌, map_delete,
}
use go_tfhfs.Codec.{Wire}
use go_tfhfs.Storage.BlockNames.{
  BlockBackend, IsBlockBackend, NameMap, GoMap, entries_of, change_map, NameInBlock,
  new_name_in_block, get_names, set_name_to_block_id, renamed, name_block, delete_old,
}
use go_tfhfs.Storage.BlockNames.Laws.{Agrees, IsWritable, NotNil, load_empty, get_names_lem}

not_none : (v : Option Bytes) (x : Bytes) → v ≡ some x → v ≢ none
not_none v x e e' = cc

module _ {S : Type 0} (bb : BlockBackend S) (h : IsBlockBackend bb) (wire : Wire NameMap)
    (map_name : Bytes) (round_trip : (m : NameMap) → wire.unmarshal (wire.marshal m) ≡ some m) where
  -- Every id but that of the names holds what it held.
  abbrev pub SameBlocks : S → S → Type 0
  SameBlocks s s' = (j : Bytes) → bytes_eq map_name j ≡ false → h.holds s' j ≡ h.holds s j

  delete_old_lem :
      (b : Option Bytes) (s : S) (d : Bytes)
      → h.valid s
      → ((b ≡ some map_name) × (h.holds s map_name ≡ some d))
        ⊎ ((b ≡ none) × (h.holds s map_name ≡ none))
      → (s' : S) × (delete_old bb wire map_name b s ≡ ok s')
        × h.valid s'
        × (h.holds s' map_name ≡ none)
        × SameBlocks s s'
        × ((x : Bytes) → h.storable s x → h.storable s' x)
  delete_old_lem b s d valid (inl (e, held)) =
      let (s', ran, valid', view, keeps) =
        h.delete_law s map_name valid (not_none (h.holds s map_name) d held) in
      (
        s',
        rw (e, ran) refl,
        valid',
        view map_name ∙ rw (bytes_eq_self map_name) refl,
        λ j other. view j ∙ rw other refl,
        keeps,
      )
  delete_old_lem b s d valid (inr (e, held)) =
      (s, rw e refl, valid, held, λ j other. refl, λ x k. k)

  change_written :
      (g : GoMap) (l : NameMap) (name block_id : Bytes)
      → g ≡ some l
      → (g' : GoMap) × (change_map name block_id g ≡ ok g')
        × (entries_of g' ≡ renamed name block_id (entries_of g))
  unfolding change_map
  change_written g l name block_id e = rw e (some (renamed name block_id l), refl, refl)

  change_removed :
      (g : GoMap) (name block_id : Bytes)
      → bytes_eq block_id [] ≡ true
      → (g' : GoMap) × (change_map name block_id g ≡ ok g')
        × (entries_of g' ≡ renamed name block_id (entries_of g))
  unfolding change_map map_delete
  change_removed none name block_id e = (none, rw e refl, rw e refl)
  change_removed (some l) name block_id e = (some (renamed name block_id l), refl, refl)

  set_steps :
      (self self₁ : NameInBlock) (s s₁ s₂ s₃ : S) (g g' : GoMap) (name block_id : Bytes)
      → get_names bb wire map_name self s ≡ ok (g, self₁, s₁)
      → change_map name block_id g ≡ ok g'
      → delete_old bb wire map_name self₁.block s₁ ≡ ok s₂
      → bb.store_block s₂ (name_block bb wire map_name (entries_of g')) ≡ ok s₃
      → set_name_to_block_id bb wire map_name self s name block_id
        ≡ ok (record { named_map = some g'; block = some map_name }, s₃)
  unfolding set_name_to_block_id
  set_steps self self₁ s s₁ s₂ s₃ g g' name block_id loaded changed deleted stored =
      rw (loaded, ◌>>=◌, changed, deleted, stored) refl

  -- The map of a change that does not panic.
  changed_map :
      (self : NameInBlock) (s : S) (m : NameMap) (g : GoMap) (name block_id : Bytes)
      → entries_of g ≡ m
      → NotNil bb h wire map_name round_trip self s m g
      → (bytes_eq block_id [] ≡ true) ⊎ IsWritable bb h wire map_name round_trip self s m
      → (g' : GoMap) × (change_map name block_id g ≡ ok g')
        × (entries_of g' ≡ renamed name block_id m)
  changed_map self s m g name block_id same fit (inl removal) =
      rw (← same) (change_removed g name block_id removal)
  changed_map self s m g name block_id same fit (inr writable) =
      let (l, e) = fit writable in rw (← same) (change_written g l name block_id e)

  -- Setting a name succeeds where the backend can store the new map and the map can be written to,
  -- or a name is removed: the names that are loaded, and those that a new start loads, are the old
  -- ones with that name changed, or removed for the empty id; every other block is as it was. The
  -- marshalling of the names gives back what it took.
  pub set_name_to_block_id_lem :
      (self : NameInBlock) (s : S) (m : NameMap) (name block_id : Bytes)
      → h.valid s
      → Agrees bb h wire map_name round_trip self s m
      → (bytes_eq block_id [] ≡ true) ⊎ IsWritable bb h wire map_name round_trip self s m
      → h.storable s (wire.marshal (renamed name block_id m))
      → (self' : NameInBlock) × (s' : S) × (set_name_to_block_id bb wire map_name self s name
            block_id
          ≡ ok (self', s'))
        × h.valid s'
        × Agrees bb h wire map_name round_trip self' s' (renamed name block_id m)
        × Agrees bb h wire map_name round_trip new_name_in_block s' (renamed name block_id m)
        × SameBlocks s s'
  unfolding new_name_in_block
  set_name_to_block_id_lem self s m name block_id valid agrees allowed room =
      let m' = renamed name block_id m in
      let (g, self₁, s₁, loaded, valid₁, same, is_loaded, fit) =
        get_names_lem bb h wire map_name round_trip self s m valid agrees in
      let (g', changed, is_changed) =
        changed_map self s m g name block_id is_loaded.1 fit allowed in
      let (s₂, deleted, valid₂, gone, others, keeps) =
        delete_old_lem self₁.block s₁ (wire.marshal m) valid₁ is_loaded.2 in
      let (s₃, stored, valid₃, view) =
        h.store_law s₂ (name_block bb wire map_name m') (wire.marshal m') valid₂ refl gone
          (keeps (wire.marshal m') (same.1 (wire.marshal m') room)) in
      let held : h.holds s₃ map_name ≡ some (wire.marshal m') =
        view map_name ∙ rw (bytes_eq_self map_name) refl in
      (
        record { named_map = some g'; block = some map_name },
        s₃,
        set_steps self self₁ s s₁ s₂ s₃ g g' name block_id loaded changed deleted
            (rw is_changed stored),
        valid₃,
        inl (g', (refl, is_changed, inl (refl, held))),
        inr (refl, refl, inl held),
        λ j other. view j ∙ (rw other (others j other ∙ same.0 j)),
      )

  -- After a start on a backend whose block of names holds none, setting a name to an id panics, for
  -- the map that is loaded is nil.
  pub set_name_on_nil_map_panics :
      (s : S) (name block_id : Bytes)
      → h.valid s
      → h.holds s map_name ≡ some (wire.marshal [])
      → bytes_eq block_id [] ≡ false
      → set_name_to_block_id bb wire map_name new_name_in_block s name block_id ≡ panic
  unfolding new_name_in_block set_name_to_block_id get_names change_map
  set_name_on_nil_map_panics s name block_id valid held set =
      let (self', s', ran) =
        load_empty bb h wire map_name round_trip new_name_in_block s valid held in
      rw (ran, ◌>>=◌, set) refl
