-- ===== src/Storage/BlockNames/Laws.antt =====
-- The names of storage/nameinblock.go survive in their block.
use mathlib.Core.Path.{subst}
use go_tfhfs.Common.{
  sym, Option, none, some, [], Bytes, Outcome, ok, ◌>>=◌, map_get, ◌≡◌, ◌≢◌, ◌⊎◌, ◌∷◌, inl, inr,
  refl, ◌∙◌, ap,
}
use go_tfhfs.Codec.{Wire}
use go_tfhfs.Storage.Types.{Block}
use go_tfhfs.Storage.BlockNames.{
  BlockBackend, IsBlockBackend, IsBlock, NameMap, GoMap, entries_of, unmarshalled, NameInBlock,
  load_names, get_names, get_block_id_by_name, or_no_id, data_of,
}

entries_of-unmarshalled : (m : NameMap) → entries_of (unmarshalled m) ≡ m
entries_of-unmarshalled [] = refl
entries_of-unmarshalled (e ∷ m) = refl

module _ {S : Type 0} (bb : BlockBackend S) (h : IsBlockBackend bb) (wire : Wire NameMap)
    (map_name : Bytes) (round_trip : (m : NameMap) → wire.unmarshal (wire.marshal m) ≡ some m) where
  -- The backend holds the names `m`: in their block, or nowhere while there are none.
  abbrev pub Persisted : S → NameMap → Type 0
  Persisted s m =
      (h.holds s map_name ≡ some (wire.marshal m)) ⊎ ((h.holds s map_name ≡ none) × (m ≡ []))

  -- What a call leaves of the backend.
  abbrev pub Untouched : S → S → Type 0
  Untouched s s' =
      ((j : Bytes) → h.holds s' j ≡ h.holds s j) × ((d : Bytes) → h.storable s d → h.storable s' d)

  -- The names once they are loaded, as the map `g`.
  abbrev pub Loaded : GoMap → NameInBlock → S → NameMap → Type 0
  Loaded g self s m =
      (self.named_map ≡ some g)
      × (entries_of g ≡ m)
      × (((self.block ≡ some map_name) × (h.holds s map_name ≡ some (wire.marshal m)))
          ⊎ ((self.block ≡ none) × (h.holds s map_name ≡ none)))

  -- What is loaded agrees with what the backend holds.
  abbrev pub Agrees : NameInBlock → S → NameMap → Type 0
  Agrees self s m =
      ((g : GoMap) × Loaded g self s m)
      ⊎ ((self.named_map ≡ none) × (self.block ≡ none) × Persisted s m)

  -- The map can be written to: it is not nil, or is loaded from a block that names something, or
  -- there is no block yet.
  abbrev pub IsWritable : NameInBlock → S → NameMap → Type 0
  IsWritable self s m =
      ((l : NameMap) × (self.named_map ≡ some (some l)))
      ⊎ ((self.named_map ≡ none) × ((m ≢ []) ⊎ (h.holds s map_name ≡ none)))

  -- Where the map can be written to, what is loaded is no nil map.
  abbrev pub NotNil : NameInBlock → S → NameMap → GoMap → Type 0
  NotNil self s m g = IsWritable self s m → (l : NameMap) × (g ≡ some l)

  data_of_lem :
      (b : Block) (s : S) (d : Bytes)
      → h.valid s
      → h.holds s b.id ≡ some d
      → (b.block_data ≡ none) ⊎ (b.block_data ≡ some d)
      → (s' : S) × (data_of bb wire map_name b s ≡ ok (d, s')) × h.valid s' × Untouched s s'
  data_of_lem b s d valid held (inl e) =
      let (s', ran, valid', same, keeps) = h.data_law s b.id d valid held in
      (s', rw (e, ran) refl, valid', (same, keeps))
  data_of_lem b s d valid held (inr e) = (s, rw e refl, valid, (λ j. refl, λ x k. k))

  written_map :
      (self : NameInBlock) (s : S) (m : NameMap)
      → self.named_map ≡ none
      → h.holds s map_name ≡ some (wire.marshal m)
      → NotNil self s m (unmarshalled m)
  written_map self s (e ∷ m) unread held w = (e ∷ m, refl)
  written_map self s [] unread held (inl (l, there)) = cc
  written_map self s [] unread held (inr (none_yet, inl full)) = absurd (full refl)
  written_map self s [] unread held (inr (none_yet, inr no_block)) = cc

  loaded_map :
      (self : NameInBlock) (s : S) (m : NameMap) (g : GoMap)
      → self.named_map ≡ some g
      → NotNil self s m g
  loaded_map self s m g there (inl (l, e)) = (l, cc)
  loaded_map self s m g there (inr (e, more)) = cc

  load_steps_none :
      (self : NameInBlock) (s s₁ : S)
      → bb.get_block_by_id s map_name ≡ ok (none, s₁)
      → load_names bb wire map_name self s
        ≡ ok (some [], record self { named_map = some (some []) }, s₁)
  unfolding load_names
  load_steps_none self s s₁ ran = rw (ran, ◌>>=◌) refl

  load_steps_some :
      (self : NameInBlock) (s s₁ s₂ : S) (b : Block) (d : Bytes) (m : NameMap)
      → bb.get_block_by_id s map_name ≡ ok (some b, s₁)
      → data_of bb wire map_name b s₁ ≡ ok (d, s₂)
      → wire.unmarshal d ≡ some m
      → load_names bb wire map_name self s
        ≡ ok (
          unmarshalled m,
          record self { named_map = some (unmarshalled m); block = some b.id },
          s₂,
        )
  unfolding load_names
  load_steps_some self s s₁ s₂ b d m ran has parsed = rw (ran, ◌>>=◌, has, parsed) refl

  abbrev pub IsLoaded : NameInBlock → S → NameMap → Outcome (GoMap × NameInBlock × S) → Type 0
  IsLoaded self s m o =
      (g : GoMap) × (self' : NameInBlock) × (s' : S) × (o ≡ ok (g, self', s'))
      × h.valid s'
      × Untouched s s'
      × Loaded g self' s' m
      × NotNil self s m g

  load_held :
      (self : NameInBlock) (s s₁ : S) (m : NameMap) (r : Option Block)
      → bb.get_block_by_id s map_name ≡ ok (r, s₁)
      → h.valid s₁
      → Untouched s s₁
      → h.holds s map_name ≡ some (wire.marshal m)
      → IsBlock map_name (some (wire.marshal m)) r
      → self.named_map ≡ none
      → IsLoaded self s m (load_names bb wire map_name self s)
  load_held self s s₁ m none ran valid same held b unread = absurd b
  load_held self s s₁ m (some b) ran valid same held (its_id, its_data) unread =
      let here : h.holds s₁ b.id ≡ some (wire.marshal m) = rw its_id (same.0 map_name ∙ held) in
      let (s₂, read, valid₂, same₂) = data_of_lem b s₁ (wire.marshal m) valid here its_data in
      (
        unmarshalled m,
        record self { named_map = some (unmarshalled m); block = some b.id },
        s₂,
        load_steps_some self s s₁ s₂ b (wire.marshal m) m ran read (round_trip m),
        valid₂,
        (λ j. same₂.0 j ∙ same.0 j, λ d k. same₂.1 d (same.1 d k)),
        (
          refl,
          entries_of-unmarshalled m,
          inl (ap some its_id, same₂.0 map_name ∙ (same.0 map_name ∙ held)),
        ),
        written_map self s m unread held,
      )

  load_empty_held :
      (self : NameInBlock) (s s₁ : S) (r : Option Block)
      → bb.get_block_by_id s map_name ≡ ok (r, s₁)
      → h.valid s₁
      → h.holds s₁ map_name ≡ some (wire.marshal [])
      → IsBlock map_name (some (wire.marshal [])) r
      → (self' : NameInBlock) × (s' : S) × (load_names bb wire map_name self s
          ≡ ok (none, self', s'))
  load_empty_held self s s₁ none ran valid held b = absurd b
  load_empty_held self s s₁ (some b) ran valid held (its_id, its_data) =
      let here : h.holds s₁ b.id ≡ some (wire.marshal []) = rw its_id held in
      let (s₂, read, valid₂, same₂) = data_of_lem b s₁ (wire.marshal []) valid here its_data in
      (
        record self { named_map = some none; block = some b.id },
        s₂,
        load_steps_some self s s₁ s₂ b (wire.marshal []) [] ran read (round_trip []),
      )

  pub load_empty :
      (self : NameInBlock) (s : S)
      → h.valid s
      → h.holds s map_name ≡ some (wire.marshal [])
      → (self' : NameInBlock) × (s' : S) × (load_names bb wire map_name self s
          ≡ ok (none, self', s'))
  load_empty self s valid held =
      let (r, s₁, ran, valid₁, same, keeps, found) = h.by_id_law s map_name valid in
      load_empty_held self s s₁ r ran valid₁ (same map_name ∙ held) (rw held at found)

  load_nothing :
      (self : NameInBlock) (s s₁ : S) (r : Option Block)
      → self.block ≡ none
      → bb.get_block_by_id s map_name ≡ ok (r, s₁)
      → h.valid s₁
      → Untouched s s₁
      → h.holds s map_name ≡ none
      → r ≡ none
      → IsLoaded self s [] (load_names bb wire map_name self s)
  load_nothing self s s₁ r fresh ran valid same held e = (
    some [],
    record self { named_map = some (some []) },
    s₁,
    load_steps_none self s s₁ (ran ∙ ap (λ x. ok (x, s₁)) e),
    valid,
    same,
    (refl, refl, inr (fresh, same.0 map_name ∙ held)),
    (λ w. ([], refl)),
  )

  load_names_lem :
      (self : NameInBlock) (s : S) (m : NameMap)
      → h.valid s
      → self.named_map ≡ none
      → self.block ≡ none
      → Persisted s m
      → IsLoaded self s m (load_names bb wire map_name self s)
  load_names_lem self s m valid unread fresh (inl held) =
      let (r, s₁, ran, valid₁, same, keeps, found) = h.by_id_law s map_name valid in
      load_held self s s₁ m r ran valid₁ (same, keeps) held (rw held at found) unread
  load_names_lem self s m valid unread fresh (inr (held, empty)) =
      let (r, s₁, ran, valid₁, same, keeps, found) = h.by_id_law s map_name valid in
      rw empty (load_nothing self s s₁ r fresh ran valid₁ (same, keeps) held (rw held at found))

  unread_names :
      (self : NameInBlock) (s : S)
      → self.named_map ≡ none
      → get_names bb wire map_name self s ≡ load_names bb wire map_name self s
  unfolding get_names
  unread_names self s e =
      ap
        (λ (v : Option GoMap). elim v [
          | some m ↦ ok (m, self, s)
          | none ↦ load_names bb wire map_name self s
        ])
        e

  pub get_names_lem :
      (self : NameInBlock) (s : S) (m : NameMap)
      → h.valid s
      → Agrees self s m
      → IsLoaded self s m (get_names bb wire map_name self s)
  unfolding get_names
  get_names_lem self s m valid (inl (g, loaded)) = (
    g,
    self,
    s,
    rw loaded.0 refl,
    valid,
    (λ j. refl, λ d k. k),
    loaded,
    loaded_map self s m g loaded.0,
  )
  get_names_lem self s m valid (inr (absent, fresh, held)) =
      subst (IsLoaded self s m) (sym (unread_names self s absent))
        (load_names_lem self s m valid absent fresh held)

  -- Reading a name gives its id, or the empty id where there is none, and the backend holds what it
  -- held, if the names that are loaded agree with it.
  pub get_block_id_by_name_lem :
      (self : NameInBlock) (s : S) (m : NameMap) (name : Bytes)
      → h.valid s
      → Agrees self s m
      → (self' : NameInBlock) × (s' : S) × (get_block_id_by_name bb wire map_name self s name
          ≡ ok (or_no_id (map_get name m), self', s'))
        × h.valid s'
        × Untouched s s'
        × Agrees self' s' m
  unfolding get_block_id_by_name
  get_block_id_by_name_lem self s m name valid agrees =
      let (g, self', s', ran, valid', same, loaded, fit) = get_names_lem self s m valid agrees in
      (self', s', rw (ran, ◌>>=◌, loaded.1) refl, valid', same, inl (g, loaded))
