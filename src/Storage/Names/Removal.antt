-- ===== src/Storage/Names/Removal.antt =====
-- A name that was removed cannot be set again: `setNameToBlockId` of storage/storage.go. The entry of
-- a removed name claims a storage reference on the block with the empty id, which does not exist.
use mathlib.Core.List.{List, []}
use go_tfhfs.Common.{
  ℕ, ◌≡◌, refl, Bool, true, not, Option, none, some, Bytes, Outcome, ok, panic, arith, map_get,
  map_get-map_set, bytes_eq_iff, bytes_eq_self,
}
use go_tfhfs.Storage.Types.{
  ℤ, pos, negsuc, Backend, Block, OldNew, Storage, M, ◌>>=◌, ◌>>◌, when, modify, enter_block,
  set_dirty_storage_refs,
}
use go_tfhfs.Storage.Refs.{add_storage_ref_count, get_block_by_id, get_existing, load_block}
use go_tfhfs.Storage.Names.{get_name, put_name, set_name_to_block_id, is_empty}
use go_tfhfs.Storage.Invariant.{Ends, Keeps}
use go_tfhfs.Storage.Invariant.Rules.{
  Keeps-bind, Keeps-when, Keeps-get_block, Keeps-lift, Keeps-get,
}

-- No block has the empty id.
abbrev pub HasNoEmptyId : {B : Type 0} → Backend B → Storage B → Type 0
HasNoEmptyId be s = (map_get [] s.blocks ≡ none) × (be.get_block_by_id s.backend [] ≡ none)

-- What follows a step that keeps `P` panics wherever `P` holds.
panics_after :
    {B A C : Type 0} (P : Storage B → Type 0) (m : M B A) (k : A → M B C) (s : Storage B)
    → Keeps P m
    → P s
    → ((a : A) (t : Storage B) → P t → k a t ≡ panic)
    → (m >>= k) s ≡ panic
panics_after {B} {A} {C} P m k s keeps h stops = go (m s) (keeps.run s h)
  where
    go :
        (o : Outcome (A × Storage B))
        → Ends P o
        → (elim o [ ok (a, t) ↦ k a t | panic ↦ panic ]) ≡ panic
    go (ok (a, t)) e = stops a t e
    go panic e = refl

-- What follows a step that keeps `P` ends in `Q`, if it does so wherever `P` holds.
Ends-after :
    {B A C : Type 0} (P Q : Storage B → Type 0) (m : M B A) (k : A → M B C) (s : Storage B)
    → Keeps P m
    → P s
    → ((a : A) (t : Storage B) → P t → Ends Q (k a t))
    → Ends Q ((m >>= k) s)
Ends-after {B} {A} {C} P Q m k s keeps h goes = go (m s) (keeps.run s h)
  where
    go :
        (o : Outcome (A × Storage B))
        → Ends P o
        → Ends Q (elim o [ ok (a, t) ↦ k a t | panic ↦ panic ])
    go (ok (a, t)) e = goes a t e
    go panic e = tt

panics_first :
    {B A C : Type 0} (got : Bool) (m : M B A) (f : A → M B (Unit {0})) (k : M B C) (t : Storage B)
    → got ≡ true
    → m t ≡ panic
    → (when got (m >>= f) >> k) t ≡ panic
panics_first got m f k t g e = rw g (rw (◌>>=◌, when, ◌>>=◌, e))

module _ {B : Type 0} (be : Backend B) (references : Option (Bytes → Bytes → List Bytes)) where
  Keeps-get_existing : (id : Bytes) → Keeps (HasNoEmptyId be) (get_existing be references id)
  unfolding get_existing get_block_by_id load_block enter_block
  Keeps-get_existing id = record {
    run = λ s h. ground (arith, bytes_eq_iff id [], map_get-map_set [] id s.next s.blocks);
  }

  Keeps-modify : (p : ℕ) (f : Block → Block) → Keeps {B = B} (HasNoEmptyId be) (modify p f)
  unfolding modify
  Keeps-modify p f = record { run = λ s h. h }

  Keeps-set_dirty_storage_refs :
      (ps : List ℕ) → Keeps {B = B} (HasNoEmptyId be) (set_dirty_storage_refs ps)
  Keeps-set_dirty_storage_refs ps = record { run = λ s h. h }

  Keeps-add_storage_ref_count :
      (p : ℕ) (v : ℤ) → Keeps {B = B} (HasNoEmptyId be) (add_storage_ref_count p v)
  unfolding add_storage_ref_count
  Keeps-add_storage_ref_count p v =
      search
        (
          Keeps-bind,
          Keeps-get_block,
          Keeps-lift,
          Keeps-modify p,
          Keeps-get,
          Keeps-when,
          Keeps-set_dirty_storage_refs,
        )
        depth 8

  Keeps-get_name : (name : Bytes) → Keeps (HasNoEmptyId be) (get_name be references name)
  unfolding get_name
  Keeps-get_name name = record { run = λ s h. ground arith }

  Keeps-change :
      (id : Bytes) (v : ℤ)
      → Keeps (HasNoEmptyId be) (get_existing be references id >>= λ p. add_storage_ref_count p v)
  Keeps-change id v = Keeps-bind (Keeps-get_existing id) (λ p. Keeps-add_storage_ref_count p v)

  -- The entry that a removal leaves.
  abbrev IsRemoved : Bytes → Storage B → Type 0
  IsRemoved name s =
      (v : OldNew) × (map_get name s.names ≡ some v)
      × (v.new_value ≡ [])
      × (v.got_storage_ref ≡ true)
      × HasNoEmptyId be s

  put_name-IsRemoved :
      (name : Bytes) (v : OldNew) (t : Storage B)
      → (HasNoEmptyId be) t
      → Ends
          (IsRemoved name)
          (put_name name (record v { new_value = []; got_storage_ref = true }) t)
  unfolding put_name
  put_name-IsRemoved name v t h = (
    record v { new_value = []; got_storage_ref = true },
    ground (
      arith,
      map_get-map_set name name (record v { new_value = []; got_storage_ref = true }) t.names,
      bytes_eq_self name,
    ),
    refl,
    refl,
    h,
  )

  removal :
      (name : Bytes) (s : Storage B)
      → HasNoEmptyId be s
      → Ends (IsRemoved name) (set_name_to_block_id be references name [] s)
  unfolding set_name_to_block_id
  removal name s h =
      Ends-after (HasNoEmptyId be) (IsRemoved name) _ _ s (Keeps-get_name name) h λ v t ht.
        Ends-after (HasNoEmptyId be) (IsRemoved name) _ _ t
          (Keeps-when v.got_storage_ref (Keeps-change v.new_value (negsuc 0))) ht
          λ _ u hu. put_name-IsRemoved name v u hu

  release_panics : (s : Storage B) → HasNoEmptyId be s → get_existing be references [] s ≡ panic
  unfolding get_existing get_block_by_id load_block
  release_panics s h = ground arith

  set_panics :
      (name bid : Bytes) (s : Storage B)
      → IsRemoved name s
      → set_name_to_block_id be references name bid s ≡ panic
  unfolding set_name_to_block_id get_name
  set_panics name bid s (v, found, emptied, got, h) =
      rw (found, ◌>>=◌)
        (panics_after (HasNoEmptyId be) _ _ s
          (Keeps-when (not (is_empty bid)) (Keeps-change bid (pos 1))) h
          λ _ t ht.
            panics_first v.got_storage_ref (get_existing be references v.new_value) _ _ t got
              (rw emptied (release_panics t ht)))

  -- Removing a name (setting it to the empty id) and then setting it to any block id panics, as long
  -- as no block has the empty id.
  pub set_name_after_removal_panics :
      (name bid : Bytes) (s s' : Storage B)
      → HasNoEmptyId be s
      → set_name_to_block_id be references name [] s ≡ ok (tt, s')
      → set_name_to_block_id be references name bid s' ≡ panic
  set_name_after_removal_panics name bid s s' h e =
      set_panics name bid s' (rw e at (removal name s h))
