-- ===== src/Storage/Invariant/Loads.antt =====
-- Looking a block up, in memory or in the backend, keeps the invariant and gives a live address:
-- `getBlockById` of storage/block.go.
use go_tfhfs.Common.{
  ℕ, suc, ◌<◌, ◌≤◌, ◌≡◌, refl, ◌⊎◌, inl, inr, true, false, Option, none, some, List, Bytes, Outcome,
  ok, panic, arith, Option-cases, map_get, map_get-map_set, bytes_eq_iff,
}
use go_tfhfs.Storage.Types.{Block, Backend, Storage, M, ◌>>=◌, at, enter_block}
use go_tfhfs.Storage.Refs.{load_block, get_block_by_id, get_existing}
use go_tfhfs.Storage.Invariant.{Ends, Keeps, IsConsistent}

-- A block of the backend is found under its own id.
abbrev pub HasOwnIds : {B : Type 0} → Backend B → Type 0
HasOwnIds {B} be = (s : B) (id : Bytes) (b : Block) → be.get_block_by_id s id ≡ some b → b.id ≡ id

pub Ends-weaken :
    {B A : Type 0} (n n' : ℕ) (o : Outcome (A × Storage B))
    → n ≤ n'
    → Ends (IsConsistent n') o
    → Ends (IsConsistent n) o
Ends-weaken n n' (ok (a, s)) le h = record {
  bound = omega (arith, h.bound);
  idle = h.idle;
  tracked = h.tracked;
  addressed = h.addressed;
}
Ends-weaken n n' panic le h = tt

-- A new object keeps the invariant, and is live.
pub enter_block-IsConsistent :
    {B : Type 0} (n : ℕ) (id : Bytes) (b : Block) (s : Storage B)
    → IsConsistent n s
    → b.stored ≡ none
    → b.id ≡ id
    → IsConsistent (suc s.next) (enter_block id b s)
unfolding enter_block at
enter_block-IsConsistent n id b s h e own = record {
  bound = omega arith;
  idle = λ q past. h.idle q (omega arith);
  tracked = λ q. ground (arith, h.tracked q, h.idle q);
  addressed = λ j q e'.
      ground (arith, map_get-map_set j id s.next s.blocks, h.addressed j q, bytes_eq_iff id j);
}

module _ {B : Type 0} (be : Backend B) (references : Option (Bytes → Bytes → List Bytes))
    (own : HasOwnIds be) where
  abbrev Lookup : ℕ → Bytes → Storage B → Type 0
  Lookup n id s =
      (get_block_by_id be references id s ≡ ok (none, s))
      ⊎ ((q : ℕ) × (s' : Storage B) × (get_block_by_id be references id s ≡ ok (some q, s'))
          × (q < s'.next)
          × (n ≤ s'.next)
          × IsConsistent s'.next s')

  lookup : (n : ℕ) (id : Bytes) (s : Storage B) → IsConsistent n s → Lookup n id s
  unfolding get_block_by_id load_block
  lookup n id s h = elim (Option-cases (map_get id s.blocks)) [
    | inr (p, e) ↦ inr (
      p,
      s,
      ground arith,
      (h.addressed id p e).0,
      h.bound,
      record { bound = omega arith; idle = h.idle; tracked = h.tracked; addressed = h.addressed },
    )
    | inl absent ↦ elim (Option-cases (be.get_block_by_id s.backend id)) [
      | inl e ↦ inl (ground arith)
      | inr (b, e) ↦
          let fresh : Block = record b {
            storage_ref_count = 0;
            external_storage_ref_count = 0;
            have_disk_refs = true;
            have_storage_refs = false;
            stored = none;
          } in
          inr (
            s.next,
            enter_block id fresh s,
            ground arith,
            omega arith,
            omega (arith, h.bound),
            enter_block-IsConsistent n id fresh s h refl (own s.backend id b e),
          )
    ]
  ]

  -- What follows a lookup keeps the invariant, if it does so without a block and for every live one.
  pub Keeps-found :
      {n : ℕ} {C : Type 0} (id : Bytes) (f : Option ℕ → M B C)
      → Keeps (IsConsistent n) (f none)
      → ((n' q : ℕ) → n ≤ n' → q < n' → Keeps (IsConsistent n') (f (some q)))
      → Keeps (IsConsistent n) (get_block_by_id be references id >>= f)
  Keeps-found {n} id f h k = record {
    run = λ s inv. elim (lookup n id s inv) [
      | inl e ↦ rw (e, ◌>>=◌, Ends) (h.run s inv)
      | inr (q, s', e, live, le, inv') ↦
          rw (e, ◌>>=◌, Ends)
            (Ends-weaken n s'.next (f (some q) s') le ((k s'.next q le live).run s' inv'))
    ];
  }

  pub Keeps-existing :
      {n : ℕ} {C : Type 0} (id : Bytes) (f : ℕ → M B C)
      → ((n' q : ℕ) → n ≤ n' → q < n' → Keeps (IsConsistent n') (f q))
      → Keeps (IsConsistent n) (get_existing be references id >>= f)
  unfolding get_existing
  Keeps-existing {n} id f k = record {
    run = λ s inv. elim (lookup n id s inv) [
      | inl e ↦ rw (e, get_existing, ◌>>=◌, Ends) tt
      | inr (q, s', e, live, le, inv') ↦
          rw (e, get_existing, ◌>>=◌, Ends)
            (Ends-weaken n s'.next (f q s') le ((k s'.next q le live).run s' inv'))
    ];
  }
