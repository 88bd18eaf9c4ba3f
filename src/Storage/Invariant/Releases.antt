-- ===== src/Storage/Invariant/Releases.antt =====
-- The set of blocks whose storage references are to be looked at: `addStorageRefCount` of
-- storage/block.go.
use go_tfhfs.Common.{
  ℕ, ◌≡◌, ◌⊎◌, refl, inl, inr, Bool, true, false, ◌||◌, not, ok, arith, if◌then◌else◌, ◌==◌,
  Bool-cases, ==_iff, sym,
}
use go_tfhfs.Storage.Types.{ℤ, Block, Storage, add_count, contains, insert, modify, at, bool_eq}
use go_tfhfs.Storage.Refs.{add_storage_ref_count}
use go_tfhfs.Storage.Invariant.{contains-insert}

-- Whether a flush has something to do for the storage references of a block: none is left, or the
-- references to its dependencies do not fit its own count.
abbrev pub is_unsettled : Block → Bool
is_unsettled b = b.storage_ref_count == 0 || not (bool_eq (b.ref_count == 0) b.have_storage_refs)

module _ {B : Type 0} where
  -- After a change of the count by `v` on the block at `p`.
  pub record IsCounted (p : ℕ) (v : ℤ) (s s' : Storage B) : Type 0 where
    pub counted : add_count (s.heap p).storage_ref_count v ≡ ok (s'.heap p).storage_ref_count
    pub noted : is_unsettled (s'.heap p) ≡ true → contains p s'.dirty_storage_ref_blocks ≡ true
    pub kept :
        (q : ℕ)
        → contains q s.dirty_storage_ref_blocks ≡ true
        → contains q s'.dirty_storage_ref_blocks ≡ true
    pub only :
        (q : ℕ)
        → contains q s'.dirty_storage_ref_blocks ≡ true
        → (contains q s.dirty_storage_ref_blocks ≡ true) ⊎ (q ≡ p)
    pub others : (q : ℕ) → (q == p) ≡ false → s'.heap q ≡ s.heap q

  with_count : ℕ → ℕ → Storage B → Storage B
  with_count p n s = record s { heap = at s.heap p (record (s.heap p) { storage_ref_count = n }) }

  noted_set : ℕ → ℕ → Storage B → Storage B
  noted_set p n s = record (with_count p n s) {
    dirty_storage_ref_blocks = insert p s.dirty_storage_ref_blocks;
  }

  count_steps :
      (p : ℕ) (v : ℤ) (s : Storage B) (n : ℕ) (b : Bool)
      → add_count (s.heap p).storage_ref_count v ≡ ok n
      → (n == 0 || not (bool_eq ((s.heap p).ref_count == 0) (s.heap p).have_storage_refs)) ≡ b
      → add_storage_ref_count p v s ≡ ok (tt, if b then noted_set p n s else with_count p n s)
  unfolding add_storage_ref_count modify at with_count noted_set
  count_steps p v s n true e c = rw (e, c) refl
  count_steps p v s n false e c = rw (e, c) refl

  -- `addStorageRefCount` within the range of the counts changes the count of its block and of no
  -- other. A block that a flush has to look at, since no storage reference is left or its references
  -- to dependencies do not fit its count, is in the set for that afterwards; no block leaves the set,
  -- and no other block enters it.
  pub add_storage_ref_count-IsCounted :
      (p n : ℕ) (v : ℤ) (s : Storage B)
      → add_count (s.heap p).storage_ref_count v ≡ ok n
      → (s' : Storage B) × (add_storage_ref_count p v s ≡ ok (tt, s')) × IsCounted p v s s'
  unfolding at with_count noted_set
  add_storage_ref_count-IsCounted p n v s e =
      elim (Bool-cases
        (n == 0 || not (bool_eq ((s.heap p).ref_count == 0) (s.heap p).have_storage_refs))) [
          | inl c ↦ (
            noted_set p n s,
            count_steps p v s n true e c,
            record {
              counted = ground (arith, e);
              noted = λ u. ground (arith, contains-insert p p s.dirty_storage_ref_blocks);
              kept = λ q h. ground (arith, contains-insert q p s.dirty_storage_ref_blocks);
              only = λ q h. elim (Bool-cases (p == q)) [
                | inl here ↦ inr (sym ((==_iff p q).0 here))
                | inr apart ↦
                    inl (ground (arith, apart, contains-insert q p s.dirty_storage_ref_blocks))
              ];
              others = λ q apart. ground arith;
            },
          )
          | inr c ↦ (
            with_count p n s,
            count_steps p v s n false e c,
            record {
              counted = ground (arith, e);
              noted = λ u. ground (arith, c);
              kept = λ q h. h;
              only = λ q h. inl h;
              others = λ q apart. ground arith;
            },
          )
        ]
