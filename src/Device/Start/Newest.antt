-- ===== src/Device/Start/Newest.antt =====
-- The superblock that the flat device of storage/tree/tree.go starts from is the newest one.
use go_tfhfs.Common.{
  ℕ, zero, suc, ◌+◌, ◌<◌, ◌≤◌, ◌≡◌, refl, ◌∙◌, ◌⊎◌, inl, inr, Option, List, Bytes, ok, ◌>>=◌, ltb,
  arith, Bool-cases,
}
use go_tfhfs.Codec.{Codec, Wire}
use go_tfhfs.Device.Location.{OpEntry}
use go_tfhfs.Device.Start.{Superblock, Choice, choose}
use go_tfhfs.Device.Start.Rounds.{Covers, Covers-refl, Covers-trans, candidate, consider_lem}

module _ {R : Type 0} (c : Codec R) (sb_wire : Wire Superblock)
    (ops_wire : Wire (List OpEntry)) where
  -- The best is the old one or one of those that were read.
  abbrev pub IsOneOf :
      Option Superblock → (ℕ → Option Superblock) → ℕ → ℕ → Option Superblock → Type 0
  IsOneOf old cands i n new = (new ≡ old) ⊎ ((j : ℕ) × (i ≤ j) × (j < i + n) × (new ≡ cands j))

  one_more :
      (old mid new : Option Superblock) (cands : ℕ → Option Superblock) (i n : ℕ)
      → (mid ≡ old) ⊎ (mid ≡ cands i)
      → IsOneOf mid cands (suc i) n new
      → IsOneOf old cands i (suc n) new
  one_more old mid new cands i n (inl e) (inl e') = inl (e' ∙ e)
  one_more old mid new cands i n (inr e) (inl e') = inr (i, omega arith, omega arith, e' ∙ e)
  one_more old mid new cands i n e (inr (j, from, until, e')) =
      inr (j, omega arith, omega arith, e')

  -- Where the superblocks from `i` on can be read (each gives a superblock with its list of changes,
  -- or nothing), the loop chooses one of them, or keeps the one it began with: none of them, and not
  -- the one it began with, is newer.
  pub choose-Covers :
      (file : Bytes) (n i : ℕ) (self : Choice) (cands : ℕ → Option Superblock)
      → ((j : ℕ) → i ≤ j → j < i + n → candidate c sb_wire ops_wire file j ≡ ok (cands j))
      → (self' : Choice) × (choose c sb_wire ops_wire file n i self ≡ ok self')
        × IsOneOf self.best cands i n self'.best
        × Covers self'.best self.best
        × ((j : ℕ) → i ≤ j → j < i + n → Covers self'.best (cands j))
  unfolding choose
  choose-Covers file zero i self cands reads =
      (self, refl, inl refl, Covers-refl self.best, λ j from until. absurd (omega arith))
  choose-Covers file (suc n) i self cands reads =
      let (s₁, ran, round) =
        consider_lem c sb_wire ops_wire file i self (cands i)
          (reads i (omega arith) (omega arith)) in
      let (s₂, rest, which', old', new') =
        choose-Covers file n (suc i) s₁ cands
          (λ j from until. reads j (omega arith) (omega arith)) in
      (
        s₂,
        rw (ran, ◌>>=◌) rest,
        one_more self.best s₁.best s₂.best cands i n round.0 which',
        Covers-trans s₂.best s₁.best self.best old' round.1,
        λ j from until. elim (Bool-cases (ltb i j)) [
          | inl e ↦ new' j (ground arith) (omega arith)
          | inr e ↦
              let same : i ≡ j = ground arith in
              Covers-trans s₂.best s₁.best (cands j) old' (rw same at round.2)
        ],
      )
