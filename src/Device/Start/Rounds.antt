-- ===== src/Device/Start/Rounds.antt =====
-- A round of the loop in `Init` of storage/tree/tree.go that chooses a superblock.
use go_tfhfs.Common.{
  ℕ, ◌≤◌, ◌≡◌, refl, ◌∙◌, sym, ap, ◌⊎◌, inl, inr, true, false, Option, none, some, List, [], ◌∷◌,
  Bytes, Outcome, ok, panic, ◌>>=◌, arith, Bool-cases,
}
use go_tfhfs.Codec.{Codec, Wire}
use go_tfhfs.Device.Location.{LocationEntry, OpEntry}
use go_tfhfs.Device.Superblocks.{super_block_offset}
use go_tfhfs.Device.Allocator.{super_block_size}
use go_tfhfs.Device.Backend.{read_decoded}
use go_tfhfs.Device.Start.{
  Superblock, Choice, parsed, is_older, take_pending, consider, free_pending_location,
}

-- The first is at least as new as the second.
abbrev pub Covers : Option Superblock → Option Superblock → Type 0
Covers best none = Unit
Covers none (some sb) = ⊥
Covers (some best) (some sb) = sb.generation ≤ best.generation

pub Covers-refl : (a : Option Superblock) → Covers a a
Covers-refl none = tt
Covers-refl (some sb) = omega arith

pub Covers-trans : (a b c : Option Superblock) → Covers a b → Covers b c → Covers a c
Covers-trans a b none h k = tt
Covers-trans a none (some sb) h k = absurd k
Covers-trans none (some x) (some sb) h k = absurd h
Covers-trans (some y) (some x) (some sb) h k = omega arith

returned :
    {A B : Type 0} (m : Outcome A) (f : A → Outcome B) (b : B)
    → m >>= f ≡ ok b
    → (a : A) × (m ≡ ok a) × (f a ≡ ok b)
returned panic f b e = cc
returned (ok x) f b e = (x, refl, e)

module _ {R : Type 0} (c : Codec R) (sb_wire : Wire Superblock)
    (ops_wire : Wire (List OpEntry)) where
  abbrev pub filled : Superblock → Option (List OpEntry) → Option Superblock
  filled sb none = none
  filled sb (some os) = some (record sb { pending = os; pending_location = [] })

  -- A superblock with its list of changes, if that can be read.
  abbrev pub with_pending : Bytes → Superblock → List LocationEntry → Outcome (Option Superblock)
  with_pending file sb [] = ok (some sb)
  with_pending file sb (le ∷ ls) =
      read_decoded c file (le ∷ ls) >>= λ b. ok (filled sb (parsed ops_wire b))

  abbrev pub whole : Bytes → Option Superblock → Outcome (Option Superblock)
  whole file none = ok none
  whole file (some sb) = with_pending file sb sb.pending_location

  -- What can be read at superblock `i`, whatever else there is.
  abbrev pub candidate : Bytes → ℕ → Outcome (Option Superblock)
  candidate file i =
      read_decoded c file (record { size = super_block_size; offset = super_block_offset i } ∷ [])
      >>= λ b. whole file (parsed sb_wire b)

  -- The best after a superblock is taken, if there is one to take.
  abbrev taken : Option Superblock → Option Superblock → Option Superblock
  taken best none = best
  taken best (some sb) = some sb

  kept_best :
      (ls : List LocationEntry) (self : Choice) → (free_pending_location ls self).best ≡ self.best
  unfolding free_pending_location
  kept_best [] self = refl
  kept_best (le ∷ ls) self = kept_best ls _

  -- What taking a superblock leaves.
  abbrev IsTaken : Superblock → Option Superblock → Choice → Outcome Choice → Type 0
  IsTaken sb r self o =
      (self' : Choice) × (o ≡ ok self')
      × (self'.best ≡ taken self.best r)
      × ((x : Superblock) → r ≡ some x → x.generation ≡ sb.generation)

  take_list :
      (file : Bytes) (sb : Superblock) (self : Choice) (le : LocationEntry)
      (ls : List LocationEntry) (b : Option Bytes) (p : Option (List OpEntry))
      (r : Option Superblock)
      → sb.pending_location ≡ le ∷ ls
      → read_decoded c file (le ∷ ls) ≡ ok b
      → parsed ops_wire b ≡ p
      → filled sb p ≡ r
      → IsTaken sb r self (take_pending c sb_wire ops_wire file sb self)
  unfolding take_pending
  take_list file sb self le ls b none r e read is full =
      (self, rw (e, read, ◌>>=◌, is) refl, rw (← full) refl, λ x there. cc)
  take_list file sb self le ls b (some os) r e read is full = (
    record (free_pending_location (le ∷ ls) self) {
      best = some (record sb { pending = os; pending_location = [] });
    },
    rw (e, read, ◌>>=◌, is) refl,
    rw (← full) refl,
    λ x there.
        let same : some (record sb { pending = os; pending_location = [] }) ≡ some x =
          full ∙ there in
        let same' : record sb { pending = os; pending_location = [] } ≡ x = cc in
        sym (ap (λ (y : Superblock). y.generation) same'),
  )

  take_steps :
      (file : Bytes) (sb : Superblock) (self : Choice) (ls : List LocationEntry)
      (r : Option Superblock)
      → sb.pending_location ≡ ls
      → with_pending file sb ls ≡ ok r
      → IsTaken sb r self (take_pending c sb_wire ops_wire file sb self)
  unfolding take_pending
  take_steps file sb self [] r e ran = (
    record self { best = some sb },
    rw e refl,
    let same : some sb ≡ r = cc in rw (← same) refl,
    λ x is. let same : x ≡ sb = cc in ap (λ (y : Superblock). y.generation) same,
  )
  take_steps file sb self (le ∷ ls) r e ran =
      let (b, read, is) = returned (read_decoded c file (le ∷ ls)) _ r ran in
      let full : filled sb (parsed ops_wire b) ≡ r = cc in
      take_list file sb self le ls b (parsed ops_wire b) r e read refl full

  -- A round: the best stays or is replaced by what the round reads, and covers both.
  abbrev pub IsRound : Option Superblock → Option Superblock → Option Superblock → Type 0
  IsRound old cand new = ((new ≡ old) ⊎ (new ≡ cand)) × Covers new old × Covers new cand

  not_older :
      (sb : Superblock) (best r : Option Superblock)
      → is_older sb best ≡ false
      → ((x : Superblock) → r ≡ some x → x.generation ≡ sb.generation)
      → IsRound best r (taken best r)
  not_older sb best none e same = (inl refl, Covers-refl best, tt)
  not_older sb none (some x) e same = (inr refl, tt, omega arith)
  not_older sb (some y) (some x) e same = (inr refl, ground (arith, same x refl), omega arith)

  older :
      (sb : Superblock) (best r : Option Superblock)
      → is_older sb best ≡ true
      → ((x : Superblock) → r ≡ some x → x.generation ≡ sb.generation)
      → IsRound best r best
  older sb best none e same = (inl refl, Covers-refl best, tt)
  older sb none (some x) e same = cc
  older sb (some y) (some x) e same = (inl refl, omega arith, ground (arith, same x refl))

  IsRound-steps :
      (file : Bytes) (i : ℕ) (self : Choice) (b : Option Bytes) (p r : Option Superblock)
      → read_decoded c file (record { size = super_block_size; offset = super_block_offset i } ∷ [])
        ≡ ok b
      → parsed sb_wire b ≡ p
      → whole file p ≡ ok r
      → (self' : Choice) × (consider c sb_wire ops_wire file i self ≡ ok self')
        × IsRound self.best r self'.best
  unfolding consider
  IsRound-steps file i self b none r read is full =
      let same : none ≡ r = cc in
      (self, rw (read, ◌>>=◌, is) refl, rw (← same) (inl refl, Covers-refl self.best, tt))
  IsRound-steps file i self b (some sb) r read is full =
      let (self', ran, best, same) = take_steps file sb self sb.pending_location r refl full in
      elim (Bool-cases (is_older sb self.best)) [
        | inl e ↦ (self, rw (read, ◌>>=◌, is, e) refl, older sb self.best r e same)
        | inr e ↦ (self', rw (read, ◌>>=◌, is, e) ran, rw best (not_older sb self.best r e same))
      ]

  pub consider_lem :
      (file : Bytes) (i : ℕ) (self : Choice) (r : Option Superblock)
      → candidate file i ≡ ok r
      → (self' : Choice) × (consider c sb_wire ops_wire file i self ≡ ok self')
        × IsRound self.best r self'.best
  consider_lem file i self r ran =
      let (b, read, full) =
        returned
          (read_decoded c file
            (record { size = super_block_size; offset = super_block_offset i } ∷ []))
          _ r ran in
      IsRound-steps file i self b (parsed sb_wire b) r read refl full
