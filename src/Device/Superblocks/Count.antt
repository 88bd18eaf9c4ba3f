-- ===== src/Device/Superblocks/Count.antt =====
-- How many superblocks a device of a given size has: storage/tree/tree.go.
use go_tfhfs.Common.{
  ℕ, zero, suc, ◌+◌, ◌^◌, ◌≤◌, ◌<◌, ◌≡◌, refl, Option, none, some, arith, leb, ◌==◌, ==_iff,
  Bool-cases, inl, inr, false,
}
use go_tfhfs.Device.Superblocks.{
  times_16, super_block_offset, count_from, calculate_number_of_super_blocks,
}

times_16-zero : (i : ℕ) → times_16 i 0 ≡ 0
unfolding times_16
times_16-zero zero = refl
times_16-zero (suc i) = times_16-zero i

abbrev shift_offset : ℕ → ℕ
shift_offset i = suc (suc (suc (suc (suc (suc (suc (suc (suc (suc (suc (suc i)))))))))))

super_block_offset_wraps : (i : ℕ) → super_block_offset (shift_offset i) ≡ 0
unfolding super_block_offset
super_block_offset_wraps i = times_16-zero i

super_block_offset-le : (i : ℕ) → super_block_offset i ≤ 2 ^ 60
unfolding super_block_offset
super_block_offset-le zero = omega arith
super_block_offset-le (suc zero) = omega arith
super_block_offset-le (suc (suc zero)) = omega arith
super_block_offset-le (suc (suc (suc zero))) = omega arith
super_block_offset-le (suc (suc (suc (suc zero)))) = omega arith
super_block_offset-le (suc (suc (suc (suc (suc zero))))) = omega arith
super_block_offset-le (suc (suc (suc (suc (suc (suc zero)))))) = omega arith
super_block_offset-le (suc (suc (suc (suc (suc (suc (suc zero))))))) = omega arith
super_block_offset-le (suc (suc (suc (suc (suc (suc (suc (suc zero)))))))) = omega arith
super_block_offset-le (suc (suc (suc (suc (suc (suc (suc (suc (suc zero))))))))) = omega arith
super_block_offset-le (suc (suc (suc (suc (suc (suc (suc (suc (suc (suc zero)))))))))) = omega arith
super_block_offset-le (suc (suc (suc (suc (suc (suc (suc (suc (suc (suc (suc zero))))))))))) =
    omega arith
super_block_offset-le (suc (suc (suc (suc (suc (suc (suc (suc (suc (suc (suc (suc i)))))))))))) =
    omega (arith, times_16-zero i)

count_from_loops : (fuel s i : ℕ) → 2 ^ 60 ≤ s → count_from fuel s i ≡ none
unfolding count_from
count_from_loops zero s i h = refl
count_from_loops (suc fuel) s i h =
    ground (arith, super_block_offset-le i, count_from_loops fuel s (suc i))

-- On a device of 2 ^ 60 bytes or more the count never ends, however long it runs.
pub calculate_number_of_super_blocks_loops :
    (fuel s : ℕ) → 2 ^ 60 ≤ s → calculate_number_of_super_blocks fuel s ≡ none
unfolding calculate_number_of_super_blocks
calculate_number_of_super_blocks_loops fuel s h = ground (arith, count_from_loops fuel s 1)

offset_zero : (s : ℕ) → super_block_offset 0 ≤ s
unfolding super_block_offset
offset_zero s = omega arith

positive_test : (s : ℕ) → 0 < s → (s == 0) ≡ false
positive_test s h = ground arith

below_last : (s i : ℕ) → i ≤ 10 → super_block_offset (suc i) ≤ s → s < 2 ^ 60 → suc i ≤ 10
unfolding super_block_offset
below_last s i h le k = elim (Bool-cases (i == 10)) [
  | inl e ↦ let last : 2 ^ 60 ≤ s = rw ((==_iff i 10).0 e) at le in absurd (omega arith)
  | inr e ↦ ground arith
]

abbrev Found : ℕ → Option ℕ → Type 0
Found s r =
    (n : ℕ) × (r ≡ some (suc n))
    × (n ≤ 10)
    × (super_block_offset n ≤ s)
    × (s < super_block_offset (suc n))

count_from_finds :
    (fuel s i : ℕ)
    → s < 2 ^ 60
    → i ≤ 10
    → 11 ≤ i + fuel
    → super_block_offset i ≤ s
    → Found s (count_from fuel s (suc i))
unfolding count_from
count_from_finds zero s i k le enough at = absurd (omega arith)
count_from_finds (suc fuel) s i k le enough at =
    elim (Bool-cases (leb (super_block_offset (suc i)) s)) [
      | inl more ↦
          let inside : super_block_offset (suc i) ≤ s = ground arith in
          rw more
            (count_from_finds fuel s (suc i) k (below_last s i le inside k) (omega arith) inside)
      | inr done ↦ (i, rw done, le, at, ground arith)
    ]

-- On a device that is not empty and smaller than 2 ^ 60 bytes the count ends within 12 rounds, and
-- counts exactly the superblocks whose offset is at most the size of the device: also one that would
-- stand at its very end, outside of it.
pub calculate_number_of_super_blocks_exact :
    (s : ℕ)
    → 0 < s
    → s < 2 ^ 60
    → (n : ℕ) × (calculate_number_of_super_blocks 12 s ≡ some (suc n))
      × (n ≤ 10)
      × (super_block_offset n ≤ s)
      × (s < super_block_offset (suc n))
unfolding calculate_number_of_super_blocks
calculate_number_of_super_blocks_exact s h k =
    let started : super_block_offset 0 ≤ s = offset_zero s in
    rw (positive_test s h) (count_from_finds 12 s 0 k (omega arith) (omega arith) started)
