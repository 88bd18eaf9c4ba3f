-- ===== src/Device/Superblocks/Offsets.antt =====
-- The distances between superblocks: `superBlockOffset` of storage/tree/tree.go.
use go_tfhfs.Common.{refl, ℕ, zero, suc, ◌+◌, ◌^◌, ◌≤◌, ◌≡◌, arith, Bool-cases, inl, inr, ◌==◌}
use go_tfhfs.Device.Superblocks.{super_block_offset}

-- A superblock has room before the next one.
super_block_offset_gap :
    (i : ℕ) → i ≤ 10 → super_block_offset i + 2 ^ 17 ≤ super_block_offset (suc i)
unfolding super_block_offset
super_block_offset_gap zero h = omega arith
super_block_offset_gap (suc zero) h = omega arith
super_block_offset_gap (suc (suc zero)) h = omega arith
super_block_offset_gap (suc (suc (suc zero))) h = omega arith
super_block_offset_gap (suc (suc (suc (suc zero)))) h = omega arith
super_block_offset_gap (suc (suc (suc (suc (suc zero))))) h = omega arith
super_block_offset_gap (suc (suc (suc (suc (suc (suc zero)))))) h = omega arith
super_block_offset_gap (suc (suc (suc (suc (suc (suc (suc zero))))))) h = omega arith
super_block_offset_gap (suc (suc (suc (suc (suc (suc (suc (suc zero)))))))) h = omega arith
super_block_offset_gap (suc (suc (suc (suc (suc (suc (suc (suc (suc zero))))))))) h = omega arith
super_block_offset_gap (suc (suc (suc (suc (suc (suc (suc (suc (suc (suc zero)))))))))) h =
    omega arith
super_block_offset_gap (suc (suc (suc (suc (suc (suc (suc (suc (suc (suc (suc i))))))))))) h =
    absurd (omega arith)

-- Later superblocks stand at larger offsets.
pub super_block_offset_mono :
    (i j : ℕ) → i ≤ j → j ≤ 11 → super_block_offset i ≤ super_block_offset j
super_block_offset_mono i zero h k = let same : i ≡ zero = omega arith in rw same (omega arith)
super_block_offset_mono i (suc j) h k = elim (Bool-cases (i == suc j)) [
  | inl e ↦ let same : i ≡ suc j = ground arith in rw same (omega arith)
  | inr e ↦ omega (
    arith,
    super_block_offset_mono i j (ground arith) (omega arith),
    super_block_offset_gap j (omega arith),
  )
]

pub first_super_block : super_block_offset 0 ≡ 0
unfolding super_block_offset
first_super_block = refl
