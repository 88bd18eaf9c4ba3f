-- ===== src/Device/Superblocks.antt =====
-- Where the superblocks of a device stand: `superBlockOffset` and `calculateNumberOfSuperBlocks` of
-- storage/tree/tree.go, in uint64.
use go_tfhfs.Common.{ℕ, zero, suc, ◌+◌, ◌*◌, ◌%◌, ◌^◌, Option, none, some, if◌then◌else◌, leb, ◌==◌}
pub mod Count
pub mod Offsets

-- The loop `for i > 0 { ofs = ofs * 16; i-- }`.
unfoldable pub times_16 : ℕ → ℕ → ℕ
times_16 zero ofs = ofs
times_16 (suc i) ofs = times_16 i (ofs * 16 % 2 ^ 64)

unfoldable pub super_block_offset : ℕ → ℕ
unfolding times_16
super_block_offset zero = 0
super_block_offset (suc i) = times_16 i (1024 * 1024)

-- The loop `for s >= superBlockOffset(i) { i++ }`; `none` means that the fuel ran out.
unfoldable pub count_from : ℕ → ℕ → ℕ → Option ℕ
count_from zero s i = none
count_from (suc fuel) s i =
    let rest = count_from fuel s (suc i) in if leb (super_block_offset i) s then rest else some i

unfoldable pub calculate_number_of_super_blocks : ℕ → ℕ → Option ℕ
unfolding count_from
calculate_number_of_super_blocks fuel s = if s == 0 then some 0 else count_from fuel s 1
