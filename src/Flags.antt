-- ===== src/Flags.antt =====
-- The bits of the flag words: `COW_CLEAN` and the others of src/moocbt.h, and the state bits of
-- src/snap_device.h.
use moocbt.Common.{ℕ, ◌+◌, ◌-◌, ◌/◌, ◌%◌, ◌^◌, Bool, ◌==◌, if◌then◌else◌}

abbrev pub cow_clean : ℕ
cow_clean = 0

abbrev pub cow_index_only : ℕ
cow_index_only = 1

abbrev pub cow_vmalloc_upper : ℕ
cow_vmalloc_upper = 2

abbrev pub test_bit : ℕ → ℕ → Bool
test_bit f b = f / 2 ^ b % 2 == 1

abbrev pub set_bit : ℕ → ℕ → ℕ
set_bit f b = if test_bit f b then f else f + 2 ^ b

abbrev pub clear_bit : ℕ → ℕ → ℕ
clear_bit f b = if test_bit f b then f - 2 ^ b else f
