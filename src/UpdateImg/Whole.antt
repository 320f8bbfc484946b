-- ===== src/UpdateImg/Whole.antt =====
-- The merge goes through the whole index.
use moocbt.Common.{ℕ, ◌+◌, ◌*◌, ◌^◌, ◌≤◌, ◌<◌, ◌≡◌, ◌≢◌, ◌⊎◌, min}
use moocbt.Word.{add64, sub64, mul64}
use moocbt.UpdateImg.{Files, Progress, merge_chunks}
use moocbt.UpdateImg.Merge.{IsFiles, CopiedBlock, Merged}

module _ {F : Type 0} {K : Files F} (L : IsFiles K) where
  -- how many words a round reads, and where
  abbrev to_read : ℕ → ℕ → ℕ
  to_read total blocks_done = min 8192 (sub64 total blocks_done)

  abbrev chunk_offset : ℕ → ℕ
  chunk_offset i = add64 4096 (mul64 (mul64 8192 8) i)

  abbrev ChunksGoal : ℕ → Type 0
  ChunksGoal n =
      (i total blocks_done : ℕ) (p : Progress F)
      → total < 2 ^ 51
      → blocks_done ≡ min (8192 * i) total
      → total ≤ 8192 * (i + n)
      → 8192 * (i + n) < total + 8192
      → p.err_count ≤ blocks_done
      → (merge_chunks K n i total blocks_done p).0 ≡ 0
      → Merged L L.index blocks_done total p (merge_chunks K n i total blocks_done p).1

  abbrev start : F → Progress F
  start img = record { count = 0; err_count = 0; img = img }

  -- the image after an exit with 0
  abbrev pub Copied : ℕ → F → Progress F → Type 0
  Copied snap_size img p =
      ((b : ℕ) → (L.index b ≡ 0) ⊎ (snap_size ≤ b * 4096) → L.image p.img b ≡ L.image img b)
      × (p.err_count ≡ 0 → (b : ℕ) → b * 4096 < snap_size → L.index b ≢ 0 → CopiedBlock L p.img b)
