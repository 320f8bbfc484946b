-- ===== src/Snap.antt =====
-- src/snap_handle.c: the work that the threads of a device do on its cow file.
pub mod Mark
pub mod Read
pub mod Save
mod Tests
use moocbt.Common.{ℕ, zero, suc, ◌+◌, ◌-◌, ◌/◌, List, [], ◌∷◌, take}
use moocbt.Word.{add64}
use moocbt.Kernel.{Kernel}
use moocbt.Cow.State.{M, pure, ◌>>=◌, ◌>>◌}
use moocbt.Cow.Life.{num_segments}
use moocbt.Cow.Mapping.{cow_block_size, write_current, write_filler_mapping}

-- `SECTOR_TO_BLOCK`; a block is 8 sectors
unfoldable pub sector_to_block : ℕ → ℕ
sector_to_block sect = sect / 8

-- `struct bio_vec`: the length of the segment, and the bytes of its page
pub record BioVec : Type 0 where
  pub bv_len : ℕ
  pub page : List ℕ

-- `struct sector_set`
pub record SectorSet : Type 0 where
  pub sect : ℕ
  pub len : ℕ

module _ {F : Type 0} (K : Kernel F) where
  -- the loop over the blocks of a page: each is given the start of the page
  unfoldable pub save_blocks : ℕ → ℕ → List ℕ → M F (Unit {0})
  save_blocks zero start_block page = pure tt
  save_blocks (suc n) start_block page = do
    write_current K start_block (take cow_block_size page)
    save_blocks n (add64 start_block 1) page

  unfoldable pub save_segments : ℕ → List BioVec → M F (Unit {0})
  save_segments start_block [] = pure tt
  save_segments start_block (v ∷ vs) = do
    let end_block = add64 start_block (v.bv_len / cow_block_size)
    save_blocks (end_block - start_block) start_block v.page
    save_segments end_block vs

  -- `snap_handle_write_bio`, for a bio that starts at a sector
  unfoldable pub handle_write_bio : ℕ → List BioVec → M F (Unit {0})
  unfolding save_segments
  handle_write_bio sector vs = save_segments (sector_to_block sector) vs

  -- the loop of `inc_handle_sset`
  unfoldable pub mark_blocks : ℕ → ℕ → M F (Unit {0})
  mark_blocks zero start_block = pure tt
  mark_blocks (suc n) start_block = do
    write_filler_mapping K start_block
    mark_blocks n (add64 start_block 1)

  -- `inc_handle_sset`
  unfoldable pub handle_sset : SectorSet → M F (Unit {0})
  unfolding mark_blocks
  handle_sset sset =
      let start_block = sector_to_block sset.sect in
      let end_block = num_segments (add64 sset.sect sset.len) 3 in
      mark_blocks (end_block - start_block) start_block
