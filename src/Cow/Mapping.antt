-- ===== src/Cow/Mapping.antt =====
-- Reading and writing the mapping of a block, and the data of the blocks that were saved.
pub mod Lookup
pub mod Store
use moocbt.Common.{
  ℕ, ◌+◌, ◌*◌, ◌/◌, ◌%◌, Bool, true, false, not, ◌&&◌, List, [], Option, none, some, einval, efbig,
  get_or, set, length, ltb, leb, ◌==◌, if◌then◌else◌, ok, oops,
}
use moocbt.Word.{add64, mul64}
use moocbt.Kernel.{Kernel}
use moocbt.Cow.State.{
  Section, Cow, World, M, pure, fail, fault, ◌>>=◌, ◌>>◌, get_cm, put_cm, when, sect_at, put_sect,
}
use moocbt.Cow.Io.{file_read, file_write}
use moocbt.Cow.Sections.{is_loaded, alloc_section, load_section}
use moocbt.Cow.Cleanup.{cleanup_mappings}

abbrev pub cow_block_size : ℕ
cow_block_size = 4096

abbrev pub cow_version_changed_blocks : ℕ
cow_version_changed_blocks = 1

module _ {F : Type 0} where
  -- `cm->sects[sect_idx].usage++`
  unfoldable pub touch : ℕ → M F (Unit {0})
  touch i = do s ← sect_at i; put_sect i (record s { usage = add64 s.usage 1 })

  -- `cm->sects[sect_idx].mappings[sect_pos]`
  unfoldable pub mapping_at : ℕ → ℕ → M F ℕ
  mapping_at i j = do
    s ← sect_at i
    elim s.mappings [
      | none ↦ fault
      | some ms ↦ λ w. (if ltb j (length ms) then ok (get_or ms j 0) else oops, w)
    ]

  unfoldable pub set_mapping : ℕ → ℕ → ℕ → M F (Unit {0})
  set_mapping i j val = do
    s ← sect_at i
    elim s.mappings [
      | none ↦ fault
      | some ms ↦ put_sect i (record s { mappings = some (set ms j val) })
    ]

  -- the count of changed blocks, which only files of version 1 keep
  unfoldable pub count_change : ℕ → M F (Unit {0})
  count_change old = do
    cm ← get_cm
    when (leb cow_version_changed_blocks cm.version && old == 0)
        (put_cm (record cm { nr_changed_blocks = add64 cm.nr_changed_blocks 1 }))

module _ {F : Type 0} (K : Kernel F) where
  -- the end of both functions on mappings: evict when too much is loaded
  unfoldable pub evict_if_full : M F (Unit {0})
  evict_if_full = do
    cm ← get_cm
    when (ltb cm.allowed_sects cm.allocated_sects) (cleanup_mappings K)

  -- `*out = cm->sects[sect_idx].mappings[sect_pos]`, and the eviction
  unfoldable pub read_loaded : ℕ → ℕ → M F ℕ
  read_loaded i j = do out ← mapping_at i j; evict_if_full; pure out

  -- `cow_read_mapping`
  unfoldable pub read_mapping : ℕ → M F ℕ
  read_mapping pos = do
    cm ← get_cm
    let i = pos / cm.sect_size
    let j = pos % cm.sect_size
    touch i
    s ← sect_at i
    if not (is_loaded s) && not s.has_data
        then pure 0
        else (do when (not (is_loaded s)) (load_section K i); read_loaded i j)

  -- the count, the write into the array, and the eviction
  unfoldable pub store_loaded : ℕ → ℕ → ℕ → M F (Unit {0})
  store_loaded i j val = do
    old ← mapping_at i j
    count_change old
    set_mapping i j val
    evict_if_full

  -- `__cow_write_mapping`
  unfoldable pub write_mapping : ℕ → ℕ → M F (Unit {0})
  write_mapping pos val = do
    cm ← get_cm
    let i = pos / cm.sect_size
    let j = pos % cm.sect_size
    touch i
    s ← sect_at i
    when (not (is_loaded s)) (if not s.has_data then alloc_section K i true else load_section K i)
    store_loaded i j val

  -- `cow_write_filler_mapping`
  unfoldable pub write_filler_mapping : ℕ → M F (Unit {0})
  write_filler_mapping pos = write_mapping pos 1

  -- `__cow_write_current_mapping`
  unfoldable pub write_current_mapping : ℕ → M F (Unit {0})
  write_current_mapping pos = do cm ← get_cm; write_mapping pos cm.curr_pos

  -- `__cow_write_data`
  unfoldable pub write_data : List ℕ → M F (Unit {0})
  write_data buf = do
    cm ← get_cm
    let curr_size = mul64 cm.curr_pos cow_block_size
    if leb cm.file_size curr_size then fail efbig else (do
      file_write K curr_size buf
      cm' ← get_cm
      put_cm (record cm' { curr_pos = add64 cm'.curr_pos 1 }))

  -- `cow_write_current`
  unfoldable pub write_current : ℕ → List ℕ → M F (Unit {0})
  write_current block buf = do
    block_mapping ← read_mapping block
    if not (block_mapping == 0) then pure tt else (do write_current_mapping block; write_data buf)

  -- `cow_read_data`
  unfoldable pub read_data : ℕ → ℕ → ℕ → M F (List ℕ)
  read_data block_pos block_off len =
      if leb cow_block_size block_off
      then fail einval
      else file_read K (add64 (mul64 block_pos cow_block_size) block_off) len
