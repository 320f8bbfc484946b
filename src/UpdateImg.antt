-- ===== src/UpdateImg.antt =====
-- utils/update-img.c: the blocks that an incremental cow file marks are copied from the snapshot to an
-- image. A call that reads or writes less than it was asked to leaves `errno` at some value, 0 included.
pub mod Merge
pub mod Verify
pub mod Whole
mod Tests
use moocbt.Common.{
  ℕ, zero, suc, ◌+◌, ◌-◌, ◌*◌, ◌/◌, min, Bool, true, false, List, [], ◌∷◌, einval, enomem, ◌==◌,
  if◌then◌else◌,
}
use moocbt.Word.{add64, sub64, mul64}
use moocbt.Cow.Header.{CowHeader, cow_magic}
use moocbt.Cow.Mapping.{cow_block_size}
use moocbt.Cow.Sections.{cow_header_size}

pub data Transfer (A : Type 0) : Type 0 where
  whole : A → Transfer A
  short : (errno : ℕ) → Transfer A

-- the fields of `struct moocbt_info` that are read
pub record Info : Type 0 where
  pub info_uuid : List ℕ
  pub info_seqid : ℕ

-- The calls on the three files and the driver; `F` is the state of the image. `pread_snap` and
-- `pwrite_img` are given the number of a block, and `pread_index` an offset and a number of words.
pub record Files (F : Type 0) : Type 0 where
  pub pread_snap : ℕ → Transfer (List ℕ)
  pub pwrite_img : F → ℕ → List ℕ → Transfer (Unit {0}) × F
  pub pread_index : ℕ → ℕ → Transfer (List ℕ)
  pub pread_header : Transfer CowHeader
  pub malloc : ℕ → Bool
  pub moocbt_info : Transfer Info
  pub memcmp : List ℕ → List ℕ → Bool

abbrev pub index_buffer_size : ℕ
index_buffer_size = 8192

-- `count`, `err_count` and the image
pub record Progress (F : Type 0) : Type 0 where
  pub count : ℕ
  pub err_count : ℕ
  pub img : F

module _ {F : Type 0} (K : Files F) where
  -- `copy_block`, which returns the `errno` of a short transfer
  unfoldable pub copy_block : ℕ → F → ℕ × F
  copy_block block img = elim (K.pread_snap block) [
    | short e ↦ (e, img)
    | whole buf ↦
        let (r, img') = K.pwrite_img img block buf in (elim r [ short e ↦ e | whole _ ↦ 0 ], img')
  ]

  -- `verify_files`: 0, or an error
  unfoldable pub verify_files : ℕ
  verify_files =
      if K.malloc 0
      then elim K.moocbt_info [
        | short e ↦ e
        | whole info ↦ elim K.pread_header [
          | short e ↦ e
          | whole ch ↦
              if ch.magic == cow_magic
              then if K.memcmp ch.uuid info.info_uuid
                then if ch.seqid == sub64 info.info_seqid 1 then 0 else einval
                else einval
              else einval
        ]
      ]
      else enomem

  -- the loop over the mappings of a chunk, from a block on
  unfoldable pub merge_mappings : ℕ → List ℕ → Progress F → Progress F
  merge_mappings block [] p = p
  merge_mappings block (m ∷ ms) p = merge_mappings (add64 block 1) ms (
      if m == 0
      then p
      else (let (ret, img) = copy_block block p.img in
          record {
            count = add64 p.count 1;
            err_count = if ret == 0 then p.err_count else add64 p.err_count 1;
            img = img;
          }))

  -- the loop over the chunks; on a short read of the index it ends with that `errno`
  unfoldable pub merge_chunks : ℕ → ℕ → ℕ → ℕ → Progress F → ℕ × Progress F
  merge_chunks zero i total_blocks blocks_done p = (0, p)
  merge_chunks (suc n) i total_blocks blocks_done p =
      let blocks_to_read = min index_buffer_size (sub64 total_blocks blocks_done) in
      elim (K.pread_index (add64 cow_header_size (mul64 (mul64 index_buffer_size 8) i))
        blocks_to_read) [
          | short e ↦ (e, p)
          | whole mappings ↦
              merge_chunks n (i + 1) total_blocks (add64 blocks_done blocks_to_read)
                (merge_mappings (mul64 index_buffer_size i) mappings p)
        ]

  -- the part of `main` after the files are opened, with the size of the snapshot: the exit status
  unfoldable pub merge : ℕ → F → ℕ × Progress F
  unfolding merge_chunks
  merge snap_size img =
      let start : Progress F = record { count = 0; err_count = 0; img = img } in
      if verify_files == 0
      then (let total_blocks = sub64 (add64 snap_size cow_block_size) 1 / cow_block_size in
          let total_chunks = sub64 (add64 total_blocks index_buffer_size) 1 / index_buffer_size in
          if K.malloc 1 then merge_chunks total_chunks 0 total_blocks 0 start else (enomem, start))
      else (verify_files, start)
