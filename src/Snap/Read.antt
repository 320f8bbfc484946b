-- ===== src/Snap/Read.antt =====
-- `snap_handle_read_bio` of src/snap_handle.c: the live data of the base device, overlaid with the
-- saved data of the cow file. `submit_wait` is the call that reads the base device into the bio.
pub mod Overlay
pub mod Mode
pub mod Pages
pub mod View
pub mod Bio
use moocbt.Common.{
  ℕ, zero, suc, ◌+◌, ◌-◌, ◌*◌, ◌/◌, ◌%◌, ◌^◌, min, Bool, true, false, not, ◌&&◌, ◌||◌, List, [],
  ◌∷◌, Option, none, some, Result, ok, err, oops, ltb, leb, ◌==◌, if◌then◌else◌,
}
use moocbt.Word.{add64, mul64}
use moocbt.Bytes.Store.{Content, write_at}
use moocbt.Kernel.{Kernel, Reply}
use moocbt.Cow.State.{World, M, pure, fail, fault, ◌>>=◌, ◌>>◌}
use moocbt.Cow.Mapping.{cow_block_size, read_mapping, read_data}

abbrev pub sector_size : ℕ
sector_size = 512

-- `struct bio_vec`, with the bytes of its page by their offset
pub record PageVec : Type 0 where
  pub bv_offset : ℕ
  pub bv_len : ℕ
  pub page : Content

-- the variable `mode`, which starts as 0
pub data ReadMode : Type 0 where
  unset cow_file base_device mixed : ReadMode

-- the mode after a block that is mapped or not
unfoldable pub next_mode : ReadMode → Bool → ReadMode
next_mode unset true = cow_file
next_mode unset false = base_device
next_mode cow_file true = cow_file
next_mode cow_file false = mixed
next_mode base_device true = mixed
next_mode base_device false = base_device
next_mode mixed mapped = mixed

abbrev pub is_mixed : ReadMode → Bool
is_mixed mixed = true
is_mixed _ = false

abbrev pub reads_base : ReadMode → Bool
reads_base cow_file = false
reads_base _ = true

abbrev pub reads_cow : ReadMode → Bool
reads_cow base_device = false
reads_cow _ = true

-- `bv_offset + bv_len`, of 32 bits
abbrev pub vec_end : PageVec → ℕ
vec_end v = (v.bv_offset + v.bv_len) % 2 ^ 32

-- `*mode = READ_MODE_MIXED; return 0;`, or else the loop goes on
module _ {F : Type 0} where
  abbrev pub stop_if : Bool → ReadMode × ℕ → M F (ReadMode × ℕ) → M F (ReadMode × ℕ)
  stop_if true r rest = pure r
  stop_if false r rest = rest

  unfoldable pub unless_mixed : ReadMode × ℕ → M F (ReadMode × ℕ) → M F (ReadMode × ℕ)
  unless_mixed r rest = stop_if (is_mixed r.0) r rest

module _ {F : Type 0} (K : Kernel F) where
  -- The while loop over a segment, on fuel: it returns the mode and `curr_end_byte`.
  unfoldable pub mode_in_vec : ℕ → ℕ → ℕ → ℕ → ReadMode → M F (ReadMode × ℕ)
  mode_in_vec zero len bytes curr_end_byte mode =
      if ltb bytes len then fault else pure (mode, curr_end_byte)
  mode_in_vec (suc fuel) len bytes curr_end_byte mode = elim (ltb bytes len) [
    | false ↦ pure (mode, curr_end_byte)
    | true ↦ (do
      let n = min (cow_block_size - curr_end_byte % cow_block_size) (len - bytes)
      block_mapping ← read_mapping K (curr_end_byte / cow_block_size)
      let mode' = next_mode mode (not (block_mapping == 0))
      unless_mixed (mode', curr_end_byte)
          (mode_in_vec fuel len (bytes + n) (add64 curr_end_byte n) mode'))
  ]

  unfoldable pub mode_of_vecs : List PageVec → ℕ → ReadMode → M F ReadMode
  mode_of_vecs [] curr_end_byte mode = pure mode
  mode_of_vecs (v ∷ vs) curr_end_byte mode = do
    r ← mode_in_vec v.bv_len v.bv_len 0 curr_end_byte mode
    if is_mixed r.0 then pure r.0 else mode_of_vecs vs r.1 r.0

  -- `snap_read_bio_get_mode`
  unfoldable pub get_mode : ℕ → List PageVec → M F ReadMode
  unfolding mode_of_vecs
  get_mode sector vs = mode_of_vecs vs (mul64 sector sector_size) unset

  -- one round of the copying: the page once the mapped part of a block has been read into it
  unfoldable pub overlay_block : ℕ → ℕ → ℕ → ℕ → Content → M F Content
  overlay_block cur_block block_off bvec_off bytes_to_copy page = do
    block_mapping ← read_mapping K cur_block
    if not (block_mapping == 0)
        then (do
          bs ← read_data K block_mapping block_off bytes_to_copy
          pure (write_at page bvec_off bs))
        else pure page

  -- The while loop over a page, on fuel: it returns the page and `cur_sect`.
  unfoldable pub overlay_page : ℕ → ℕ → ℕ → ℕ → Content → M F (Content × ℕ)
  overlay_page zero end cur_sect bvec_off page =
      if ltb bvec_off end then fault else pure (page, cur_sect)
  overlay_page (suc fuel) end cur_sect bvec_off page = elim (ltb bvec_off end) [
    | false ↦ pure (page, cur_sect)
    | true ↦ (do
      let cur_block = mul64 cur_sect sector_size / cow_block_size
      let block_off = mul64 cur_sect sector_size % cow_block_size
      let n = min (end - bvec_off) (cow_block_size - block_off)
      page' ← overlay_block cur_block block_off bvec_off n page
      overlay_page fuel end (add64 cur_sect (n / sector_size)) (bvec_off + n) page')
  ]

  unfoldable pub overlay_vecs : List PageVec → ℕ → M F (List PageVec)
  overlay_vecs [] cur_sect = pure []
  overlay_vecs (v ∷ vs) cur_sect = do
    r ← overlay_page v.bv_len (vec_end v) cur_sect v.bv_offset v.page
    rest ← overlay_vecs vs r.1
    pure (record v { page = r.0 } ∷ rest)

  -- the base device's part of the bio, unless the cow file has it all
  unfoldable pub fill :
      (ℕ → List PageVec → Reply (List PageVec)) → ℕ → List PageVec → ReadMode → M F (List PageVec)
  fill submit_wait sector vs mode w = elim (reads_base mode) [
    | false ↦ (ok vs, w)
    | true ↦
        (elim (submit_wait sector vs) [ Reply.value filled ↦ ok filled | Reply.errno e ↦ err e ], w)
  ]

  -- `snap_handle_read_bio`; the fields of the bio that it saves are restored before it returns
  unfoldable pub handle_read_bio :
      (ℕ → List PageVec → Reply (List PageVec)) → ℕ → List PageVec → M F (List PageVec)
  unfolding get_mode overlay_vecs fill
  handle_read_bio submit_wait sector vs = do
    mode ← get_mode sector vs
    filled ← fill submit_wait sector vs mode
    if reads_cow mode then overlay_vecs filled sector else pure filled
