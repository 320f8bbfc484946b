-- ===== src/Tracer.antt =====
-- The state of a traced device: its fail code, the tests that decide which requests are served and
-- traced (src/tracer_helper.c, src/snap_ops.c), and the range of minors in use (src/tracer.c).
pub mod Minors
pub mod Requests
pub mod Dispatch
mod Tests
use moocbt.Common.{
  ℕ, zero, suc, ◌+◌, ◌-◌, Bool, true, false, not, ◌&&◌, ◌||◌, List, [], ◌∷◌, eio, ebusy, ltb, leb,
  ◌==◌, if◌then◌else◌,
}
use moocbt.Word.{add64}

-- The fields of `struct snap_device` that are used here; `sd_state` as its two bits.
pub record SnapDevice : Type 0 where
  pub sd_fail_code : ℕ
  pub sd_active : Bool
  pub active : Bool
  pub unverified : Bool
  pub sd_sect_off : ℕ
  pub sd_size : ℕ
  -- the request queue of `sd_base_dev`
  pub base_queue : ℕ

-- `struct bio`
pub record Bio : Type 0 where
  pub sector : ℕ
  pub size : ℕ
  pub is_write : Bool
  pub is_discard : Bool
  pub queue : ℕ

-- `tracer_set_fail_state`: the exchange happens if the code is 0
unfoldable pub set_fail_state : ℕ → SnapDevice → SnapDevice
set_fail_state error dev =
    if dev.sd_fail_code == 0 then record dev { sd_fail_code = error } else dev

-- what `snap_mrf` does with a bio
pub data Answer : Type 0 where
  ended : (errno : ℕ) → Answer
  queued : Answer

abbrev pub eopnotsupp : ℕ
eopnotsupp = 95

-- `snap_mrf`
unfoldable pub snap_mrf : SnapDevice → Bio → Answer
snap_mrf dev bio =
    if bio.is_write
    then ended eopnotsupp
    else if not (dev.sd_fail_code == 0)
    then ended eio
    else if not dev.active
    then ended ebusy
    else queued

-- `tracer_sector_matches_bio`
unfoldable pub sector_matches : SnapDevice → Bio → Bool
sector_matches dev bio =
    leb dev.sd_sect_off bio.sector && ltb bio.sector (add64 dev.sd_sect_off dev.sd_size)

-- `tracer_is_bio_for_dev`, for kernels with `bi_bdev`
unfoldable pub is_bio_for_dev : SnapDevice → Bio → Bool
unfolding sector_matches
is_bio_for_dev dev bio =
    if dev.unverified || not dev.sd_active
    then false
    else if not (dev.base_queue == bio.queue)
    then false
    else sector_matches dev bio

-- `tracer_should_trace_bio`
unfoldable pub should_trace_bio : SnapDevice → Bio → Bool
unfolding sector_matches
should_trace_bio dev bio =
    not bio.is_discard
    && (bio.is_write && (not (bio.size == 0) && (dev.sd_fail_code == 0 && sector_matches dev bio)))

-- `lowest_minor` and `highest_minor`
pub record Range : Type 0 where
  pub lowest : ℕ
  pub highest : ℕ

-- `minor_range_include`
unfoldable pub include : ℕ → Range → Range
include i r = record {
  lowest = if ltb i r.lowest then i else r.lowest;
  highest = if ltb r.highest i then i else r.highest;
}

-- the loop of `minor_range_recalculate` over the array, which says of each minor whether it is used
unfoldable pub recalculate_from : ℕ → List Bool → Range → Range
unfolding include
recalculate_from i [] r = r
recalculate_from i (used ∷ ds) r = recalculate_from (i + 1) ds (if used then include i r else r)

-- `minor_range_recalculate`, for so many devices at most
unfoldable pub recalculate : ℕ → List Bool → Range
unfolding recalculate_from
recalculate max_snap_devices ds =
    recalculate_from 0 ds (record { lowest = max_snap_devices - 1; highest = 0 })
