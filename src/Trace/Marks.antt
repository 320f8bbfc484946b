-- ===== src/Trace/Marks.antt =====
-- Tracing a write on a device in incremental mode (`inc_trace_bio` of src/tracer.c): the sectors that
-- change are queued, but for those of the cow file itself.
use moocbt.Common.{
  ℕ, ◌/◌, ◌%◌, ◌^◌, Bool, true, false, not, ◌&&◌, ◌||◌, List, [], ◌∷◌, ◌++◌, length, enomem, ltb,
  ◌==◌, if◌then◌else◌,
}
use moocbt.Word.{add64, sub64}
use moocbt.Tracer.{SnapDevice, Bio, set_fail_state}
use moocbt.Snap.{SectorSet}

-- a segment of a bio: its length, and the inode that its page belongs to, of which 0 is none
pub record Segment : Type 0 where
  pub len : ℕ
  pub inode : ℕ

-- the error of the function, and `sd_pending_ssets`
pub record Marked : Type 0 where
  pub ret : ℕ
  pub ssets : List SectorSet

-- `inc_make_sset`; `room` says whether the allocation succeeds that makes the n-th set of the queue
unfoldable pub inc_make_sset : (ℕ → Bool) → ℕ → ℕ → ℕ → List SectorSet → Marked
inc_make_sset room off sect len q =
    if room (length q)
    then record {
      ret = 0;
      ssets = q ++ (record { sect = sub64 sect off; len = len % 2 ^ 32 } ∷ []);
    }
    else record { ret = enomem; ssets = q }

-- a set is queued for the sectors since `start`, if there are any
unfoldable pub flush : (ℕ → Bool) → ℕ → Bool → ℕ → ℕ → List SectorSet → Marked
unfolding inc_make_sset
flush room off is_initialized start end q =
    if is_initialized && ltb 0 (sub64 end start)
    then inc_make_sset room off start (sub64 end start) q
    else record { ret = 0; ssets = q }

abbrev pub unless_failed : Marked → (List SectorSet → Marked) → Marked
unless_failed r f = if r.ret == 0 then f r.ssets else r

-- the loop over the segments, and what follows it
unfoldable pub inc_segments :
    (ℕ → Bool) → ℕ → ℕ → Bool → ℕ → ℕ → List Segment → List SectorSet → Marked
unfolding flush
inc_segments room off cow_inode is_initialized start end [] q =
    flush room off is_initialized start end q
inc_segments room off cow_inode is_initialized start end (v ∷ vs) q =
    let next = add64 end (v.len / 512) in
    elim (v.inode == cow_inode) [
      | false ↦
          inc_segments room off cow_inode true (if is_initialized then start else end) next vs q
      | true ↦
          unless_failed (flush room off is_initialized start end q)
            (inc_segments room off cow_inode false start next vs)
    ]

unfoldable pub inc_out : SnapDevice → Marked → SnapDevice × List SectorSet
unfolding set_fail_state
inc_out dev r = (if r.ret == 0 then dev else set_fail_state r.ret dev, r.ssets)

-- `inc_trace_bio`, for a bio that writes zeroes without data or one with segments; the queue is returned
-- beside the device
unfoldable pub inc_trace_bio :
    (ℕ → Bool)
    → ℕ
    → Bool
    → Bio
    → List Segment
    → SnapDevice
    → List SectorSet
    → SnapDevice × List SectorSet
unfolding inc_out inc_segments inc_make_sset
inc_trace_bio room cow_inode write_zeroes bio vs dev q = inc_out dev (
    if write_zeroes
    then inc_make_sset room dev.sd_sect_off bio.sector (bio.size / 512) q
    else inc_segments room dev.sd_sect_off cow_inode false 0 bio.sector vs q)

-- the loop of `bio_needs_cow`
unfoldable pub any_foreign : ℕ → List Segment → Bool
any_foreign cow_inode [] = false
any_foreign cow_inode (v ∷ vs) =
    let rest = any_foreign cow_inode vs in if not (v.inode == cow_inode) then true else rest

-- `bio_needs_cow`
unfoldable pub bio_needs_cow : ℕ → Bool → List Segment → Bool
unfolding any_foreign
bio_needs_cow cow_inode write_zeroes vs = write_zeroes || any_foreign cow_inode vs
