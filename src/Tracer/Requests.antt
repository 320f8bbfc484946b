-- ===== src/Tracer/Requests.antt =====
-- What the fail code and the sectors of a device mean for the requests.
use moocbt.Common.{
  ℕ, ◌+◌, ◌^◌, ◌<◌, ◌≡◌, ◌≢◌, true, false, List, [], ◌∷◌, ◌==◌, if◌then◌else◌, arith,
}
use moocbt.Tracer.{
  SnapDevice, Bio, queued, set_fail_state, snap_mrf, sector_matches, is_bio_for_dev,
  should_trace_bio,
}

-- the errors that the threads of a device set, one after the other
unfoldable pub set_fail_states : List ℕ → SnapDevice → SnapDevice
set_fail_states [] dev = dev
set_fail_states (e ∷ es) dev = set_fail_states es (set_fail_state e dev)

abbrev pub first_error : List ℕ → ℕ
first_error [] = 0
first_error (e ∷ es) = if e == 0 then first_error es else e

fail_code_lem :
    (es : List ℕ) (dev : SnapDevice)
    → (set_fail_states es dev).sd_fail_code ≡ first_error (dev.sd_fail_code ∷ es)
unfolding set_fail_states set_fail_state
fail_code_lem [] dev = ground arith
fail_code_lem (e ∷ es) dev = ground (arith, fail_code_lem es (set_fail_state e dev))

failed_mrf : (dev : SnapDevice) (bio : Bio) → dev.sd_fail_code ≢ 0 → snap_mrf dev bio ≢ queued
unfolding snap_mrf
failed_mrf dev bio ne e = ground arith

failed_trace :
    (dev : SnapDevice) (bio : Bio) → dev.sd_fail_code ≢ 0 → should_trace_bio dev bio ≡ false
unfolding should_trace_bio sector_matches
failed_trace dev bio ne = ground arith

-- The fail code is the first error that was set, whatever is set later; and from the first error on no
-- read of the snapshot is queued and no write is traced.
pub set_fail_states_lem :
    (es : List ℕ) (dev : SnapDevice) (bio : Bio)
    → ((set_fail_states es dev).sd_fail_code ≡ first_error (dev.sd_fail_code ∷ es))
      × (first_error (dev.sd_fail_code ∷ es) ≢ 0
          → (snap_mrf (set_fail_states es dev) bio ≢ queued)
            × (should_trace_bio (set_fail_states es dev) bio ≡ false))
set_fail_states_lem es dev bio = (
  fail_code_lem es dev,
  λ ne.
      let code : (set_fail_states es dev).sd_fail_code ≢ 0 = rw (fail_code_lem es dev) ne in
      (
        failed_mrf (set_fail_states es dev) bio code,
        failed_trace (set_fail_states es dev) bio code,
      ),
)

-- A bio is for two devices only if their sector ranges, which do not wrap, overlap.
pub is_bio_for_dev_apart :
    (d d' : SnapDevice) (bio : Bio)
    → d.sd_sect_off + d.sd_size < 2 ^ 64
    → d'.sd_sect_off + d'.sd_size < 2 ^ 64
    → is_bio_for_dev d bio ≡ true
    → is_bio_for_dev d' bio ≡ true
    → (d.base_queue ≡ d'.base_queue)
      × (d.sd_sect_off < d'.sd_sect_off + d'.sd_size)
      × (d'.sd_sect_off < d.sd_sect_off + d.sd_size)
unfolding is_bio_for_dev sector_matches
is_bio_for_dev_apart d d' bio h h' e e' = ground arith
