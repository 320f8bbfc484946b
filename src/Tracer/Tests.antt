-- ===== src/Tracer/Tests.antt =====
-- The theorems at two devices, and at an array of four minors.
use moocbt.Common.{
  ℕ, ◌+◌, ◌≤◌, ◌<◌, ◌≡◌, ◌≢◌, refl, Bool, true, false, List, [], ◌∷◌, some, get_elem?, arith, none,
  inr,
}
use moocbt.Tracer.{
  SnapDevice, Bio, queued, snap_mrf, should_trace_bio, is_bio_for_dev, sector_matches, recalculate,
}
use moocbt.Tracer.Dispatch.{trace_bio, IsTracer, trace_bio-IsTracer}
use moocbt.Tracer.Minors.{recalculate_lem}
use moocbt.Tracer.Requests.{set_fail_states, set_fail_states_lem, is_bio_for_dev_apart}

abbrev device : SnapDevice
device = record {
  sd_fail_code = 0;
  sd_active = true;
  active = true;
  unverified = false;
  sd_sect_off = 100;
  sd_size = 50;
  base_queue = 1;
}

abbrev bio : Bio
bio = record { sector = 120; size = 4096; is_write = true; is_discard = false; queue = 1 }

set_fail_states_lem_example :
    ((set_fail_states (0 ∷ 5 ∷ 12 ∷ []) device).sd_fail_code ≡ 5)
    × (◌≢◌ {A = ℕ} 5 0
        → (snap_mrf (set_fail_states (0 ∷ 5 ∷ 12 ∷ []) device) bio ≢ queued)
          × (should_trace_bio (set_fail_states (0 ∷ 5 ∷ 12 ∷ []) device) bio ≡ false))
set_fail_states_lem_example = set_fail_states_lem (0 ∷ 5 ∷ 12 ∷ []) device bio

for_device : is_bio_for_dev device bio ≡ true
unfolding is_bio_for_dev sector_matches
for_device = refl

abbrev other : SnapDevice
other = record device { sd_sect_off = 110 }

for_other : is_bio_for_dev other bio ≡ true
unfolding is_bio_for_dev sector_matches
for_other = refl

is_bio_for_dev_apart_example :
    (device.base_queue ≡ other.base_queue)
    × (device.sd_sect_off < other.sd_sect_off + other.sd_size)
    × (other.sd_sect_off < device.sd_sect_off + device.sd_size)
is_bio_for_dev_apart_example =
    is_bio_for_dev_apart device other bio (omega arith) (omega arith) for_device for_other

abbrev used : List Bool
used = false ∷ true ∷ true ∷ false ∷ []

recalculate_lem_example :
    ((k : ℕ)
      → get_elem? used k ≡ some true
      → ((recalculate 4 used).lowest ≤ k) × (k ≤ (recalculate 4 used).highest))
    × ((k : ℕ)
        → get_elem? used k ≡ some true
        → (get_elem? used (recalculate 4 used).lowest ≡ some true)
          × (get_elem? used (recalculate 4 used).highest ≡ some true))
recalculate_lem_example = recalculate_lem 4 used refl

abbrev behind : SnapDevice
behind = record device { sd_sect_off = 150 }

trace_bio-IsTracer_example :
    ((trace_bio (behind ∷ device ∷ []) bio true).0 ≡ none)
    × IsTracer (behind ∷ device ∷ []) bio (trace_bio (behind ∷ device ∷ []) bio false).0
trace_bio-IsTracer_example =
    trace_bio-IsTracer (behind ∷ device ∷ []) bio
      (((omega arith, omega arith, λ _. inr (omega arith)), tt), (tt, tt))

traced_by_second : (trace_bio (behind ∷ device ∷ []) bio false).0 ≡ some device
unfolding trace_bio is_bio_for_dev should_trace_bio sector_matches
traced_by_second = refl
