-- ===== src/Control/Mount.antt =====
-- What mounting and unmounting does to the devices: src/bdev_state_handler.c and the automatic transitions of
-- src/tracer.c.
use moocbt.Common.{
  ℕ, ◌+◌, Bool, true, false, not, ◌&&◌, ◌||◌, [], ◌∷◌, Option, none, some, set, enodev, ◌==◌,
  if◌then◌else◌,
}
use moocbt.Control.{
  Dev, Devices, Answers, Done, cleared, setup_tracing, setup_unverified, destroy_tracing,
}

-- `tracer_set_fail_state`
unfoldable pub set_fail : ℕ → Dev → Dev
set_fail e d = if d.fail_code == 0 then record d { fail_code = e } else d

-- `__tracer_active_to_dormant`, with the error of closing the cow manager; `__tracer_destroy_cow` resets the cache
-- size however the closing ends
unfoldable pub active_to_dormant : ℕ → Dev → Dev
unfolding set_fail
active_to_dormant close d =
    if close == 0
    then record d { cow_thread = false; active = false; cache_size = 0 }
    else set_fail close (record d { cow_thread = false; cache_size = 0 })

-- `__tracer_dormant_to_active`, with the errors of building the path, reopening the cow manager and starting
-- the thread
unfoldable pub dormant_to_active : ℕ → ℕ → ℕ → Dev → Dev
unfolding set_fail
dormant_to_active path cow thread d =
    if not (path == 0)
    then set_fail path d
    else if not (cow == 0)
    then set_fail cow d
    else if not (thread == 0)
    then set_fail thread d
    else record d { cow_thread = true; active = true; unverified = false }

-- `tracer_destroy` and the new setup on the error path of an unverified device, and its fail code; `again` are the
-- answers to the setup
unfoldable pub back_to_unverified : Answers → ℕ → ℕ → Dev → Devices → Devices
unfolding setup_unverified set_fail
back_to_unverified again e minor d ds =
    let failed = set_fail e (cleared d) in
    (setup_unverified again d.snapshot minor d.cache_size failed ds).devices

-- the device when `__tracer_setup_tracing` is called; `__tracer_setup_cow` sets the cache size
abbrev pub verified : Answers → Dev → Dev
verified a d = record d {
  cache_size = if d.cache_size == 0 then a.max_memory_default else d.cache_size;
  minor = 0;
  active = true;
  unverified = false;
  base_dev = true;
  cow = true;
  cow_path = true;
  snap = d.snapshot;
  cow_thread = true;
}

unfoldable pub verify_or_back : Answers → ℕ → Dev → Devices → Done → Devices
unfolding back_to_unverified
verify_or_back again minor d ds r =
    if r.ret == 0 then r.devices else back_to_unverified again r.ret minor d r.devices

-- `__tracer_unverified_snap_to_active` and `__tracer_unverified_inc_to_active`, which only differ in the setup
-- of the snapshot; `path` is the error of building the path
unfoldable pub unverified_to_active : Answers → Answers → ℕ → Dev → Devices → Devices
unfolding destroy_tracing setup_tracing verify_or_back back_to_unverified
unverified_to_active a again path d ds =
    let minor = d.minor in
    let ds1 = destroy_tracing a.freeze d ds in
    let back : ℕ → Devices = λ e. back_to_unverified again e minor d ds1 in
    if not (a.base_dev == 0)
    then back a.base_dev
    else if not (path == 0)
    then back path
    else if not (a.cow == 0)
    then back a.cow
    else if not (a.cow_path == 0)
    then back a.cow_path
    else if not (a.mrf_get == 0)
    then back a.mrf_get
    else if d.snapshot && not (a.snap == 0)
    then back a.snap
    else if not (a.cow_thread == 0)
    then back a.cow_thread
    else verify_or_back again minor d ds1 (setup_tracing a minor (verified a d) ds1)

-- `auto_transition_active`
unfoldable pub auto_transition_active : Answers → Answers → ℕ → ℕ → Dev → Devices → Devices
unfolding unverified_to_active dormant_to_active
auto_transition_active a again path i d ds =
    if d.unverified
    then unverified_to_active a again path d ds
    else set ds i (some (dormant_to_active path a.cow a.cow_thread d))

-- the first device from `i` on that passes the test of a loop of src/bdev_state_handler.c
unfoldable pub first_match : (Dev → Bool) → ℕ → Devices → Option (ℕ × Dev)
first_match test i [] = none
first_match test i (none ∷ ds) = first_match test (i + 1) ds
first_match test i (some d ∷ ds) =
    let rest = first_match test (i + 1) ds in if test d then some (i, d) else rest

abbrev pub on_match : Option (ℕ × Dev) → Devices → (ℕ → Dev → Devices) → Done
on_match none ds f = record { ret = enodev; devices = ds }
on_match (some (i, d)) ds f = record { ret = 0; devices = f i d }

-- `__handle_bdev_mount_nowrite`: `is_mounted_here` compares the block device and the mount of the cow file
unfoldable pub mount_nowrite : (Dev → Bool) → ℕ → Devices → Done
unfolding first_match active_to_dormant
mount_nowrite is_mounted_here close ds =
    on_match
      (first_match
        (λ d. d.active && (d.fail_code == 0 && (d.base_dev && (is_mounted_here d && d.cow)))) 0 ds)
      ds (λ i d. set ds i (some (active_to_dormant close d)))

-- `__handle_bdev_mount_writable`: `is_its_device` compares the block device, which an unverified device finds by
-- its path
unfoldable pub mount_writable : (Dev → Bool) → Answers → Answers → ℕ → Devices → Done
unfolding first_match auto_transition_active
mount_writable is_its_device a again path ds =
    on_match
      (first_match
        (λ d.
          not d.active && (d.fail_code == 0 && ((d.unverified || d.base_dev) && is_its_device d)))
        0 ds)
      ds (λ i d. auto_transition_active a again path i d ds)
