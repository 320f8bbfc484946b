-- ===== src/Control/Transition.antt =====
-- The transitions of a traced device between its two modes: `tracer_active_snap_to_inc` and
-- `tracer_active_inc_to_snap` of src/tracer.c, with their handlers in src/ioctl_handlers.c.
use moocbt.Common.{
  ℕ, Bool, true, false, not, ◌||◌, some, get_elem?, set, enomem, einval, ◌==◌, if◌then◌else◌,
}
use moocbt.Control.{Dev, Devices, Answers, Done, enoent, tracer_alloc, setup_tracing, with_cow}
use moocbt.Control.Handlers.{verify_minor, with_dev}

-- the new device of `tracer_active_snap_to_inc`, with the fields that it copies, once its thread is there
abbrev pub inc_of : ℕ → Dev → Dev
inc_of id old = record (tracer_alloc id) {
  snapshot = false;
  active = true;
  unverified = false;
  base_dev = old.base_dev;
  cow_path = old.cow_path;
  cow = old.cow;
  cache_size = old.cache_size;
  cow_thread = true;
  hooked = old.hooked;
}

-- From the call of `__tracer_setup_tracing` on there is no way back: an error of the old thread becomes the
-- fail code of the new device, and the answer.
unfoldable pub commit_inc : Answers → ℕ → Dev → Done → Done
commit_inc a minor dev r =
    if not (r.ret == 0)
    then r
    else if not (a.flushed == 0)
    then record {
      ret = a.flushed;
      devices =
          set r.devices minor
            (some (record dev { minor = minor; hooked = true; fail_code = a.flushed }));
    }
    else r

-- `tracer_active_snap_to_inc`; an error of `cow_truncate_to_index` is only logged
unfoldable pub active_snap_to_inc : Answers → ℕ → Dev → Devices → Done
unfolding commit_inc setup_tracing tracer_alloc
active_snap_to_inc a id old ds =
    if not a.room
    then record { ret = enomem; devices = ds }
    else if not (a.cow_thread == 0)
    then record { ret = a.cow_thread; devices = ds }
    else commit_inc a old.minor (inc_of id old) (setup_tracing a old.minor (inc_of id old) ds)

-- The new device of `tracer_active_inc_to_snap` when it is put in place. The size of its cache is set from
-- its own field, which is still 0.
abbrev pub snap_of : Answers → ℕ → Dev → Dev
snap_of a id old =
    let fresh = tracer_alloc id in
    record (with_cow a fresh.cache_size fresh) {
      snapshot = true;
      active = true;
      unverified = false;
      base_dev = old.base_dev;
      cow_path = true;
      snap = true;
      cow_thread = true;
      hooked = old.hooked;
    }

-- `tracer_active_inc_to_snap`
unfoldable pub active_inc_to_snap : Answers → ℕ → Dev → Devices → Done
unfolding setup_tracing tracer_alloc
active_inc_to_snap a id old ds =
    if not a.room
    then record { ret = enomem; devices = ds }
    else if not (a.cow == 0)
    then record { ret = a.cow; devices = ds }
    else if not (a.cow_path == 0)
    then record { ret = a.cow_path; devices = ds }
    else if not (a.snap == 0)
    then record { ret = a.snap; devices = ds }
    else if not (a.cow_thread == 0)
    then record { ret = a.cow_thread; devices = ds }
    else setup_tracing a old.minor (snap_of a id old) ds

-- the checks of `ioctl_transition_inc` and `ioctl_transition_snap` before the transition; `from_snap` is the
-- mode that the device must be in
unfoldable pub checked : Bool → ℕ → Devices → (Dev → Done) → Done
unfolding verify_minor
checked from_snap minor ds go =
    let e = verify_minor 1 minor ds in
    let refuse : ℕ → Done = λ c. record { ret = c; devices = ds } in
    if not (e == 0)
    then refuse e
    else with_dev (get_elem? ds minor) (refuse enoent) (λ d.
      if not (d.fail_code == 0)
      then refuse einval
      else if (if from_snap then not d.snapshot else d.snapshot) || not d.active
      then refuse einval
      else go d)

-- `ioctl_transition_inc`
unfoldable pub ioctl_transition_inc : Answers → ℕ → ℕ → Devices → Done
unfolding checked active_snap_to_inc
ioctl_transition_inc a id minor ds = checked true minor ds (λ d. active_snap_to_inc a id d ds)

-- `ioctl_transition_snap`
unfoldable pub ioctl_transition_snap : Answers → ℕ → ℕ → Devices → Done
unfolding checked active_inc_to_snap
ioctl_transition_snap a id minor ds = checked false minor ds (λ d. active_inc_to_snap a id d ds)
