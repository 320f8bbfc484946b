-- ===== src/Control.antt =====
-- The control interface (src/ioctl_handlers.c) on the array of devices, with the setup, the transitions and
-- the destruction of a device in src/tracer.c, for kernels on which submissions are hooked.
pub mod Handlers
pub mod Setup
pub mod Teardown
pub mod Free
pub mod Transition
pub mod Switch
pub mod Sound
pub mod Mount
pub mod Sleep
pub mod Mounted
pub mod Reach
mod Tests
use moocbt.Common.{
  ℕ, zero, suc, ◌+◌, ◌<◌, Bool, true, false, not, ◌&&◌, ◌||◌, List, [], ◌∷◌, Option, none, some,
  length, get_elem?, set, enomem, ebusy, einval, ltb, leb, ◌==◌, if◌then◌else◌,
}

abbrev pub enoent : ℕ
enoent = 2

-- The fields of `struct snap_device` that the control interface reads or that hold a resource: `id` is its
-- address, the pointers are whether they are set, `hooked` is `sd_orig_request_fn`, and `freed` is whether
-- the memory was given back to the kernel while the array still points to it.
pub record Dev : Type 0 where
  pub id : ℕ
  pub minor : ℕ
  pub snapshot : Bool
  pub active : Bool
  pub unverified : Bool
  pub fail_code : ℕ
  pub refs : ℕ
  pub cache_size : ℕ
  pub base_dev : Bool
  pub cow : Bool
  pub cow_path : Bool
  pub snap : Bool
  pub cow_thread : Bool
  pub hooked : Bool
  pub freed : Bool

abbrev pub Devices : Type 0
Devices = List (Option Dev)

-- what the functions that a handler calls answer, as an errno or 0: opening the base device, setting up the
-- cow manager, its path, the snapshot's disk and the thread, keeping and finding the function to hook, and freezing
-- the file system; `room` is whether memory is there, `flushed` the error of the old thread's last work;
-- `max_memory_default` is the parameter `moocbt_cow_max_memory_default` of the module
pub record Answers : Type 0 where
  pub room : Bool
  pub base_dev : ℕ
  pub cow : ℕ
  pub cow_path : ℕ
  pub snap : ℕ
  pub cow_thread : ℕ
  pub find_mrf : ℕ
  pub freeze : ℕ
  pub bdev_dup : Bool
  pub cow_dup : Bool
  pub flushed : ℕ
  pub mrf_get : ℕ
  pub max_memory_default : ℕ

-- the return value, with the minus sign left out, and the array
pub record Done : Type 0 where
  pub ret : ℕ
  pub devices : Devices

-- `tracer_alloc`
unfoldable pub tracer_alloc : ℕ → Dev
tracer_alloc id = record {
  id = id;
  minor = 0;
  snapshot = false;
  active = false;
  unverified = false;
  fail_code = 0;
  refs = 0;
  cache_size = 0;
  base_dev = false;
  cow = false;
  cow_path = false;
  snap = false;
  cow_thread = false;
  hooked = false;
  freed = false;
}

-- `__tracer_transition_tracing`: nothing is done if the freeze fails, but for a stop on a device that is not
-- mounted or has failed
unfoldable pub start_tracing : ℕ → Dev → ℕ → Devices → Done
start_tracing freeze d i ds =
    if freeze == 0
    then record { ret = 0; devices = set ds i (some d) }
    else record { ret = freeze; devices = ds }

unfoldable pub stop_tracing : ℕ → Dev → ℕ → Devices → Devices
stop_tracing freeze d i ds =
    if not (freeze == 0) && (not (freeze == enoent) && d.fail_code == 0) then ds else set ds i none

abbrev pub holds_id : ℕ → Option (Option Dev) → Bool
holds_id id none = false
holds_id id (some none) = false
holds_id id (some (some d)) = d.id == id

-- The fields of a device are now those of `d`: the entry shows them if it still points to the device.
unfoldable pub update_held : ℕ → Dev → Devices → Devices
update_held i d ds = if holds_id d.id (get_elem? ds i) then set ds i (some d) else ds

-- what `__tracer_destroy_tracing` leaves of a device: its function is freed, its minor reset
abbrev pub untraced : Dev → Dev
untraced d = record d { minor = 0; hooked = false }

-- what `tracer_destroy` leaves of a device; `__tracer_destroy_cow` resets the cache size
abbrev pub cleared : Dev → Dev
cleared d = record d {
  minor = 0;
  cache_size = 0;
  base_dev = false;
  cow = false;
  cow_path = false;
  snap = false;
  cow_thread = false;
  hooked = false;
}

-- `__tracer_destroy_tracing` once the bios of a dormant device are flushed (`flush_dormant`): the result of
-- `__tracer_transition_tracing` is ignored, so the device may stay in the array. A device without a hook
-- has nothing to flush.
unfoldable pub destroy_tracing : ℕ → Dev → Devices → Devices
unfolding stop_tracing update_held
destroy_tracing freeze d ds =
    if d.hooked
    then update_held d.minor (untraced d) (stop_tracing freeze d d.minor ds)
    else if holds_id d.id (get_elem? ds d.minor)
    then set ds d.minor none
    else ds

-- `tracer_destroy` after the flush: the resources are torn down however the tracing has ended
unfoldable pub tracer_destroy : ℕ → Dev → Devices → Devices
unfolding destroy_tracing update_held
tracer_destroy freeze d ds = update_held d.minor (cleared d) (destroy_tracing freeze d ds)

-- The flush of a dormant device in `__tracer_destroy_tracing`: whether it runs into a fault. `reset` is the
-- answer of `__tracer_should_reset_mrf`, `thread` the error of setting up the cow thread, which then
-- leaves NULL for `wake_up_process`; a thread that is set up is destroyed again.
unfoldable pub flush_dormant : Bool → ℕ → Dev → Bool
flush_dormant reset thread d = d.hooked && (reset && (not d.active && not (thread == 0)))

-- `__tracer_setup_tracing`
unfoldable pub setup_tracing : Answers → ℕ → Dev → Devices → Done
unfolding start_tracing
setup_tracing a minor d ds =
    if not (a.find_mrf == 0)
    then record { ret = a.find_mrf; devices = ds }
    else start_tracing a.freeze (record d { minor = minor; hooked = true }) minor ds

-- the error path of a setup: `tracer_destroy` on a device that is not traced
unfoldable pub give_up : ℕ → ℕ → Dev → Devices → Done
unfolding tracer_destroy
give_up freeze ret d ds = record { ret = ret; devices = tracer_destroy freeze d ds }

-- the last step of a setup, after which nothing can fail
unfoldable pub trace_or_give_up : Answers → ℕ → Dev → Devices → Done
unfolding setup_tracing give_up
trace_or_give_up a minor d ds =
    let r = setup_tracing a minor d ds in
    if not (r.ret == 0) then give_up a.freeze r.ret d r.devices else r

-- the state of the device after each step of `tracer_setup_active_snap`
abbrev pub began : Dev → Dev
began d = record d { snapshot = true; active = true; unverified = false }

abbrev pub with_base : Dev → Dev
with_base d = record d { base_dev = true }

abbrev pub with_cow : Answers → ℕ → Dev → Dev
with_cow a cache_size d = record d {
  cow = true;
  cache_size = if cache_size == 0 then a.max_memory_default else cache_size;
}

abbrev pub with_path : Dev → Dev
with_path d = record d { cow_path = true }

abbrev pub with_snap : Dev → Dev
with_snap d = record d { snap = true }

abbrev pub with_thread : Dev → Dev
with_thread d = record d { cow_thread = true }

-- `tracer_setup_active_snap`
unfoldable pub setup_active_snap : Answers → ℕ → ℕ → Dev → Devices → Done
unfolding give_up trace_or_give_up
setup_active_snap a minor cache_size d0 ds =
    let d1 = began d0 in
    let d2 = with_base d1 in
    let d3 = with_cow a cache_size d2 in
    let d4 = with_path d3 in
    let d5 = with_snap d4 in
    let d6 = with_thread d5 in
    if not (a.base_dev == 0)
    then give_up a.freeze a.base_dev d1 ds
    else if not (a.cow == 0)
    then give_up a.freeze a.cow d2 ds
    else if not (a.cow_path == 0)
    then give_up a.freeze a.cow_path d3 ds
    else if not (a.mrf_get == 0)
    then give_up a.freeze a.mrf_get d4 ds
    else if not (a.snap == 0)
    then give_up a.freeze a.snap d4 ds
    else if not (a.cow_thread == 0)
    then give_up a.freeze a.cow_thread d5 ds
    else trace_or_give_up a minor d6 ds

abbrev pub began_unverified : Bool → ℕ → Dev → Dev
began_unverified is_snap cache_size d = record d {
  snapshot = is_snap;
  active = false;
  unverified = true;
  cache_size = cache_size;
}

-- `__tracer_setup_unverified`
unfoldable pub setup_unverified : Answers → Bool → ℕ → ℕ → Dev → Devices → Done
unfolding give_up
setup_unverified a is_snap minor cache_size d0 ds =
    let d1 = began_unverified is_snap cache_size d0 in
    if not (a.bdev_dup && a.cow_dup) then give_up a.freeze enomem d1 ds else record {
      ret = 0;
      devices = set ds minor (some (record d1 { minor = minor; cow_path = true }));
    }
