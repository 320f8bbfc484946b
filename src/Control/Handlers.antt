-- ===== src/Control/Handlers.antt =====
-- The handlers of src/ioctl_handlers.c that check a minor, set up, destroy and reconfigure a device, and look for a
-- free minor.
use moocbt.Common.{
  ℕ, ◌+◌, Bool, true, false, not, ◌&&◌, [], ◌∷◌, Option, none, some, get_elem?, set, enomem, ebusy,
  einval, ◌==◌, if◌then◌else◌,
}
use moocbt.Control.{
  enoent, Dev, Devices, Answers, Done, tracer_alloc, update_held, cleared, tracer_destroy,
  flush_dormant, setup_active_snap, setup_unverified,
}

-- `__verify_minor`: 0 for a minor that is free, 1 for one in use and not busy, 2 for one in use
unfoldable pub verify_slot : ℕ → Option (Option Dev) → ℕ
verify_slot mode none = einval
verify_slot mode (some none) = if mode == 0 then 0 else enoent
verify_slot mode (some (some d)) =
    if mode == 0 then ebusy else if mode == 1 && not (d.refs == 0) then ebusy else 0

unfoldable pub verify_minor : ℕ → ℕ → Devices → ℕ
unfolding verify_slot
verify_minor mode minor ds = verify_slot mode (get_elem? ds minor)

-- `__ioctl_setup`, with the answer of `__verify_bdev_writable` and whether the device is mounted
unfoldable pub ioctl_setup : Answers → ℕ → Bool → ℕ → ℕ → ℕ → Bool → Bool → Devices → Done
unfolding verify_minor tracer_alloc setup_active_snap setup_unverified
ioctl_setup a writable is_mounted id minor cache_size is_snap is_reload ds =
    let refuse : ℕ → Done = λ e. record { ret = e; devices = ds } in
    if not (verify_minor 0 minor ds == 0)
    then refuse (verify_minor 0 minor ds)
    else if not (writable == 0)
    then refuse writable
    else if is_mounted && is_reload
    then refuse einval
    else if not is_mounted && not is_reload
    then refuse einval
    else if not a.room
    then refuse enomem
    else if is_snap
    then (if is_mounted
        then setup_active_snap a minor cache_size (tracer_alloc id) ds
        else setup_unverified a true minor cache_size (tracer_alloc id) ds)
    else if not is_mounted
    then setup_unverified a false minor cache_size (tracer_alloc id) ds
    else refuse einval

abbrev pub with_dev : {A : Type 0} → Option (Option Dev) → A → (Dev → A) → A
with_dev none r f = r
with_dev (some none) r f = r
with_dev (some (some d)) r f = f d

-- the device after `kfree`
abbrev pub gone : Dev → Dev
gone d = record (cleared d) { freed = true }

-- `tracer_destroy` with the flush of a dormant device, and `kfree` in `ioctl_destroy`; `none` is a fault
unfoldable pub destroy_dev : Bool → ℕ → ℕ → Dev → Devices → Option Done
unfolding tracer_destroy flush_dormant update_held
destroy_dev reset thread freeze d ds =
    if flush_dormant reset thread d
    then none
    else some
        (record { ret = 0; devices = update_held d.minor (gone d) (tracer_destroy freeze d ds) })

-- `ioctl_destroy`
unfoldable pub ioctl_destroy : Bool → ℕ → ℕ → ℕ → Devices → Option Done
unfolding verify_minor destroy_dev
ioctl_destroy reset thread freeze minor ds =
    let e = verify_minor 1 minor ds in
    if not (e == 0)
    then some (record { ret = e; devices = ds })
    else with_dev (get_elem? ds minor) (some (record { ret = enoent; devices = ds }))
        (λ d. destroy_dev reset thread freeze d ds)

-- the loop of `get_free_minor`
unfoldable pub free_from : ℕ → Devices → Option ℕ
free_from i [] = none
free_from i (none ∷ ds) = some i
free_from i (some d ∷ ds) = free_from (i + 1) ds

-- `get_free_minor`, of which `none` is `-ENOENT`
unfoldable pub get_free_minor : Devices → Option ℕ
unfolding free_from
get_free_minor ds = free_from 0 ds

-- `ioctl_reconfigure`; `tracer_reconfigure` sets the field, and the cow manager's cache from it
unfoldable pub ioctl_reconfigure : ℕ → ℕ → Devices → Done
unfolding verify_minor
ioctl_reconfigure minor cache_size ds =
    let e = verify_minor 1 minor ds in
    if not (e == 0)
    then record { ret = e; devices = ds }
    else with_dev (get_elem? ds minor) (record { ret = enoent; devices = ds })
        (λ d. if not (d.fail_code == 0) then record { ret = einval; devices = ds } else record {
          ret = 0;
          devices = set ds minor (some (record d { cache_size = cache_size }));
        })
