-- ===== src/Control/Reach.antt =====
-- What holds of the array after any sequence of commands.
use moocbt.Common.{ℕ, ◌≡◌, Bool, not, Option, some, get_elem?, set, einval, ◌==◌, if◌then◌else◌}
use moocbt.Control.{Dev, Devices, Answers, Done, enoent}
use moocbt.Control.Handlers.{ioctl_setup, ioctl_destroy, ioctl_reconfigure, verify_slot, with_dev}
use moocbt.Control.Setup.{Fresh}
use moocbt.Control.Teardown.{Stuck}
use moocbt.Control.Transition.{ioctl_transition_inc, ioctl_transition_snap}
use moocbt.Control.Mount.{mount_nowrite, mount_writable}

-- A command of the control device, an unmount or a mount of a device, or another change of one: it is opened
-- or closed, or fails. A destruction here is one that comes to an end, and not of a stuck device: one that is
-- traced and has not failed, and of which the file system refuses to be frozen.
pub data Event (ds : Devices) : Done → Type 0 where
  setup :
      (a : Answers) (writable : ℕ) (is_mounted : Bool) (id minor cache_size : ℕ)
      (is_snap is_reload : Bool)
      → Fresh id ds
      → Event ds (ioctl_setup a writable is_mounted id minor cache_size is_snap is_reload ds)
  destroy :
      (reset : Bool) (thread freeze minor : ℕ) {r : Done}
      → ioctl_destroy reset thread freeze minor ds ≡ some r
      → ((d : Dev) → get_elem? ds minor ≡ some (some d) → ¬ Stuck freeze d)
      → Event ds r
  transition_inc : (a : Answers) (id minor : ℕ) → Event ds (ioctl_transition_inc a id minor ds)
  transition_snap : (a : Answers) (id minor : ℕ) → Event ds (ioctl_transition_snap a id minor ds)
  reconfigure : (minor cache_size : ℕ) → Event ds (ioctl_reconfigure minor cache_size ds)
  unmounts :
      (is_mounted_here : Dev → Bool) (close : ℕ) → Event ds (mount_nowrite is_mounted_here close ds)
  mounts :
      (is_its_device : Dev → Bool) (a again : Answers) (path : ℕ)
      → Event ds (mount_writable is_its_device a again path ds)
  changes :
      (minor refs fail_code : ℕ) (d : Dev)
      → get_elem? ds minor ≡ some (some d)
      → (fail_code ≡ 0 → d.fail_code ≡ 0)
      → Event ds (record {
        ret = 0;
        devices = set ds minor (some (record d { refs = refs; fail_code = fail_code }));
      })

pub data Reach (ds : Devices) : Devices → Type 0 where
  start : Reach ds ds
  next : {es : Devices} {r : Done} → Reach ds es → Event es r → Reach ds r.devices

reconfigure_slot : ℕ → ℕ → Devices → Option (Option Dev) → Done
reconfigure_slot minor cache_size ds o =
    if not (verify_slot 1 o == 0)
    then record { ret = verify_slot 1 o; devices = ds }
    else with_dev o (record { ret = enoent; devices = ds })
        (λ d. if not (d.fail_code == 0) then record { ret = einval; devices = ds } else record {
          ret = 0;
          devices = set ds minor (some (record d { cache_size = cache_size }));
        })
