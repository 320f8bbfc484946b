-- ===== src/Control/Tests.antt =====
-- The control interface at an array of three entries.
use moocbt.Common.{zero, suc, ◌≡◌, refl, subst, true, false, [], ◌∷◌, none, some, set, ◌==◌}
use moocbt.Control.{
  Dev, Devices, Answers, tracer_destroy, destroy_tracing, stop_tracing, update_held, flush_dormant,
}
use moocbt.Control.Handlers.{
  verify_minor, verify_slot, gone, destroy_dev, ioctl_setup, ioctl_destroy, get_free_minor,
  free_from,
}
use moocbt.Control.Free.{LeastFree, get_free_minor-LeastFree}
use moocbt.Control.Transition.{ioctl_transition_inc, ioctl_transition_snap}
use moocbt.Control.Switch.{Numbered, SwitchGoal, ioctl_transition-SwitchGoal}
use moocbt.Control.Mount.{mount_nowrite}
use moocbt.Control.Sound.{IsSound, AllSound}
use moocbt.Control.Reach.{Reach}

abbrev good : Answers
good = record {
  room = true;
  base_dev = 0;
  cow = 0;
  cow_path = 0;
  snap = 0;
  cow_thread = 0;
  find_mrf = 0;
  freeze = 0;
  bdev_dup = true;
  cow_dup = true;
  flushed = 0;
  mrf_get = 0;
  max_memory_default = 300;
}

-- a traced snapshot
abbrev traced : Dev
traced = record {
  id = 77;
  minor = 0;
  snapshot = true;
  active = true;
  unverified = false;
  fail_code = 0;
  refs = 0;
  cache_size = 300;
  base_dev = true;
  cow = true;
  cow_path = true;
  snap = true;
  cow_thread = true;
  hooked = true;
  freed = false;
}

abbrev array : Devices
array = some traced ∷ none ∷ none ∷ []

array-AllSound : AllSound array
array-AllSound zero d e =
    let h : traced ≡ d = cc in
    subst (IsSound 0) h (record {
      number = refl;
      live = refl;
      apart = λ _. refl;
      hooked = refl;
      base_dev = refl;
      cow = refl;
      snap = refl;
      cow_thread = λ _. refl;
    })
array-AllSound (suc zero) d e = absurd (cc)
array-AllSound (suc (suc zero)) d e = absurd (cc)
array-AllSound (suc (suc (suc i))) d e = absurd (cc)

array-Numbered : Numbered array
array-Numbered i d e = (array-AllSound i d e).number

-- with a file system that refuses to be frozen, the array is left pointing to the device
left_dangling :
    ioctl_destroy true 0 16 0 array
    ≡ some (record { ret = 0; devices = some (gone traced) ∷ none ∷ none ∷ [] })
unfolding ioctl_destroy verify_minor verify_slot destroy_dev tracer_destroy destroy_tracing
    stop_tracing update_held flush_dormant
left_dangling = refl

get_free_minor-LeastFree_example : LeastFree array (get_free_minor array)
get_free_minor-LeastFree_example = get_free_minor-LeastFree array

second_is_free : get_free_minor array ≡ some 1
unfolding get_free_minor free_from
second_is_free = refl

ioctl_transition-SwitchGoal_example :
    SwitchGoal 78 0 false array (ioctl_transition_inc good 78 0 array)
    × SwitchGoal 78 0 true array (ioctl_transition_snap good 78 0 array)
ioctl_transition-SwitchGoal_example = ioctl_transition-SwitchGoal good 78 0 array array-Numbered

-- the destruction and an unmount after a setup
abbrev set_up : Devices
set_up = (ioctl_setup good 0 true 78 2 0 true false array).devices

abbrev destroyed : Devices
destroyed = set set_up 0 none

abbrev later : Devices
later = (mount_nowrite (λ d. d.id == 78) 0 destroyed).devices
