-- ===== src/Control/Teardown.antt =====
-- What the destruction of a device does to the array.
use moocbt.Common.{
  ℕ, ◌≡◌, ◌≢◌, ◌⊎◌, Bool, true, false, not, Option, none, some, set, ebusy, einval, ◌==◌,
  if◌then◌else◌,
}
use moocbt.Control.{Dev, Devices, Done, enoent}
use moocbt.Control.Handlers.{verify_slot, with_dev, gone, destroy_dev}

-- the file system of the device refuses to be frozen, and the device is traced and has not failed
abbrev pub Stuck : ℕ → Dev → Type 0
Stuck freeze d = (d.hooked ≡ true) × (freeze ≢ 0) × (freeze ≢ enoent) × (d.fail_code ≡ 0)

-- how the destruction of a device that is not busy ends
abbrev pub Destroyed : (thread freeze : ℕ) → Dev → ℕ → Devices → Option Done → Type 0
Destroyed thread freeze d minor ds none = (d.hooked ≡ true) × (d.active ≡ false) × (thread ≢ 0)
Destroyed thread freeze d minor ds (some r) =
    (r.ret ≡ 0)
    × (((r.devices ≡ set ds minor none) × ¬ Stuck freeze d)
        ⊎ ((r.devices ≡ set ds minor (some (gone d))) × Stuck freeze d))

-- the answer to a destruction, by what the array has at the minor
abbrev pub DestroyGoal :
    (thread freeze minor : ℕ) → Devices → Option (Option Dev) → Option Done → Type 0
DestroyGoal thread freeze minor ds none r = r ≡ some (record { ret = einval; devices = ds })
DestroyGoal thread freeze minor ds (some none) r = r ≡ some (record { ret = enoent; devices = ds })
DestroyGoal thread freeze minor ds (some (some d)) r =
    (d.refs ≢ 0 → r ≡ some (record { ret = ebusy; devices = ds }))
    × (d.refs ≡ 0 → d.minor ≡ minor → Destroyed thread freeze d minor ds r)

destroy_slot : Bool → ℕ → ℕ → Devices → Option (Option Dev) → Option Done
destroy_slot reset thread freeze ds o =
    if not (verify_slot 1 o == 0)
    then some (record { ret = verify_slot 1 o; devices = ds })
    else with_dev o (some (record { ret = enoent; devices = ds }))
        (λ d. destroy_dev reset thread freeze d ds)
