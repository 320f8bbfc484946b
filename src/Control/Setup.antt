-- ===== src/Control/Setup.antt =====
-- What the setup of a device does to the array.
use moocbt.Common.{
  ℕ, ◌≡◌, ◌≢◌, refl, Bool, true, false, not, none, some, get_elem?, set, ◌==◌, if◌then◌else◌, arith,
}
use moocbt.Control.{Dev, Devices, Done}

-- no device of the array has this address
abbrev pub Fresh : ℕ → Devices → Type 0
Fresh id ds = (i : ℕ) (d : Dev) → get_elem? ds i ≡ some (some d) → d.id ≢ id

-- a device that was set up: traced if its file system is mounted, else to be verified when it is
pub record IsSetUp (id minor : ℕ) (is_snap is_mounted : Bool) (d : Dev) : Type 0 where
  pub address : d.id ≡ id
  pub number : d.minor ≡ minor
  pub snapshot : d.snapshot ≡ is_snap
  pub active : d.active ≡ is_mounted
  pub unverified : d.unverified ≡ not is_mounted
  pub healthy : d.fail_code ≡ 0
  pub live : d.freed ≡ false
  pub hooked : d.hooked ≡ is_mounted
  pub base_dev : d.base_dev ≡ is_mounted
  pub cow : d.cow ≡ is_mounted
  pub snap : d.snap ≡ is_mounted
  pub cow_thread : d.cow_thread ≡ is_mounted

-- a failure leaves the array as it was; a success fills the entry, which was free
abbrev pub AllOrNothing : (id minor : ℕ) (is_snap is_mounted : Bool) → Devices → Done → Type 0
AllOrNothing id minor is_snap is_mounted ds r =
    (r.ret ≢ 0 → r.devices ≡ ds)
    × (r.ret ≡ 0
        → (d : Dev) × (r.devices ≡ set ds minor (some d)) × IsSetUp id minor is_snap is_mounted d)

pub if_post :
    (P : Done → Type 0) (c : Bool) (x y : Done)
    → (c ≡ true → P x)
    → (c ≡ false → P y)
    → P (if c then x else y)
if_post P true x y a b = a refl
if_post P false x y a b = b refl

pub nonzero : (e : ℕ) → not (e == 0) ≡ true → e ≢ 0
nonzero e h z = ground arith

module _ (id minor : ℕ) (is_snap is_mounted : Bool) (ds : Devices) (fresh : Fresh id ds) where
  abbrev P : Done → Type 0
  P r = AllOrNothing id minor is_snap is_mounted ds r

-- what holds of the result of `__ioctl_setup`
abbrev pub SetupGoal :
    (id minor : ℕ) (is_snap is_mounted is_reload : Bool) → Devices → Done → Type 0
SetupGoal id minor is_snap is_mounted is_reload ds r =
    AllOrNothing id minor is_snap is_mounted ds r
    × (r.ret ≡ 0
        → (get_elem? ds minor ≡ some none)
          × (is_reload ≡ not is_mounted)
          × (is_mounted ≡ true → is_snap ≡ true))
