-- ===== src/Control/Switch.antt =====
-- What a transition between the modes does to the array.
use moocbt.Common.{
  ℕ, ◌≡◌, ◌≢◌, ◌⊎◌, inl, inr, refl, sym, subst, ap, ◌∙◌, set-set, Bool, true, false, not, ◌||◌,
  Option, none, some, get_elem?, set, enomem, einval, ◌==◌, if◌then◌else◌, arith,
}
use moocbt.Control.{Dev, Devices, Answers, Done, enoent, tracer_alloc, start_tracing, setup_tracing}
use moocbt.Control.Handlers.{verify_slot, verify_minor, with_dev}
use moocbt.Control.Setup.{if_post, nonzero}
use moocbt.Control.Transition.{
  inc_of, snap_of, commit_inc, active_snap_to_inc, active_inc_to_snap, checked,
  ioctl_transition_inc, ioctl_transition_snap,
}

-- the device in the other mode
pub record IsSwitched (id minor : ℕ) (to_snap : Bool) (old : Dev) (ret : ℕ) (d : Dev) : Type 0 where
  pub address : d.id ≡ id
  pub number : d.minor ≡ minor
  pub live : d.freed ≡ false
  pub snapshot : d.snapshot ≡ to_snap
  pub active : d.active ≡ true
  pub unverified : d.unverified ≡ false
  pub hooked : d.hooked ≡ true
  pub base_dev : d.base_dev ≡ old.base_dev
  pub cow : d.cow ≡ (if to_snap then true else old.cow)
  pub snap : d.snap ≡ to_snap
  pub cow_thread : d.cow_thread ≡ true
  pub fail_code : d.fail_code ≡ ret

-- the array stays, and there is an error; or the device has changed its mode
abbrev pub Moved : (id minor : ℕ) (to_snap : Bool) → Dev → Devices → Done → Type 0
Moved id minor to_snap old ds r =
    ((r.ret ≢ 0) × (r.devices ≡ ds))
    ⊎ ((d : Dev) × (r.devices ≡ set ds minor (some d)) × IsSwitched id minor to_snap old r.ret d)

refused :
    (id minor : ℕ) (to_snap : Bool) (old : Dev) (ds : Devices) (e : ℕ)
    → e ≢ 0
    → Moved id minor to_snap old ds (record { ret = e; devices = ds })
refused id minor to_snap old ds e ne = inl (ne, refl)

set_twice :
    (ds : Devices) (i : ℕ) (d e : Dev) → set (set ds i (some d)) i (some e) ≡ set ds i (some e)
set_twice ds i d e = set-set ds i (some d) (some e)

module _ (a : Answers) (id : ℕ) (old : Dev) (ds : Devices) where
  inc_committed :
      IsSwitched id old.minor false old 0
        (record (inc_of id old) { minor = old.minor; hooked = true })
  unfolding tracer_alloc
  inc_committed = record {
    address = refl;
    live = refl;
    number = refl;
    snapshot = refl;
    active = refl;
    unverified = refl;
    hooked = refl;
    base_dev = refl;
    cow = refl;
    snap = refl;
    cow_thread = refl;
    fail_code = refl;
  }

  inc_failed :
      (e : ℕ)
      → IsSwitched id old.minor false old e
          (record (inc_of id old) { minor = old.minor; hooked = true; fail_code = e })
  inc_failed e =
      let c = inc_committed in
      record {
        address = c.address;
        live = c.live;
        number = refl;
        snapshot = refl;
        active = refl;
        unverified = refl;
        hooked = refl;
        base_dev = refl;
        cow = refl;
        snap = c.snap;
        cow_thread = refl;
        fail_code = refl;
      }

  commits :
      (r : Done)
      → r ≡ record {
        ret = 0;
        devices =
            set ds old.minor (some (record (inc_of id old) { minor = old.minor; hooked = true }));
      }
      → Moved id old.minor false old ds (commit_inc a old.minor (inc_of id old) r)
  unfolding commit_inc
  commits r e =
      subst (λ s. Moved id old.minor false old ds (commit_inc a old.minor (inc_of id old) s))
        (sym e)
        (if_post (Moved id old.minor false old ds) (not (a.flushed == 0)) _ _
          (λ _. inr (_, set_twice ds old.minor _ _, inc_failed a.flushed))
          (λ _. inr (_, refl, inc_committed)))

  active_snap_to_inc-Moved : Moved id old.minor false old ds (active_snap_to_inc a id old ds)
  unfolding active_snap_to_inc setup_tracing start_tracing commit_inc
  active_snap_to_inc-Moved =
      let M = Moved id old.minor false old ds in
      if_post M (not a.room) _ _ (λ _. refused id old.minor false old ds enomem (λ z. omega arith))
        (λ _.
          if_post M (not (a.cow_thread == 0)) _ _
            (λ h. refused id old.minor false old ds a.cow_thread (nonzero _ h))
            (λ _.
              if_post (λ r. M (commit_inc a old.minor (inc_of id old) r)) (not (a.find_mrf == 0)) _
                _
                (λ h.
                  if_post M (not (a.find_mrf == 0)) _ _
                    (λ _. refused id old.minor false old ds a.find_mrf (nonzero _ h))
                    (λ z. absurd (cc)))
                (λ _.
                  if_post (λ r. M (commit_inc a old.minor (inc_of id old) r)) (a.freeze == 0) _ _
                    (λ _. commits _ refl)
                    (λ h.
                      if_post M (not (a.freeze == 0)) _ _
                        (λ n. refused id old.minor false old ds a.freeze (nonzero _ n))
                        (λ z. absurd (cc))))))

  snap_committed :
      IsSwitched id old.minor true old 0
        (record (snap_of a id old) { minor = old.minor; hooked = true })
  unfolding tracer_alloc
  snap_committed = record {
    address = refl;
    live = refl;
    number = refl;
    snapshot = refl;
    active = refl;
    unverified = refl;
    hooked = refl;
    base_dev = refl;
    cow = refl;
    snap = refl;
    cow_thread = refl;
    fail_code = refl;
  }

  -- a step that can fail
  step :
      (e : ℕ) (k : Done)
      → Moved id old.minor true old ds k
      → Moved id old.minor true old ds
          (if not (e == 0) then record { ret = e; devices = ds } else k)
  step e k m =
      if_post (Moved id old.minor true old ds) (not (e == 0)) _ _
        (λ h. refused id old.minor true old ds e (nonzero e h)) (λ _. m)

  active_inc_to_snap-Moved : Moved id old.minor true old ds (active_inc_to_snap a id old ds)
  unfolding active_inc_to_snap setup_tracing start_tracing
  active_inc_to_snap-Moved =
      let M = Moved id old.minor true old ds in
      if_post M (not a.room) _ _ (λ _. refused id old.minor true old ds enomem (λ z. omega arith))
        (λ _. step a.cow _ (
          step a.cow_path _ (
            step a.snap _ (
              step a.cow_thread _ (
                step a.find_mrf _ (
                  if_post M (a.freeze == 0) _ _ (λ _. inr (_, refl, snap_committed))
                    (λ h. refused id old.minor true old ds a.freeze (λ z. ground arith))))))))

-- what `ioctl_transition_inc` and `ioctl_transition_snap` do to the entry of the minor
abbrev pub SwitchGoal : (id minor : ℕ) (to_snap : Bool) → Devices → Done → Type 0
SwitchGoal id minor to_snap ds r =
    ((r.ret ≢ 0) × (r.devices ≡ ds))
    ⊎ ((old : Dev) × (get_elem? ds minor ≡ some (some old))
        × (old.refs ≡ 0)
        × (old.fail_code ≡ 0)
        × (old.active ≡ true)
        × (old.snapshot ≡ not to_snap)
        × (d : Dev) × (r.devices ≡ set ds minor (some d))
        × IsSwitched id minor to_snap old r.ret d)

-- each device of the array knows its minor
abbrev pub Numbered : Devices → Type 0
Numbered ds = (i : ℕ) (d : Dev) → get_elem? ds i ≡ some (some d) → d.minor ≡ i

module _ (id minor : ℕ) (to_snap : Bool) (ds : Devices) (go : Dev → Done) where
  moved :
      (old : Dev) (r : Done)
      → get_elem? ds minor ≡ some (some old)
      → old.minor ≡ minor
      → old.refs ≡ 0
      → old.fail_code ≡ 0
      → old.active ≡ true
      → old.snapshot ≡ not to_snap
      → Moved id old.minor to_snap old ds r
      → SwitchGoal id minor to_snap ds r
  moved old r g m b f c s (inl x) = inl x
  moved old r g m b f c s (inr (d, e, i)) = inr (
    old,
    g,
    b,
    f,
    c,
    s,
    d,
    e ∙ ap (λ n. set ds n (some d)) m,
    subst (λ n. IsSwitched id n to_snap old r.ret d) m i,
  )

  checked_slot : Option (Option Dev) → Done
  checked_slot o =
      if not (verify_slot 1 o == 0)
      then record { ret = verify_slot 1 o; devices = ds }
      else with_dev o (record { ret = enoent; devices = ds })
          (λ d.
            if not (d.fail_code == 0)
            then record { ret = einval; devices = ds }
            else if (if not to_snap then not d.snapshot else d.snapshot) || not d.active
            then record { ret = einval; devices = ds }
            else go d)

  checked_slot-SwitchGoal :
      (o : Option (Option Dev))
      → get_elem? ds minor ≡ o
      → ((old : Dev)
          → o ≡ some (some old)
          → (old.minor ≡ minor) × Moved id old.minor to_snap old ds (go old))
      → SwitchGoal id minor to_snap ds (checked_slot o)
  unfolding checked_slot verify_slot
  checked_slot-SwitchGoal none g h = inl ((λ z. omega arith), refl)
  checked_slot-SwitchGoal (some none) g h = inl ((λ z. omega arith), refl)
  checked_slot-SwitchGoal (some (some d)) g h =
      let G = SwitchGoal id minor to_snap ds in
      let (m, k) = h d refl in
      if_post G (not (verify_slot 1 (some (some d)) == 0)) _ _ (λ n. inl (nonzero _ n, refl))
        (λ idle.
          if_post G (not (d.fail_code == 0)) _ _ (λ _. inl ((λ z. omega arith), refl))
            (λ healthy.
              if_post G ((if not to_snap then not d.snapshot else d.snapshot) || not d.active) _ _
                (λ _. inl ((λ z. omega arith), refl))
                (λ ready.
                  moved d (go d) g m (ground arith) (ground arith) (ground arith) (ground arith)
                    k)))

-- On an array whose devices know their minors, a transition either answers an error and leaves the array, or
-- the device at the minor was traced in the other mode, not open and not failed, and the entry then
-- holds a traced device in the new mode with the same base device; it has the fail code that is
-- answered, which is 0 but for an error of the old thread on the way to incremental mode.
pub ioctl_transition-SwitchGoal :
    (a : Answers) (id minor : ℕ) (ds : Devices)
    → Numbered ds
    → SwitchGoal id minor false ds (ioctl_transition_inc a id minor ds)
      × SwitchGoal id minor true ds (ioctl_transition_snap a id minor ds)
unfolding ioctl_transition_inc ioctl_transition_snap checked verify_minor checked_slot
ioctl_transition-SwitchGoal a id minor ds n = (
  checked_slot-SwitchGoal id minor false ds (λ d. active_snap_to_inc a id d ds) (get_elem? ds minor)
      refl (λ old g. (n minor old g, active_snap_to_inc-Moved a id old ds)),
  checked_slot-SwitchGoal id minor true ds (λ d. active_inc_to_snap a id d ds) (get_elem? ds minor)
      refl (λ old g. (n minor old g, active_inc_to_snap-Moved a id old ds)),
)
