-- ===== src/Control/Sleep.antt =====
-- A device that falls asleep on an unmount, or wakes up on a mount, stays sound.
use moocbt.Common.{
  ℕ, ◌≡◌, ◌≢◌, refl, ap, ◌∙◌, Bool, true, false, not, ◌&&◌, ◌==◌, if◌then◌else◌, arith,
}
use moocbt.Control.{Dev}
use moocbt.Control.Setup.{nonzero}
use moocbt.Control.Sound.{IsSound}
use moocbt.Control.Mount.{set_fail, active_to_dormant, dormant_to_active}

-- once it has failed, a device may have a thread or not
failed_any :
    (i f : ℕ) (t : Bool) (d : Dev)
    → f ≢ 0
    → IsSound i d
    → IsSound i (record d { cow_thread = t; fail_code = f })
failed_any i f t d ne s = record {
  number = s.number;
  live = s.live;
  apart = s.apart;
  hooked = s.hooked;
  base_dev = s.base_dev;
  cow = s.cow;
  snap = s.snap;
  cow_thread = λ z. absurd (ne z);
}

set_fail-IsSound :
    (i e : ℕ) (t : Bool) (d : Dev)
    → e ≢ 0
    → IsSound i d
    → IsSound i (set_fail e (record d { cow_thread = t }))
unfolding set_fail
set_fail-IsSound i e t d ne s = choose (d.fail_code == 0) refl
  where
    choose :
        (c : Bool)
        → (d.fail_code == 0) ≡ c
        → IsSound i
            (if c then record d { cow_thread = t; fail_code = e } else record d { cow_thread = t })
    choose true h = failed_any i e t d ne s
    choose false h = failed_any i d.fail_code t d (λ z. ground arith) s

if-IsSound :
    (i : ℕ) (c : Bool) (x y : Dev)
    → (c ≡ true → IsSound i x)
    → (c ≡ false → IsSound i y)
    → IsSound i (if c then x else y)
if-IsSound i true x y a b = a refl
if-IsSound i false x y a b = b refl

resized : (i : ℕ) (d : Dev) → IsSound i d → IsSound i (record d { cache_size = 0 })
resized i d s = record {
  number = s.number;
  live = s.live;
  apart = s.apart;
  hooked = s.hooked;
  base_dev = s.base_dev;
  cow = s.cow;
  snap = s.snap;
  cow_thread = s.cow_thread;
}

pub active_to_dormant-IsSound :
    (i close : ℕ) (d : Dev) → IsSound i d → IsSound i (active_to_dormant close d)
unfolding active_to_dormant
active_to_dormant-IsSound i close d s =
    if-IsSound i (close == 0) _ _
      (λ _. record {
        number = s.number;
        live = s.live;
        apart = λ a. absurd (cc);
        hooked = s.hooked;
        base_dev = s.base_dev;
        cow = s.cow;
        snap = s.snap;
        cow_thread = λ _. refl;
      })
      (λ n.
        set_fail-IsSound i close false (record d { cache_size = 0 }) (λ z. ground arith)
          (resized i d s))

pub dormant_to_active-IsSound :
    (i path cow thread : ℕ) (d : Dev)
    → d.unverified ≡ false
    → IsSound i d
    → IsSound i (dormant_to_active path cow thread d)
unfolding dormant_to_active
dormant_to_active-IsSound i path cow thread d u s =
    if-IsSound i (not (path == 0)) _ _
      (λ n. set_fail-IsSound i path d.cow_thread d (nonzero path n) s)
      (λ _.
        if-IsSound i (not (cow == 0)) _ _
          (λ n. set_fail-IsSound i cow d.cow_thread d (nonzero cow n) s)
          (λ _.
            if-IsSound i (not (thread == 0)) _ _
              (λ n. set_fail-IsSound i thread d.cow_thread d (nonzero thread n) s)
              (λ _. record {
                number = s.number;
                live = s.live;
                apart = λ _. refl;
                hooked = s.hooked ∙ ap not u;
                base_dev = s.base_dev ∙ ap not u;
                cow = s.cow ∙ ap not u;
                snap = s.snap ∙ ap (λ x. d.snapshot && not x) u;
                cow_thread = λ _. refl;
              })))
