-- ===== src/Control/Mounted.antt =====
-- Mounting and unmounting keep the devices sound.
use moocbt.Common.{
  ℕ, zero, suc, set, Bool-cases, inl, inr, if_of_true, if_of_false, ◌+◌, ◌≡◌, refl, sym, subst, ap,
  ◌∙◌, Bool, true, false, not, ◌&&◌, [], ◌∷◌, Option, none, some, get_elem?, ◌==◌, if◌then◌else◌,
  arith,
}
use moocbt.Control.{
  Dev, Devices, Answers, Done, start_tracing, setup_tracing, setup_unverified, began_unverified,
  give_up, cleared, update_held, tracer_destroy, destroy_tracing, holds_id,
}
use moocbt.Control.Setup.{if_post}
use moocbt.Control.Sound.{IsSound, AllSound, AllSound-set, AllSound-clear}
use moocbt.Control.Mount.{
  set_fail, back_to_unverified, verified, verify_or_back, unverified_to_active,
  auto_transition_active, first_match, on_match, mount_nowrite, mount_writable,
}
use moocbt.Control.Sleep.{active_to_dormant-IsSound, dormant_to_active-IsSound}

if-AllSound : (c : Bool) (x y : Devices) → AllSound x → AllSound y → AllSound (if c then x else y)
if-AllSound true x y a b = a
if-AllSound false x y a b = b

test-AllSound :
    (c : Bool) (x y : Devices)
    → (c ≡ true → AllSound x)
    → (c ≡ false → AllSound y)
    → AllSound (if c then x else y)
test-AllSound true x y a b = a refl
test-AllSound false x y a b = b refl

not_held_clear : (id : ℕ) (ds : Devices) (i : ℕ) → holds_id id (get_elem? (set ds i none) i) ≡ false
not_held_clear id [] i = refl
not_held_clear id (x ∷ ds) zero = refl
not_held_clear id (x ∷ ds) (suc i) = not_held_clear id ds i

-- the destruction of a device that is not hooked empties at most an entry
destroy_tracing-AllSound :
    (freeze : ℕ) (d : Dev) (ds : Devices)
    → d.hooked ≡ false
    → AllSound ds
    → AllSound (destroy_tracing freeze d ds)
unfolding destroy_tracing
destroy_tracing-AllSound freeze d ds h all =
    test-AllSound d.hooked _ _ (λ t. absurd (cc))
      (λ _.
        if-AllSound (holds_id d.id (get_elem? ds d.minor)) _ _ (AllSound-clear ds d.minor all) all)

tracer_destroy-AllSound :
    (freeze : ℕ) (d : Dev) (ds : Devices)
    → d.hooked ≡ false
    → AllSound ds
    → AllSound (tracer_destroy freeze d ds)
unfolding tracer_destroy destroy_tracing update_held
tracer_destroy-AllSound freeze d ds h all =
    subst AllSound (sym same) (destroy_tracing-AllSound freeze d ds h all)
  where
    same : tracer_destroy freeze d ds ≡ destroy_tracing freeze d ds
    same = elim (Bool-cases (holds_id d.id (get_elem? ds d.minor))) [
      | inl b ↦
          let e : destroy_tracing freeze d ds ≡ set ds d.minor none =
            if_of_false _ _ d.hooked h ∙ if_of_true _ _ _ b in
          rw (e) (if_of_false _ _ _ (not_held_clear d.id ds d.minor))
      | inr b ↦
          let e : destroy_tracing freeze d ds ≡ ds =
            if_of_false _ _ d.hooked h ∙ if_of_false _ _ _ b in
          rw (e) (if_of_false _ _ _ b)
    ]

-- an unverified device holds nothing
bare-IsSound :
    (minor cache_size : ℕ) (is_snap : Bool) (x : Dev)
    → x.freed ≡ false
    → x.hooked ≡ false
    → x.base_dev ≡ false
    → x.cow ≡ false
    → x.snap ≡ false
    → x.cow_thread ≡ false
    → IsSound minor
        (record (began_unverified is_snap cache_size x) { minor = minor; cow_path = true })
bare-IsSound minor cache_size is_snap x l h b c s t = record {
  number = refl;
  live = l;
  apart = λ a. absurd (cc);
  hooked = h;
  base_dev = b;
  cow = c;
  snap = s ∙ sym (and_false is_snap);
  cow_thread = λ _. t;
}
  where
    and_false : (b : Bool) → (b && false) ≡ false
    and_false true = refl
    and_false false = refl

setup_unverified-AllSound :
    (a : Answers) (is_snap : Bool) (minor cache_size : ℕ) (x : Dev) (ds : Devices)
    → IsSound minor
        (record (began_unverified is_snap cache_size x) { minor = minor; cow_path = true })
    → AllSound ds
    → AllSound (setup_unverified a is_snap minor cache_size x ds).devices
unfolding setup_unverified give_up
setup_unverified-AllSound a is_snap minor cache_size x ds s all =
    if_post (λ r. AllSound r.devices) (not (a.bdev_dup && a.cow_dup)) _ _
      (λ _.
        tracer_destroy-AllSound a.freeze (began_unverified is_snap cache_size x) ds s.hooked all)
      (λ _. AllSound-set ds minor _ all s)

back_to_unverified-AllSound :
    (again : Answers) (e minor : ℕ) (d : Dev) (ds : Devices)
    → d.freed ≡ false
    → AllSound ds
    → AllSound (back_to_unverified again e minor d ds)
unfolding back_to_unverified set_fail
back_to_unverified-AllSound again e minor d ds live all =
    setup_unverified-AllSound again d.snapshot minor d.cache_size (set_fail e (cleared d)) ds
      (bare (d.fail_code == 0)) all
  where
    bare :
        (c : Bool)
        → IsSound minor
            (record (began_unverified d.snapshot d.cache_size
              (if c then record (cleared d) { fail_code = e } else cleared d)) {
                minor = minor;
                cow_path = true;
              })
    bare true =
        bare-IsSound minor d.cache_size d.snapshot (record (cleared d) { fail_code = e }) live refl
          refl refl refl refl
    bare false =
        bare-IsSound minor d.cache_size d.snapshot (cleared d) live refl refl refl refl refl

verified-IsSound :
    (a : Answers) (minor : ℕ) (d : Dev)
    → d.freed ≡ false
    → IsSound minor (record (verified a d) { minor = minor; hooked = true })
verified-IsSound a minor d live = record {
  number = refl;
  live = live;
  apart = λ _. refl;
  hooked = refl;
  base_dev = refl;
  cow = refl;
  snap = sym (and_true d.snapshot);
  cow_thread = λ _. refl;
}
  where
    and_true : (b : Bool) → (b && true) ≡ b
    and_true true = refl
    and_true false = refl

module _ (a again : Answers) (d : Dev) (ds : Devices) (live : d.freed ≡ false)
    (all : AllSound ds) where
  back : (e : ℕ) → AllSound (back_to_unverified again e d.minor d ds)
  back e = back_to_unverified-AllSound again e d.minor d ds live all

  last-AllSound :
      AllSound (verify_or_back again d.minor d ds (setup_tracing a d.minor (verified a d) ds))
  unfolding verify_or_back setup_tracing start_tracing
  last-AllSound =
      let P = λ (r : Done).
        AllSound
          (if r.ret == 0 then r.devices else back_to_unverified again r.ret d.minor d r.devices) in
      if_post P (not (a.find_mrf == 0)) _ _
        (λ _. if-AllSound (a.find_mrf == 0) _ _ all (back a.find_mrf))
        (λ _.
          if_post P (a.freeze == 0) _ _
            (λ _. AllSound-set ds d.minor _ all (verified-IsSound a d.minor d live))
            (λ _. if-AllSound (a.freeze == 0) _ _ all (back a.freeze)))

unverified_to_active-AllSound :
    (a again : Answers) (path : ℕ) (d : Dev) (ds : Devices)
    → d.freed ≡ false
    → d.hooked ≡ false
    → AllSound ds
    → AllSound (unverified_to_active a again path d ds)
unfolding unverified_to_active
unverified_to_active-AllSound a again path d ds live h all =
    let all1 = destroy_tracing-AllSound a.freeze d ds h all in
    let b = back a again d (destroy_tracing a.freeze d ds) live all1 in
    if-AllSound (not (a.base_dev == 0)) _ _ (b a.base_dev) (
      if-AllSound (not (path == 0)) _ _ (b path) (
        if-AllSound (not (a.cow == 0)) _ _ (b a.cow) (
          if-AllSound (not (a.cow_path == 0)) _ _ (b a.cow_path) (
            if-AllSound (not (a.mrf_get == 0)) _ _ (b a.mrf_get) (
              if-AllSound (d.snapshot && not (a.snap == 0)) _ _ (b a.snap) (
                if-AllSound (not (a.cow_thread == 0)) _ _ (b a.cow_thread)
                  (last-AllSound a again d (destroy_tracing a.freeze d ds) live all1)))))))

-- a device that a loop finds is in the array
Found : ℕ → Devices → Option (ℕ × Dev) → Type 0
Found i ds none = Unit
Found i ds (some (k, d)) = (j : ℕ) × (k ≡ i + j) × (get_elem? ds j ≡ some (some d))

Found-cons :
    (i : ℕ) (x : Option Dev) (ds : Devices) (o : Option (ℕ × Dev))
    → Found (i + 1) ds o
    → Found i (x ∷ ds) o
unfolding Found
Found-cons i x ds none f = tt
Found-cons i x ds (some (k, d)) (j, e, g) = (suc j, e ∙ omega arith, g)

if-Found :
    (i : ℕ) (ds : Devices) (c : Bool) (o o' : Option (ℕ × Dev))
    → Found i ds o
    → Found i ds o'
    → Found i ds (if c then o else o')
if-Found i ds true o o' f g = f
if-Found i ds false o o' f g = g

first_match-Found : (test : Dev → Bool) (i : ℕ) (ds : Devices) → Found i ds (first_match test i ds)
unfolding Found first_match
first_match-Found test i [] = tt
first_match-Found test i (none ∷ ds) =
    Found-cons i none ds (first_match test (i + 1) ds) (first_match-Found test (i + 1) ds)
first_match-Found test i (some x ∷ ds) =
    if-Found i (some x ∷ ds) (test x) (some (i, x)) (first_match test (i + 1) ds)
      (0, omega arith, refl)
      (Found-cons i (some x) ds (first_match test (i + 1) ds) (first_match-Found test (i + 1) ds))

on_match-AllSound :
    (o : Option (ℕ × Dev)) (ds : Devices) (f : ℕ → Dev → Devices)
    → Found 0 ds o
    → AllSound ds
    → ((k : ℕ) (d : Dev) → get_elem? ds k ≡ some (some d) → AllSound (f k d))
    → AllSound (on_match o ds f).devices
unfolding Found
on_match-AllSound none ds f g all h = all
on_match-AllSound (some (k, d)) ds f (j, e, g) all h =
    let same : j ≡ k = omega arith in h k d (subst (λ i. get_elem? ds i ≡ some (some d)) same g)

pub mount_nowrite-AllSound :
    (test : Dev → Bool) (close : ℕ) (ds : Devices)
    → AllSound ds
    → AllSound (mount_nowrite test close ds).devices
unfolding mount_nowrite
mount_nowrite-AllSound test close ds all =
    on_match-AllSound (first_match _ 0 ds) ds _ (first_match-Found _ 0 ds) all
      (λ k d g. AllSound-set ds k _ all (active_to_dormant-IsSound k close d (all k d g)))

pub mount_writable-AllSound :
    (test : Dev → Bool) (a again : Answers) (path : ℕ) (ds : Devices)
    → AllSound ds
    → AllSound (mount_writable test a again path ds).devices
unfolding mount_writable auto_transition_active
mount_writable-AllSound test a again path ds all =
    on_match-AllSound (first_match _ 0 ds) ds _ (first_match-Found _ 0 ds) all (λ k d g.
      test-AllSound d.unverified _ _
        (λ u.
          unverified_to_active-AllSound a again path d ds (all k d g).live
            ((all k d g).hooked ∙ ap not u) all)
        (λ u.
          AllSound-set ds k _ all
            (dormant_to_active-IsSound k path a.cow a.cow_thread d u (all k d g))))
