-- ===== src/Trace/Loop.antt =====
-- The loop of `snap_trace_bio` ends when each clone takes a page.
use moocbt.Common.{
  ℕ, zero, suc, ◌+◌, ◌*◌, ◌/◌, ◌^◌, min, ◌≡◌, ◌≤◌, ◌<◌, refl, subst, Bool, true, false, not, Option,
  none, some, Result, ok, err, oops, ltb, ltb→lt, enomem, option_then, ◌==◌, if◌then◌else◌, arith,
}
use moocbt.Trace.{
  Phase, submitting, returned, Trace, Round, tp_alloc, tp_get, tp_put, put_again, leave, fail_with,
  fill, make_read_clone, send, submit_clone, submit_with, submit, Reach, submits,
}
use moocbt.Trace.Inv.{IsTrace, Traced}
use moocbt.Trace.Submit.{submit-Traced}
use moocbt.Trace.Release.{tp_alloc-IsTrace}

-- the rounds of the loop, with no clone completing meanwhile: so many at most, the first of number `i`
unfoldable pub run_rounds : ℕ → (ℕ → Round) → ℕ → ℕ → Trace → Option Trace
unfolding submit
run_rounds max_pages rounds zero i t = some t
run_rounds max_pages rounds (suc fuel) i t = elim (t.phase) [
  | returned ↦ some t
  | submitting s n ↦
      option_then (submit max_pages (rounds i) s n t) (run_rounds max_pages rounds fuel (i + 1))
]

abbrev AtLeast : ℕ → Result ℕ → Type 0
AtLeast m (ok b) = m ≤ b
AtLeast m (err e) = Unit
AtLeast m oops = Unit

if-AtLeast :
    (m : ℕ) (c : Bool) (r s : Result ℕ) → AtLeast m r → AtLeast m s → AtLeast m (if c then r else s)
if-AtLeast m true r s a b = a
if-AtLeast m false r s a b = b

fill-AtLeast : (r : Round) (n i total m : ℕ) → m ≤ total → AtLeast m (fill r n i total)
unfolding fill
fill-AtLeast r zero i total m l = l
fill-AtLeast r (suc n) i total m l =
    if-AtLeast m (not (r.page_ok i)) _ _ tt (
      if-AtLeast m (not (r.takes i)) _ _ l
        (fill-AtLeast r n (i + 1) (total + 4096) m (omega arith)))

fill_first : (r : Round) (n : ℕ) → r.takes 0 ≡ true → AtLeast 4096 (fill r (suc n) 0 0)
unfolding fill
fill_first r n e =
    if-AtLeast 4096 (not (r.page_ok 0)) _ _ tt
      (rw (e) (fill-AtLeast r n (0 + 1) (0 + 4096) 4096 (omega arith)))

-- a clone takes a page at least
make_read_clone-AtLeast :
    (max_pages : ℕ) (r : Round) (pages : ℕ)
    → 0 < max_pages
    → 0 < pages
    → r.takes 0 ≡ true
    → AtLeast 4096 (make_read_clone max_pages r pages)
unfolding make_read_clone
make_read_clone-AtLeast zero r pages a b e = absurd (omega arith)
make_read_clone-AtLeast (suc m) r zero a b e = absurd (omega arith)
make_read_clone-AtLeast (suc m) r (suc p) a b e =
    if-AtLeast 4096 (not r.bio_ok) _ _ tt (
      let h : min (suc p) (suc m) ≡ suc (min p m) = omega arith in
      rw (h) (fill_first r (min p m) e))

-- fewer pages are left, or the loop has returned
abbrev Shrinks : ℕ → Phase → Type 0
Shrinks n returned = Unit
Shrinks n (submitting s m) = (0 < m) × (m < n)

abbrev InPhase : (Phase → Type 0) → Option Trace → Type 0
InPhase P none = Unit
InPhase P (some t) = P t.phase

if-InPhase :
    (P : Phase → Type 0) (c : Bool) (o o' : Option Trace)
    → InPhase P o
    → InPhase P o'
    → InPhase P (if c then o else o')
if-InPhase P true o o' a b = a
if-InPhase P false o o' a b = b

tp_put-InPhase : (P : Phase → Type 0) (t : Trace) → P t.phase → InPhase P (tp_put t)
unfolding tp_put
tp_put-InPhase P t p = if-InPhase P (t.refs == 0) _ _ tt (if-InPhase P (t.refs == 1) _ _ p p)

put_again-InPhase : (P : Phase → Type 0) (o : Option Trace) → InPhase P o → InPhase P (put_again o)
put_again-InPhase P none p = tt
put_again-InPhase P (some t) p = tp_put-InPhase P t p

test-InPhase :
    (P : Phase → Type 0) (c : Bool) (o o' : Option Trace)
    → (c ≡ true → InPhase P o)
    → (c ≡ false → InPhase P o')
    → InPhase P (if c then o else o')
test-InPhase P true o o' a b = a refl
test-InPhase P false o o' a b = b refl

submit_clone-Shrinks :
    (s n bytes : ℕ) (t : Trace) → 4096 ≤ bytes → InPhase (Shrinks n) (submit_clone s n bytes t)
unfolding submit_clone
submit_clone-Shrinks s n bytes t l =
    test-InPhase (Shrinks n) (ltb (bytes / 4096) n) _ _
      (λ h. let b : bytes / 4096 < n = ltb→lt (bytes / 4096) n h in (omega arith, omega arith))
      (λ h. tp_put-InPhase (Shrinks n) (leave (send s bytes t)) tt)

submit_with-Shrinks :
    (r : Round) (s n : ℕ) (o : Result ℕ) (t : Trace)
    → AtLeast 4096 o
    → InPhase (Shrinks n) (submit_with r s n o t)
unfolding submit_with
submit_with-Shrinks r s n (err e) t l = tp_put-InPhase (Shrinks n) (leave (fail_with e t)) tt
submit_with-Shrinks r s n oops t l = tt
submit_with-Shrinks r s n (ok bytes) t l =
    if-InPhase (Shrinks n) r.map_ok _ _ (submit_clone-Shrinks s n bytes (tp_get t) l) (
      put_again-InPhase (Shrinks n) (tp_put (leave (fail_with enomem (tp_get t))))
        (tp_put-InPhase (Shrinks n) (leave (fail_with enomem (tp_get t))) tt))

submit-Shrinks :
    (max_pages : ℕ) (r : Round) (s n : ℕ) (t : Trace)
    → 0 < max_pages
    → 0 < n
    → r.takes 0 ≡ true
    → InPhase (Shrinks n) (submit max_pages r s n t)
unfolding submit
submit-Shrinks max_pages r s n t a b e =
    submit_with-Shrinks r s n (make_read_clone max_pages r n) t
      (make_read_clone-AtLeast max_pages r n a b e)

-- the loop has returned, in a state that can be reached
abbrev pub Returned : (off max_pages : ℕ) → Trace → Option Trace → Type 0
Returned off max_pages t o =
    (u : Trace) × (o ≡ some u) × (u.phase ≡ returned) × Reach off max_pages t (some u)

module _ (off start pages max_pages : ℕ) (rounds : ℕ → Round) where
  abbrev LoopGoal : ℕ → Type 0
  LoopGoal fuel =
      (i : ℕ) (t₀ t : Trace)
      → Shrinks fuel t.phase
      → IsTrace off start pages 0 t
      → Reach off max_pages t₀ (some t)
      → Returned off max_pages t₀ (run_rounds max_pages rounds fuel i t)

  run_returned :
      (fuel i : ℕ) (t₀ t : Trace)
      → t.phase ≡ returned
      → Reach off max_pages t₀ (some t)
      → Returned off max_pages t₀ (run_rounds max_pages rounds fuel i t)
  unfolding run_rounds
  run_returned zero i t₀ t e r = (t, refl, e, r)
  run_returned (suc fuel) i t₀ t e r = rw (e, run_rounds) (t, refl, e, r)

  goes_on :
      (fuel i s n : ℕ) (t₀ t : Trace) (o : Option Trace)
      → submit max_pages (rounds i) s n t ≡ o
      → t.phase ≡ submitting s n
      → n < suc fuel
      → InPhase (Shrinks n) o
      → Traced off start pages 0 o
      → Reach off max_pages t₀ o
      → LoopGoal fuel
      → Returned off max_pages t₀ (run_rounds max_pages rounds (suc fuel) i t)
  unfolding run_rounds
  goes_on fuel i s n t₀ t none h e l p q r ih = absurd q
  goes_on fuel i s n t₀ t (some u) h e l p q r ih =
      rw (e, run_rounds) (rw (h) (ih (i + 1) t₀ u (weaker fuel n u.phase l p) q r))
    where
      weaker : (fuel n : ℕ) (ph : Phase) → n < suc fuel → Shrinks n ph → Shrinks fuel ph
      weaker fuel n (submitting s m) l p = (p.0, omega (arith, p.1))
      weaker fuel n returned l p = tt

  module _ (fits : start + pages * 8 < 2 ^ 64) (room : 0 < max_pages)
      (takes : (i : ℕ) → (rounds i).takes 0 ≡ true) where
    by_phase :
        (fuel i : ℕ) (t₀ t : Trace) (p : Phase)
        → t.phase ≡ p
        → Shrinks fuel p
        → IsTrace off start pages 0 t
        → Reach off max_pages t₀ (some t)
        → ((f : ℕ) → fuel ≡ suc f → LoopGoal f)
        → Returned off max_pages t₀ (run_rounds max_pages rounds fuel i t)
    by_phase fuel i t₀ t returned e l j r ih = run_returned fuel i t₀ t e r
    by_phase zero i t₀ t (submitting s n) e l j r ih = absurd (omega (arith, l.1))
    by_phase (suc fuel) i t₀ t (submitting s n) e l j r ih =
        goes_on fuel i s n t₀ t (submit max_pages (rounds i) s n t) refl e l.1
          (submit-Shrinks max_pages (rounds i) s n t room l.0 (takes i))
          (submit-Traced off start pages fits max_pages (rounds i) s n t e j)
          (Reach.next r (submits e (rounds i))) (ih fuel refl)

    loop : (fuel : ℕ) → LoopGoal fuel
    loop zero i t₀ t l j r = by_phase zero i t₀ t t.phase refl l j r (λ f z. absurd (omega arith))
    loop (suc fuel) i t₀ t l j r =
        by_phase (suc fuel) i t₀ t t.phase refl l j r
          (λ f z. let e : fuel ≡ f = omega arith in subst LoopGoal e (loop fuel))

-- If `bio_add_page` takes the first page of every clone, the loop of `snap_trace_bio` returns within a
-- round for each page of the write and one more, whatever the kernel answers otherwise, and without a
-- fault; the state in which it returns is one that can be reached.
pub run_rounds-Returned :
    (off start pages max_pages : ℕ) (rounds : ℕ → Round)
    → off ≤ start
    → start + pages * 8 < 2 ^ 64
    → 0 < pages
    → 0 < max_pages
    → ((i : ℕ) → (rounds i).takes 0 ≡ true)
    → Returned off max_pages
        (tp_alloc start pages)
        (run_rounds max_pages rounds (pages + 1) 0 (tp_alloc start pages))
unfolding tp_alloc
run_rounds-Returned off start pages max_pages rounds low fits pos room takes =
    loop off start pages max_pages rounds fits room takes (pages + 1) 0 (tp_alloc start pages)
      (tp_alloc start pages) (pos, omega arith) (tp_alloc-IsTrace off start pages low fits)
      Reach.start
