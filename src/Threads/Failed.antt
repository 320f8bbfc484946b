-- ===== src/Threads/Failed.antt =====
-- The cow thread after a failure: it calls no handler any more.
use moocbt.Common.{
  ℕ, ◌≡◌, refl, sym, ap, subst, Bool, true, false, not, ◌&&◌, List, [], ◌∷◌, ◌++◌, Option, none,
  some, All, eio, ◌==◌, if◌then◌else◌,
}
use moocbt.Tracer.{Bio}
use moocbt.Queue.{Queue, list_empty}
use moocbt.Threads.{
  Handlers, Fate, CowThread, fail_with, finish, notice_failure, handle, handle_next, cow_round,
}
use moocbt.Threads.Cow.{Run}

-- a read is ended with `-EIO`, and a clone, which is a write, is freed
abbrev pub Refused : (ℕ → Bio) → ℕ × Fate → Type 0
Refused bio (b, f) =
    ((bio b).is_write ≡ false → f ≡ Fate.ended eio) × ((bio b).is_write ≡ true → f ≡ Fate.freed)

module _ {S : Type 0} (H : Handlers S) (bio : ℕ → Bio) where
  -- the thread has seen a failure, its state is that of `t`, and since `t` it has only refused bios
  pub record OnlyRefuses (t u : CowThread S) : Type 0 where
    pub failed : u.is_failed ≡ true
    pub state : u.state ≡ t.state
    pub since : List (ℕ × Fate)
    pub done : u.done ≡ since ++ t.done
    pub refused : All (Refused bio) since

  abbrev Each : (CowThread S → Type 0) → Option (CowThread S) → Type 0
  Each P none = Unit
  Each P (some t) = P t

  if-Each :
      (P : CowThread S → Type 0) (c : Bool) (o o' : Option (CowThread S))
      → (c ≡ true → Each P o)
      → (c ≡ false → Each P o')
      → Each P (if c then o else o')
  if-Each P true o o' e e' = e refl
  if-Each P false o o' e e' = e' refl

  if_true-Each :
      (P : CowThread S → Type 0) (c : Bool) (o o' : Option (CowThread S))
      → c ≡ true
      → Each P o
      → Each P (if c then o else o')
  if_true-Each P true o o' h e = e
  if_true-Each P false o o' h e = absurd (cc)

  written : (c : Bool) → not c ≡ true → c ≡ true → ⊥
  written true h w = cc
  written false h w = cc

  unwritten : (c : Bool) → not c ≡ false → c ≡ false → ⊥
  unwritten true h w = cc
  unwritten false h w = cc

  module _ (t : CowThread S) where
    more :
        (u : CowThread S) (b : ℕ) (f : Fate) (q : Queue)
        → Refused bio (b, f)
        → OnlyRefuses t u
        → OnlyRefuses t (finish H bio b f (record u { bios = q }))
    unfolding finish
    more u b f q r o = record {
      failed = o.failed;
      state = o.state;
      since = (b, f) ∷ o.since;
      done = ap (λ l. (b, f) ∷ l) o.done;
      refused = (r, o.refused);
    }

    handle-OnlyRefuses :
        (b : ℕ) (u : CowThread S) (q : Queue)
        → OnlyRefuses t u
        → Each (OnlyRefuses t) (handle H bio b (record u { bios = q }))
    unfolding handle
    handle-OnlyRefuses b u q o =
        if-Each (OnlyRefuses t) (not (bio b).is_write) _ _
          (λ c. if_true-Each (OnlyRefuses t) u.is_failed _ _ o.failed (
            more u b (Fate.ended eio) q ((λ _. refl), λ w. absurd (written (bio b).is_write c w))
              o))
          (λ c.
            if_true-Each (OnlyRefuses t) u.is_failed _ _ o.failed
              (more u b Fate.freed q ((λ w. absurd (unwritten (bio b).is_write c w)), λ _. refl) o))

    next-OnlyRefuses :
        (u : CowThread S) (r : Option (ℕ × Queue))
        → OnlyRefuses t u
        → Each (OnlyRefuses t) (handle_next H bio u r)
    unfolding handle_next
    next-OnlyRefuses u none o = tt
    next-OnlyRefuses u (some (b, q)) o = handle-OnlyRefuses b u q o

    notice-OnlyRefuses :
        (u : CowThread S) → OnlyRefuses t u → OnlyRefuses t (notice_failure H bio u)
    unfolding notice_failure
    notice-OnlyRefuses u o =
        let c : (not u.is_failed && not (u.fail_code == 0)) ≡ false = rw (o.failed) refl in
        subst
          (λ b.
            OnlyRefuses t
              (if b then record u { is_failed = true; state = H.free_cow u.state } else u))
          (sym c) o

    round-OnlyRefuses :
        (bound : ℕ) (u : CowThread S)
        → OnlyRefuses t u
        → Each (OnlyRefuses t) (cow_round H bio bound u)
    unfolding cow_round
    round-OnlyRefuses bound u o =
        let n = notice-OnlyRefuses u o in
        if-Each (OnlyRefuses t) (list_empty (notice_failure H bio u).bios) _ _ (λ _. n)
          (λ _. next-OnlyRefuses (notice_failure H bio u) _ n)

    -- a round keeps the failure in mind
    pub round_failed :
        (bound : ℕ) (u : CowThread S)
        → t.is_failed ≡ true
        → cow_round H bio bound t ≡ some u
        → u.is_failed ≡ true
    round_failed bound u f e =
        (subst (Each (OnlyRefuses t)) e (
          round-OnlyRefuses bound t
            (record { failed = f; state = refl; since = []; done = refl; refused = tt }))).failed

    fail-OnlyRefuses :
        (e : ℕ) (u : CowThread S) → OnlyRefuses t u → OnlyRefuses t (fail_with H bio e u)
    unfolding fail_with
    fail-OnlyRefuses e u o = fails (u.fail_code == 0)
      where
        fails : (c : Bool) → OnlyRefuses t (if c then record u { fail_code = e } else u)
        fails true = record {
          failed = o.failed;
          state = o.state;
          since = o.since;
          done = o.done;
          refused = o.refused;
        }
        fails false = o

  -- From a state in which `snap_cow_thread` has seen a failure, whatever is added and fails: it calls no
  -- handler any more, so the state of the device stays, and every bio that it is done with since
  -- is a read, which it ended with `-EIO`, or a clone (a write), which it freed.
  pub Run-OnlyRefuses :
      {t u : CowThread S} {bs : List ℕ} → t.is_failed ≡ true → Run H bio t bs u → OnlyRefuses t u
  Run-OnlyRefuses f Run.start = record {
    failed = f;
    state = refl;
    since = [];
    done = refl;
    refused = tt;
  }
  Run-OnlyRefuses f (Run.add r b fresh) =
      let o = Run-OnlyRefuses f r in
      record {
        failed = o.failed;
        state = o.state;
        since = o.since;
        done = o.done;
        refused = o.refused;
      }
  Run-OnlyRefuses {t} f (Run.failure {u} r e) = fail-OnlyRefuses t e u (Run-OnlyRefuses f r)
  Run-OnlyRefuses {t} f (Run.round {u} r bound enough e) =
      subst (Each (OnlyRefuses t)) e (round-OnlyRefuses t bound u (Run-OnlyRefuses f r))
