-- ===== src/Threads/Drain.antt =====
-- The cow thread after `kthread_stop`: it empties its queue and ends.
use moocbt.Common.{
  ℕ, zero, suc, ◌+◌, ◌≡◌, ◌⊎◌, inl, inr, subst, Bool, Bool-cases, ◌==◌, option_then, ◌<◌, ◌≤◌, refl,
  true, false, List, [], ◌∷◌, Option, none, some, length, arith,
}
use moocbt.Tracer.{Bio}
use moocbt.Queue.{list_empty}
use moocbt.Queue.Chain.{IsQueue}
use moocbt.Queue.List.{list_empty_lem, nonempty}
use moocbt.Queue.Order.{count}
use moocbt.Threads.{Handlers, CowThread, cow_round, cow_running, cow_drain}
use moocbt.Threads.Failed.{round_failed}
use moocbt.Threads.Cow.{Safe, Unless, Progress, count_done, round_lem}

module _ {S : Type 0} (H : Handlers S) (bio : ℕ → Bio) where
  -- the thread has ended with an empty queue, and each bio that was queued has been ended or freed
  abbrev pub Drained : List ℕ → CowThread S → Option (CowThread S) → Type 0
  Drained xs t r =
      (t' : CowThread S) × (r ≡ some t')
      × IsQueue t'.bios []
      × ((a : ℕ) → count_done a t'.done ≡ count a xs + count_done a t.done)

  -- no clone is in flight, or none is waited for, since the thread has seen a failure
  abbrev pub NoWait : ℕ → ℕ → CowThread S → Type 0
  NoWait submitted received t = (submitted ≡ received) ⊎ (t.is_failed ≡ true)

  -- what follows when the thread has ended in the state `t'`: it has waited for the clones
  abbrev pub Waited : ℕ → ℕ → Option (CowThread S) → Type 0
  Waited s r o = (t' : CowThread S) → o ≡ some t' → (list_empty t'.bios ≡ true) × NoWait s r t'

  running_empty :
      (s r : ℕ) (t : CowThread S)
      → NoWait s r t
      → IsQueue t.bios []
      → cow_running H bio true s r t ≡ false
  unfolding cow_running
  running_empty s r t w i =
      let e : list_empty t.bios ≡ true = (list_empty_lem t.bios [] i).1 refl in
      elim w [ inl same ↦ ground arith | inr failed ↦ ground arith ]

  running_more :
      (s r x : ℕ) (xs : List ℕ) (t : CowThread S)
      → IsQueue t.bios (x ∷ xs)
      → cow_running H bio true s r t ≡ true
  unfolding cow_running
  running_more s r x xs t i =
      let e : list_empty t.bios ≡ false = nonempty t.bios i.chain.0 in ground arith

  from_round :
      (P : CowThread S → Type 0) (o : Option (CowThread S))
      → Safe H
      → Unless H bio (Safe H) P o
      → (t : CowThread S) × (o ≡ some t) × P t
  from_round P none safe u = absurd (u safe)
  from_round P (some t) safe u = (t, refl, u)

  -- the loop goes on while a bio is queued, or a clone is in flight and no failure has been seen
  running_waits :
      (s r : ℕ) (t : CowThread S)
      → cow_running H bio true s r t ≡ false
      → (list_empty t.bios ≡ true) × NoWait s r t
  unfolding cow_running
  running_waits s r t h = (
    ground arith,
    elim (Bool-cases (s == r)) [ inl same ↦ inl (ground arith) | inr differs ↦ inr (ground arith) ],
  )

  drain_waits :
      (fuel bound s r : ℕ) (t : CowThread S) → Waited s r (cow_drain H bio bound fuel s r t)
  unfolding cow_drain
  drain_waits zero bound s r t t' e = absurd (cc)
  drain_waits (suc fuel) bound s r t t' e =
      go (drain_waits fuel bound s r) (cow_running H bio true s r t) refl e
    where
      turn :
          ((u : CowThread S) → Waited s r (cow_drain H bio bound fuel s r u))
          → (o : Option (CowThread S)) → Waited s r (option_then o (cow_drain H bio bound fuel s r))
      turn ih none t' e = absurd (cc)
      turn ih (some u) t' e = ih u t' e

      go :
          ((u : CowThread S) → Waited s r (cow_drain H bio bound fuel s r u))
          → (c : Bool) → cow_running H bio true s r t ≡ c
          → (elim c [
            | false ↦ some t
            | true ↦ option_then (cow_round H bio bound t) (cow_drain H bio bound fuel s r)
          ])
            ≡ some t'
          → (list_empty t'.bios ≡ true) × NoWait s r t'
      go ih false c e =
          let same : t ≡ t' = cc in
          subst (λ u. (list_empty u.bios ≡ true) × NoWait s r u) same (running_waits s r t c)
      go ih true c e = turn ih (cow_round H bio bound t) t' e

  still_NoWait :
      (s r bound : ℕ) (t u : CowThread S)
      → NoWait s r t
      → cow_round H bio bound t ≡ some u
      → NoWait s r u
  still_NoWait s r bound t u (inl same) e = inl same
  still_NoWait s r bound t u (inr f) e = inr (round_failed H bio t bound u f e)

  drain_ends :
      (fuel bound s r : ℕ) (t : CowThread S) (xs : List ℕ)
      → Safe H
      → length xs < fuel
      → length xs ≤ bound
      → IsQueue t.bios xs
      → NoWait s r t
      → Drained xs t (cow_drain H bio bound fuel s r t)
  unfolding cow_drain
  drain_ends zero bound n n' t xs safe f s i w = absurd (omega arith)
  drain_ends (suc fuel) bound n n' t [] safe f s i w =
      rw (running_empty n n' t w i, cow_drain) (t, refl, i, λ a. omega arith)
  drain_ends (suc fuel) bound n n' t (x ∷ xs) safe f s i w =
      let (u, e, p) =
        from_round (Progress H bio (x ∷ xs) t) (cow_round H bio bound t) safe
          (round_lem H bio bound t (x ∷ xs) s i) in
      let less : length p.left ≡ length xs = omega (arith, p.fewer) in
      let (v, r, j, c) =
        drain_ends fuel bound n n' u p.left safe (omega arith) (omega arith) p.queue
          (still_NoWait n n' bound t u w e) in
      rw (running_more n n' x xs t i, e, cow_drain) (v, r, j, λ a. omega (arith, c a, p.kept a))

  -- `snap_cow_thread` once it is told to stop, with `xs` queued and handlers that do not run into a fault. If
  -- no clone is in flight or it has seen a failure, it ends within a round for each bio and one more:
  -- the queue is then empty, and each bio of `xs` has been ended or freed as often as it was queued.
  -- And whenever it ends, the queue is empty, and as many clones were received as submitted or it has
  -- seen a failure.
  pub cow_drain-Drained :
      (fuel bound submitted received : ℕ) (t : CowThread S) (xs : List ℕ)
      → Safe H
      → length xs < fuel
      → length xs ≤ bound
      → IsQueue t.bios xs
      → (let o = cow_drain H bio bound fuel submitted received t in
          (NoWait submitted received t → Drained xs t o) × Waited submitted received o)
  cow_drain-Drained fuel bound s r t xs safe f b i =
      (drain_ends fuel bound s r t xs safe f b i, drain_waits fuel bound s r t)
