-- ===== src/Threads/Cow.antt =====
-- A round of the cow thread, and runs of the thread with bios added between its rounds.
use moocbt.Common.{
  ℕ, ◌+◌, ◌≡◌, ◌≢◌, subst, sym, ◌≤◌, ◌-◌, not, refl, Bool, true, false, List, [], ◌∷◌, ◌++◌, Option,
  none, some, Result, ok, err, oops, length, ◌==◌, if◌then◌else◌, arith,
}
use moocbt.Tracer.{Bio}
use moocbt.Queue.{Queue, list_add, list_empty, dequeue_delay_read}
use moocbt.Queue.Chain.{Apart, IsQueue}
use moocbt.Queue.List.{list_empty_lem, nonempty, list_add-IsQueue}
use moocbt.Queue.Delay.{hand_out, dequeue_delay_read-HandedOut}
use moocbt.Queue.Order.{count, count-hand_out, length-hand_out}
use moocbt.Threads.{
  Handlers, Fate, CowThread, fail_with, notice_failure, finish, finish_read, finish_write, handle,
  handle_next, cow_round,
}

-- how often the thread is done with a bio
abbrev pub count_done : ℕ → List (ℕ × Fate) → ℕ
count_done a [] = 0
count_done a ((x, _) ∷ xs) = (if x == a then 1 else 0) + count_done a xs

-- the handlers do not run into a fault
abbrev pub Safe : {S : Type 0} → Handlers S → Type 0
Safe {S} H = (b : ℕ) (s : S) → ((H.read b s).0 ≢ oops) × ((H.write b s).0 ≢ oops)

module _ {S : Type 0} (H : Handlers S) (bio : ℕ → Bio) where
  -- a bio is done with, and the queue is as it was
  record Finished (b : ℕ) (t t' : CowThread S) : Type 0 where
    pub bios : t'.bios ≡ t.bios
    pub done : (a : ℕ) → count_done a t'.done ≡ (if b == a then 1 else 0) + count_done a t.done

  -- a step that ends in a fault contradicts that the handlers do not
  abbrev pub Unless : Type 0 → (CowThread S → Type 0) → Option (CowThread S) → Type 0
  Unless safe P none = safe → ⊥
  Unless safe P (some t') = P t'

  finish_read-Finished :
      (b : ℕ) (t : CowThread S) (r : Result (Unit {0}) × S)
      → Unless (r.0 ≢ oops) (Finished b t) (finish_read H bio b t r)
  unfolding finish_read finish fail_with
  finish_read-Finished b t (ok _, s) = record { bios = refl; done = λ a. refl }
  finish_read-Finished b t (err x, s) = record { bios = ground arith; done = λ a. ground arith }
  finish_read-Finished b t (oops, s) = λ safe. safe refl

  finish_write-Finished :
      (b : ℕ) (t : CowThread S) (r : Result (Unit {0}) × S)
      → Unless (r.0 ≢ oops) (Finished b t) (finish_write H bio b t r)
  unfolding finish_write finish fail_with
  finish_write-Finished b t (ok _, s) = record { bios = refl; done = λ a. refl }
  finish_write-Finished b t (err x, s) = record { bios = ground arith; done = λ a. ground arith }
  finish_write-Finished b t (oops, s) = λ safe. safe refl

  pub if-Unless :
      (A : Type 0) (P : CowThread S → Type 0) (c : Bool) (o o' : Option (CowThread S))
      → Unless A P o
      → Unless A P o'
      → Unless A P (if c then o else o')
  if-Unless A P true o o' u u' = u
  if-Unless A P false o o' u u' = u'

  Unless-mono :
      {A B : Type 0} (P : CowThread S → Type 0) (o : Option (CowThread S))
      → (B → A)
      → Unless A P o
      → Unless B P o
  Unless-mono P none f u = λ b. u (f b)
  Unless-mono P (some t) f u = u

  handle-Finished : (b : ℕ) (t : CowThread S) → Unless (Safe H) (Finished b t) (handle H bio b t)
  unfolding handle finish
  handle-Finished b t =
      if-Unless _ (Finished b t) (not (bio b).is_write) _ _
        (if-Unless _ (Finished b t) t.is_failed _ _ (record { bios = refl; done = λ a. refl })
          (Unless-mono (Finished b t) (finish_read H bio b t (H.read b t.state))
            (λ s. (s b t.state).0) (finish_read-Finished b t (H.read b t.state))))
        (if-Unless _ (Finished b t) t.is_failed _ _ (record { bios = refl; done = λ a. refl })
          (Unless-mono (Finished b t) (finish_write H bio b t (H.write b t.state))
            (λ s. (s b t.state).1) (finish_write-Finished b t (H.write b t.state))))

  -- what a round leaves: the bios that were queued are still queued or done with
  pub record Progress (xs : List ℕ) (t t' : CowThread S) : Type 0 where
    pub left : List ℕ
    pub queue : IsQueue t'.bios left
    pub fewer : length left ≡ length xs - 1
    pub kept : (a : ℕ) → count a left + count_done a t'.done ≡ count a xs + count_done a t.done

  notice_same :
      (t : CowThread S)
      → ((notice_failure H bio t).bios ≡ t.bios) × ((notice_failure H bio t).done ≡ t.done)
  unfolding notice_failure
  notice_same t = (ground arith, ground arith)

  Unless-map :
      (A : Type 0) (P Q : CowThread S → Type 0) (o : Option (CowThread S))
      → ((t : CowThread S) → P t → Q t)
      → Unless A P o
      → Unless A Q o
  Unless-map A P Q none f u = u
  Unless-map A P Q (some t) f u = f t u

  handled :
      (b : ℕ) (u : CowThread S) (q : Queue) (xs ys : List ℕ)
      → IsQueue q ys
      → length ys ≡ length xs - 1
      → ((a : ℕ) → count a (b ∷ ys) ≡ count a xs)
      → Unless (Safe H) (Progress xs u) (handle H bio b (record u { bios = q }))
  handled b u q xs ys i l c =
      Unless-map (Safe H) (Finished b (record u { bios = q })) (Progress xs u)
        (handle H bio b (record u { bios = q }))
        (λ t f. record {
          left = ys;
          queue = rw (f.bios) i;
          fewer = l;
          kept = λ a. omega (arith, f.done a, c a);
        })
        (handle-Finished b (record u { bios = q }))

  abbrev after_notice : ℕ → CowThread S → Option (CowThread S)
  after_notice bound u =
      if list_empty u.bios
      then some u
      else handle_next H bio u (dequeue_delay_read bio bound u.bios)

  after_notice-Unless :
      (bound : ℕ) (u : CowThread S) (xs : List ℕ)
      → length xs ≤ bound
      → IsQueue u.bios xs
      → Unless (Safe H) (Progress xs u) (after_notice bound u)
  unfolding handle_next
  after_notice-Unless bound u [] l i =
      let e : list_empty u.bios ≡ true = (list_empty_lem u.bios [] i).1 refl in
      subst
        (λ c.
          Unless (Safe H) (Progress [] u)
            (if c then some u else handle_next H bio u (dequeue_delay_read bio bound u.bios)))
        (sym e) (record { left = []; queue = i; fewer = refl; kept = λ a. refl })
  after_notice-Unless bound u (b ∷ xs) l i =
      let (q, e, i', z) = dequeue_delay_read-HandedOut bio bound b u.bios xs (omega arith) i in
      subst
        (λ c.
          Unless (Safe H) (Progress (b ∷ xs) u)
            (if c then some u else handle_next H bio u (dequeue_delay_read bio bound u.bios)))
        (sym (nonempty u.bios i.chain.0))
        (subst (λ r. Unless (Safe H) (Progress (b ∷ xs) u) (handle_next H bio u r)) (sym e)
          (handled (hand_out bio b xs).0 u q (b ∷ xs) (hand_out bio b xs).1 i'
            (omega (arith, length-hand_out bio b xs)) (λ a. count-hand_out bio a b xs)))

  pub round_lem :
      (bound : ℕ) (t : CowThread S) (xs : List ℕ)
      → length xs ≤ bound
      → IsQueue t.bios xs
      → Unless (Safe H) (Progress xs t) (cow_round H bio bound t)
  unfolding cow_round
  round_lem bound t xs l i =
      let (same, done) = notice_same t in
      Unless-map (Safe H) (Progress xs (notice_failure H bio t)) (Progress xs t)
        (cow_round H bio bound t)
        (λ t' p. record {
          left = p.left;
          queue = p.queue;
          fewer = p.fewer;
          kept = λ a. rw (← done) (p.kept a);
        })
        (after_notice-Unless bound (notice_failure H bio t) xs l (rw (same) i))

  -- What happens to the thread: a bio that is not queued is added by `bio_queue_add`, another thread
  -- sets the fail code, or the thread makes a round. The list holds the bios added, the last first.
  pub data Run (t : CowThread S) : List ℕ → CowThread S → Type 0 where
    start : Run t [] t
    add :
        {u : CowThread S} {bs : List ℕ}
        → Run t bs u
        → (b : ℕ) → ((xs : List ℕ) → IsQueue u.bios xs → Apart b xs)
        → Run t (b ∷ bs) (record u { bios = list_add b u.bios })
    failure :
        {u : CowThread S} {bs : List ℕ} → Run t bs u → (e : ℕ) → Run t bs (fail_with H bio e u)
    round :
        {u v : CowThread S} {bs : List ℕ}
        → Run t bs u
        → (bound : ℕ) → ((xs : List ℕ) → IsQueue u.bios xs → length xs ≤ bound)
        → cow_round H bio bound u ≡ some v
        → Run t bs v

  abbrev pub Accounted : CowThread S → List ℕ → List ℕ → CowThread S → Type 0
  Accounted t xs bs u =
      (ys : List ℕ) × IsQueue u.bios ys
      × ((a : ℕ)
          → count a ys + count_done a u.done ≡ count a bs + (count a xs + count_done a t.done))

  count-append : (a : ℕ) (ys : List ℕ) (b : ℕ) → count a (ys ++ (b ∷ [])) ≡ count a (b ∷ ys)
  count-append a [] b = refl
  count-append a (y ∷ ys) b = omega (arith, count-append a ys b)

  fail_same :
      (e : ℕ) (t : CowThread S)
      → ((fail_with H bio e t).bios ≡ t.bios) × ((fail_with H bio e t).done ≡ t.done)
  unfolding fail_with
  fail_same e t = (ground arith, ground arith)

  -- From a queue that stands for the bios `xs`, whatever is added and fails between the rounds of
  -- `snap_cow_thread`: the queue stands for a list, and of each bio, what is queued and what has been
  -- ended or freed are together what was added and what was there at the start. So none is lost,
  -- and none is ended or freed twice.
  pub Run-Accounted :
      {t u : CowThread S} {bs xs : List ℕ} → IsQueue t.bios xs → Run t bs u → Accounted t xs bs u
  Run-Accounted {xs = xs} i start = (xs, i, λ a. omega arith)
  Run-Accounted i (add {u} r b fresh) =
      let (ys, j, c) = Run-Accounted i r in
      (
        ys ++ (b ∷ []),
        list_add-IsQueue b u.bios ys (fresh ys j) j,
        λ a. omega (arith, c a, count-append a ys b),
      )
  Run-Accounted i (failure {u} r e) =
      let (ys, j, c) = Run-Accounted i r in
      let (same, done) = fail_same e u in (ys, rw (same) j, λ a. rw (done) (c a))
  Run-Accounted i (round {u} {v} r bound enough e) =
      let (ys, j, c) = Run-Accounted i r in
      let p : Progress ys u v =
        subst (Unless (Safe H) (Progress ys u)) e (round_lem bound u ys (enough ys j) j) in
      (p.left, p.queue, λ a. omega (arith, c a, p.kept a))
