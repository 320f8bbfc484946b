-- ===== src/Queue/Delay.antt =====
-- A read at the head gives way to a queued write that overlaps it, and takes its place.
use moocbt.Common.{
  ℕ, zero, suc, ◌≡◌, ◌<◌, refl, sym, subst, append_assoc, true, false, Bool-cases, inl, inr, Option,
  none, some, List, [], ◌∷◌, ◌++◌, length, if◌then◌else◌, arith,
}
use moocbt.Tracer.{Bio}
use moocbt.Queue.{Queue, exchange, delays, delay_from, delay_popped, dequeue_delay_read}
use moocbt.Queue.Chain.{Chain, last_of, Apart, IsQueue, last_of-append}
use moocbt.Queue.List.{list_pop-IsQueue}
use moocbt.Queue.Exchange.{exchange_tail, exchange-IsQueue}

-- the bio that `bio_queue_dequeue_delay_read` hands out for the read `b`, and what stays queued
abbrev pub scan : (ℕ → Bio) → ℕ → List ℕ → ℕ × List ℕ
scan bio b [] = (b, [])
scan bio b (t ∷ xs) =
    let rest = scan bio b xs in if delays bio b t then (t, b ∷ xs) else (rest.0, t ∷ rest.1)

abbrev pub hand_out : (ℕ → Bio) → ℕ → List ℕ → ℕ × List ℕ
hand_out bio b xs = if (bio b).is_write then (b, xs) else scan bio b xs

-- the bio is handed out and unlinked, and the rest stays queued
abbrev pub HandedOut : Option (ℕ × Queue) → ℕ → List ℕ → Type 0
HandedOut r y ys = (q' : Queue) × (r ≡ some (y, q')) × IsQueue q' ys × (q'.next y ≡ none)

DelayGoal : (ℕ → Bio) → ℕ → ℕ → Option ℕ → Option ℕ → Queue → List ℕ → List ℕ → Type 0
DelayGoal bio fuel b prev tmp q pre rest =
    HandedOut (delay_from bio fuel b prev tmp q) (scan bio b rest).0 (pre ++ (scan bio b rest).1)

delay_found :
    (bio : ℕ → Bio) (fuel b t : ℕ) (prev : Option ℕ) (q : Queue) (pre rest : List ℕ)
    → delays bio b t ≡ true
    → prev ≡ last_of pre
    → IsQueue q (pre ++ (t ∷ rest))
    → Apart b (pre ++ (t ∷ rest))
    → DelayGoal bio (suc fuel) b prev (some t) q pre (t ∷ rest)
unfolding DelayGoal delay_from
delay_found bio fuel b t prev q pre rest h e i o =
    rw (h, delay_from)
      (
        exchange b prev t q,
        refl,
        exchange-IsQueue b t prev q pre rest e i o,
        (exchange_tail b t prev q).1,
      )

delay_next :
    (bio : ℕ → Bio) (fuel b t : ℕ) (prev : Option ℕ) (q : Queue) (pre rest : List ℕ)
    → delays bio b t ≡ false
    → DelayGoal bio fuel b (some t) (q.next t) q (pre ++ (t ∷ [])) rest
    → DelayGoal bio (suc fuel) b prev (some t) q pre (t ∷ rest)
unfolding DelayGoal delay_from
delay_next bio fuel b t prev q pre rest h (q', r, i, z) =
    rw (h, delay_from) (q', r, subst (λ l. IsQueue q' l) (append_assoc pre (t ∷ []) _) i, z)

delay_end :
    (bio : ℕ → Bio) (fuel b : ℕ) (prev tmp : Option ℕ) (q : Queue) (pre : List ℕ)
    → tmp ≡ none
    → q.next b ≡ none
    → IsQueue q (pre ++ [])
    → DelayGoal bio (suc fuel) b prev tmp q pre []
unfolding DelayGoal delay_from
delay_end bio fuel b prev tmp q pre c z i = rw (c) (q, refl, i, z)

delay_from_lem :
    (bio : ℕ → Bio) (fuel b : ℕ) (prev tmp : Option ℕ) (q : Queue) (pre rest : List ℕ)
    → length rest < fuel
    → prev ≡ last_of pre
    → Chain q.next tmp rest
    → q.next b ≡ none
    → IsQueue q (pre ++ rest)
    → Apart b (pre ++ rest)
    → DelayGoal bio fuel b prev tmp q pre rest
delay_from_lem bio zero b prev tmp q pre rest l e c z i o = absurd (omega arith)
delay_from_lem bio (suc fuel) b prev tmp q pre [] l e c z i o =
    delay_end bio fuel b prev tmp q pre c z i
delay_from_lem bio (suc fuel) b prev tmp q pre (t ∷ rest) l e c z i o =
    subst (λ p. DelayGoal bio (suc fuel) b prev p q pre (t ∷ rest)) (sym c.0)
      (elim (Bool-cases (delays bio b t)) [
        | inl h ↦ delay_found bio fuel b t prev q pre rest h e i o
        | inr h ↦
            let a = append_assoc pre (t ∷ []) rest in
            delay_next bio fuel b t prev q pre rest h (
              delay_from_lem bio fuel b (some t) (q.next t) q (pre ++ (t ∷ [])) rest (omega arith)
                (sym (last_of-append pre t)) c.1 z (rw (a) i) (rw (a) o))
      ])

-- On a queue of the bios `b ∷ xs` that links them in this order, `bio_queue_dequeue_delay_read`
-- ends within one step of its loop for each of them and one more, and hands out what `hand_out` says: `b`
-- itself if it is a write or if no queued write overlaps it, else the first queued write that overlaps
-- it, whose place the read takes; the other bios keep their order, and the bio handed out is unlinked.
pub dequeue_delay_read-HandedOut :
    (bio : ℕ → Bio) (fuel b : ℕ) (q : Queue) (xs : List ℕ)
    → length xs < fuel
    → IsQueue q (b ∷ xs)
    → HandedOut (dequeue_delay_read bio fuel q) (hand_out bio b xs).0 (hand_out bio b xs).1
unfolding dequeue_delay_read delay_popped DelayGoal
dequeue_delay_read-HandedOut bio fuel b q xs l i =
    let (q', e, i', z) = list_pop-IsQueue b q xs i in
    rw (e) (elim (Bool-cases (bio b).is_write) [
      | inl h ↦ rw (h) (q', refl, i', z)
      | inr h ↦
          rw (h) (delay_from_lem bio fuel b none q'.head q' [] xs l refl i'.chain z i' i.distinct.0)
    ])
