-- ===== src/Threads/Tests.antt =====
-- The cow thread at three bios, with handlers that count the writes and refuse the reads.
use moocbt.Common.{
  ℕ, ◌+◌, ◌≡◌, ◌≤◌, length, refl, true, false, Option, none, some, List, [], ◌∷◌, ok, err, ◌==◌,
  if◌then◌else◌, arith,
}
use moocbt.Tracer.{Bio}
use moocbt.Queue.{
  Queue, list_init, list_add, set_next, link_last, list_empty, list_pop, pop_from, pop_head,
  dequeue_delay_read, delay_popped, delay_from,
}
use moocbt.Queue.Chain.{Apart, IsQueue}
use moocbt.Queue.List.{list_init-IsQueue, list_add-IsQueue}
use moocbt.Threads.{
  Handlers, CowThread, cow_drain, cow_round, notice_failure, handle_next, handle, finish_read,
  finish, fail_with,
}
use moocbt.Threads.Cow.{Safe, Run, Accounted, Run-Accounted}
use moocbt.Threads.Drain.{Drained, NoWait, Waited, cow_drain-Drained}
use moocbt.Threads.Failed.{OnlyRefuses, Run-OnlyRefuses}

abbrev handlers : Handlers ℕ
handlers = record { read = λ b s. (err 12, s); write = λ b s. (ok tt, s + 1); free_cow = λ s. 0 }

handlers-Safe : Safe handlers
handlers-Safe b s = (λ e. cc, λ e. cc)

-- bio 2 is a read, which overlaps the others
abbrev bios : ℕ → Bio
bios b = record {
  sector = 16;
  size = 4096;
  is_write = if b == 2 then false else true;
  is_discard = false;
  queue = 0;
}

abbrev empty : Queue
empty = list_init (record { next = λ a. none; head = none; tail = none })

empty-IsQueue : IsQueue empty []
empty-IsQueue = list_init-IsQueue _

abbrev idle : CowThread ℕ
idle = record { bios = empty; fail_code = 0; is_failed = false; state = 7; done = [] }

abbrev busy : CowThread ℕ
busy = record idle { bios = list_add 2 (list_add 1 empty) }

busy-IsQueue : IsQueue busy.bios (1 ∷ 2 ∷ [])
busy-IsQueue =
    list_add-IsQueue 2 _ (1 ∷ []) (ground arith, tt) (list_add-IsQueue 1 empty [] tt empty-IsQueue)

cow_drain-Drained_example :
    (let o = cow_drain handlers bios 5 6 3 3 busy in
      (NoWait handlers bios 3 3 busy → Drained handlers bios (1 ∷ 2 ∷ []) busy o)
      × Waited handlers bios 3 3 o)
cow_drain-Drained_example =
    cow_drain-Drained handlers bios 6 5 3 3 busy (1 ∷ 2 ∷ []) handlers-Safe (omega arith)
      (omega arith) busy-IsQueue

abbrev get : Option (CowThread ℕ) → CowThread ℕ
get none = idle
get (some t) = t

fresh : (b : ℕ) (xs : List ℕ) → IsQueue empty xs → Apart b xs
unfolding list_init
fresh b [] i = tt
fresh b (x ∷ xs) i = absurd (let e = i.chain.0 in cc)

bounded : (xs : List ℕ) → IsQueue (list_add 2 empty) xs → length xs ≤ 5
unfolding list_add list_init link_last set_next
bounded [] i = omega arith
bounded (x ∷ []) i = omega arith
bounded (x ∷ y ∷ xs) i = absurd (let e = i.chain.1.0 in let f = i.chain.0 in ground arith)

abbrev added : CowThread ℕ
added = record idle { bios = list_add 2 idle.bios }

abbrev served : CowThread ℕ
served = get (cow_round handlers bios 5 added)

serves : cow_round handlers bios 5 added ≡ some served
unfolding cow_round notice_failure handle_next handle finish_read finish fail_with list_empty
    list_add list_init link_last set_next dequeue_delay_read delay_popped delay_from list_pop
    pop_from pop_head
serves = refl

run : Run handlers bios idle (2 ∷ []) served
run = Run.round (Run.add Run.start 2 (fresh 2)) 5 bounded serves

Run-Accounted_example : Accounted handlers bios idle [] (2 ∷ []) served
Run-Accounted_example = Run-Accounted handlers bios {t = idle} {u = served} empty-IsQueue run

abbrev failed : CowThread ℕ
failed = record idle { is_failed = true; fail_code = 5 }

abbrev refused : CowThread ℕ
refused = get (cow_round handlers bios 5 (record failed { bios = list_add 2 failed.bios }))

refuses : cow_round handlers bios 5 (record failed { bios = list_add 2 failed.bios }) ≡ some refused
unfolding cow_round notice_failure handle_next handle finish_read finish fail_with list_empty
    list_add list_init link_last set_next dequeue_delay_read delay_popped delay_from list_pop
    pop_from pop_head
refuses = refl

failed_run : Run handlers bios failed (2 ∷ []) refused
failed_run = Run.round (Run.add Run.start 2 (fresh 2)) 5 bounded refuses

Run-OnlyRefuses_example : OnlyRefuses handlers bios failed refused
Run-OnlyRefuses_example = Run-OnlyRefuses handlers bios {t = failed} {u = refused} refl failed_run
