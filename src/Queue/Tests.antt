-- ===== src/Queue/Tests.antt =====
-- The queue at concrete bios.
use moocbt.Common.{ℕ, ◌≡◌, refl, true, false, none, some, List, [], ◌∷◌, ◌==◌, if◌then◌else◌, arith}
use moocbt.Tracer.{Bio}
use moocbt.Queue.{Queue, list_init, list_add, dequeue_delay_read, delays, bio_overlap}
use moocbt.Queue.Chain.{IsQueue}
use moocbt.Queue.List.{list_init-IsQueue, list_add-IsQueue}
use moocbt.Queue.Delay.{HandedOut, hand_out, dequeue_delay_read-HandedOut}
use moocbt.Queue.Order.{InOrder, dequeue_delay_read-InOrder}
use moocbt.Queue.Fifo.{Op, run, spec, run-IsQueue}

abbrev empty : Queue
empty = list_init (record { next = λ a. some 9; head = some 1; tail = none })

-- a read of the sectors from 8, a write from 0, and a write from 8
abbrev bios : ℕ → Bio
bios b = record {
  sector = if b == 2 then 0 else 16;
  size = 4096;
  is_write = if b == 1 then false else true;
  is_discard = false;
  queue = 0;
}

abbrev queued : Queue
queued = list_add 3 (list_add 2 (list_add 1 empty))

queued-IsQueue : IsQueue queued (1 ∷ 2 ∷ 3 ∷ [])
queued-IsQueue =
    list_add-IsQueue 3 _ (1 ∷ 2 ∷ []) (ground arith, (ground arith, tt))
      (list_add-IsQueue 2 _ (1 ∷ []) (ground arith, tt)
        (list_add-IsQueue 1 empty [] tt (list_init-IsQueue _)))

dequeue_delay_read-HandedOut_example :
    HandedOut
      (dequeue_delay_read bios 9 queued)
      (hand_out bios 1 (2 ∷ 3 ∷ [])).0
      (hand_out bios 1 (2 ∷ 3 ∷ [])).1
dequeue_delay_read-HandedOut_example =
    dequeue_delay_read-HandedOut bios 9 1 queued (2 ∷ 3 ∷ []) (omega arith) queued-IsQueue

-- the later write goes first, though it does not overlap the earlier one
third_first : hand_out bios 1 (2 ∷ 3 ∷ []) ≡ (3, 2 ∷ 1 ∷ [])
unfolding delays bio_overlap
third_first = refl

abbrev calls : List Op
calls = Op.add 4 ∷ Op.dequeue ∷ Op.dequeue ∷ Op.add 1 ∷ []

run-IsQueue_example :
    ((run calls queued).0 ≡ (spec calls (1 ∷ 2 ∷ 3 ∷ [])).0)
    × IsQueue (run calls queued).1 (spec calls (1 ∷ 2 ∷ 3 ∷ [])).1
run-IsQueue_example =
    run-IsQueue calls queued (1 ∷ 2 ∷ 3 ∷ []) queued-IsQueue
      ((ground arith, (ground arith, (ground arith, tt))), ((ground arith, (ground arith, tt)), tt))

dequeue_delay_read-InOrder_example : InOrder bios 1 (2 ∷ 3 ∷ []) (dequeue_delay_read bios 9 queued)
dequeue_delay_read-InOrder_example =
    dequeue_delay_read-InOrder bios 9 1 queued (2 ∷ 3 ∷ []) (omega arith) queued-IsQueue
      (omega arith) (omega arith, (omega arith, tt))
