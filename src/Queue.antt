-- ===== src/Queue.antt =====
-- The queue of bios (src/bio_list.c, src/bio_queue.c): the bios are linked by `bi_next`, and a read at
-- the head gives way to a queued write that overlaps it.
pub mod Chain
pub mod List
pub mod Exchange
pub mod Delay
pub mod Fifo
pub mod Order
mod Tests
use moocbt.Common.{
  ℕ, zero, suc, ◌/◌, min, max, Bool, true, false, not, ◌&&◌, Option, none, some, leb, ◌==◌,
  if◌then◌else◌,
}
use moocbt.Tracer.{Bio}
use moocbt.Word.{add64}

-- `bi_next` of each bio, which its address names, and the ends of the `struct bio_list`
pub record Queue : Type 0 where
  pub next : ℕ → Option ℕ
  pub head : Option ℕ
  pub tail : Option ℕ

-- the assignment of a `bi_next`
unfoldable pub set_next : ℕ → Option ℕ → Queue → Queue
set_next b p q = record q { next = λ a. if a == b then p else q.next a }

-- `bio_list_init`, which `bio_queue_init` calls
unfoldable pub list_init : Queue → Queue
list_init q = record q { head = none; tail = none }

-- `bio_list_empty`, which `bio_queue_empty` calls
unfoldable pub list_empty : Queue → Bool
list_empty q = elim (q.head) [ none ↦ true | some b ↦ false ]

-- the branch of `bio_list_add` on the tail
unfoldable pub link_last : Option ℕ → ℕ → Queue → Queue
link_last none b q = record q { head = some b }
link_last (some t) b q = set_next t (some b) q

-- `bio_list_add`, which `bio_queue_add` calls under its lock
unfoldable pub list_add : ℕ → Queue → Queue
unfolding set_next link_last
list_add b q =
    let cut = set_next b none q in
    let linked = link_last cut.tail b cut in record linked { tail = some b }

-- `bl->head = bl->head->bi_next` and the reset of the tail in `bio_list_pop`
unfoldable pub pop_head : ℕ → Queue → Queue
pop_head b q = record q {
  head = q.next b;
  tail = elim (q.next b) [ none ↦ none | some c ↦ q.tail ];
}

-- `bio_list_pop` at a head
unfoldable pub pop_from : Option ℕ → Queue → Option ℕ × Queue
unfolding pop_head set_next
pop_from none q = (none, q)
pop_from (some b) q = (some b, set_next b none (pop_head b q))

-- `bio_list_pop`, which `bio_queue_dequeue` calls under its lock
unfoldable pub list_pop : Queue → Option ℕ × Queue
unfolding pop_from
list_pop q = pop_from q.head q

-- `bio_overlap`
unfoldable pub bio_overlap : Bio → Bio → Bool
bio_overlap a b =
    leb (max a.sector b.sector)
      (min (add64 a.sector (a.size / 512)) (add64 b.sector (b.size / 512)))

-- the test of the loop: a write that overlaps the read
unfoldable pub delays : (ℕ → Bio) → ℕ → ℕ → Bool
unfolding bio_overlap
delays bio b t = (bio t).is_write && bio_overlap (bio b) (bio t)

-- the link before `tmp` is pointed at the read
unfoldable pub relink : Option ℕ → ℕ → Queue → Queue
relink none b q = record q { head = some b }
relink (some p) b q = set_next p (some b) q

abbrev pub is_some_of : ℕ → Option ℕ → Bool
is_some_of t none = false
is_some_of t (some x) = x == t

-- the body of the loop when it finds the write: `bio` takes the place of `tmp`
unfoldable pub exchange : ℕ → Option ℕ → ℕ → Queue → Queue
unfolding relink set_next
exchange b prev t q =
    let q1 = relink prev b q in
    let q2 = record q1 { tail = if is_some_of t q1.tail then some b else q1.tail } in
    set_next t none (set_next b (q2.next t) q2)

-- the loop of `bio_queue_dequeue_delay_read`, on fuel
unfoldable pub delay_from : (ℕ → Bio) → ℕ → ℕ → Option ℕ → Option ℕ → Queue → Option (ℕ × Queue)
unfolding delays exchange
delay_from bio zero b prev tmp q = none
delay_from bio (suc fuel) b prev none q = some (b, q)
delay_from bio (suc fuel) b prev (some t) q = elim (delays bio b t) [
  | true ↦ some (t, exchange b prev t q)
  | false ↦ delay_from bio fuel b (some t) (q.next t) q
]

-- what follows `bio_list_pop` in `bio_queue_dequeue_delay_read`, which reads through NULL on an empty
-- queue
unfoldable pub delay_popped : (ℕ → Bio) → ℕ → Option ℕ × Queue → Option (ℕ × Queue)
unfolding delay_from
delay_popped bio fuel (none, q) = none
delay_popped bio fuel (some b, q) =
    if (bio b).is_write then some (b, q) else delay_from bio fuel b none q.head q

-- `bio_queue_dequeue_delay_read`
unfoldable pub dequeue_delay_read : (ℕ → Bio) → ℕ → Queue → Option (ℕ × Queue)
unfolding list_pop delay_popped
dequeue_delay_read bio fuel q = delay_popped bio fuel (list_pop q)
