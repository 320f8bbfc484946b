-- ===== src/Threads.antt =====
-- The threads of a device (src/module_threads.c): what each does in a round, and when it ends.
pub mod Cow
pub mod Drain
pub mod Failed
mod Tests
use moocbt.Common.{
  ℕ, zero, suc, ◌+◌, Bool, true, false, not, ◌&&◌, ◌||◌, List, [], ◌∷◌, Option, none, some, Result,
  ok, err, oops, eio, ◌==◌, option_then, if◌then◌else◌,
}
use moocbt.Tracer.{Bio}
use moocbt.Queue.{Queue, list_empty, list_pop, dequeue_delay_read}

-- what the cow thread calls: the handlers of src/snap_handle.c, each on a bio and the device's state, and
-- `cow_free_members` on the cow manager, if there is one
pub record Handlers (S : Type 0) : Type 0 where
  pub read : ℕ → S → Result (Unit {0}) × S
  pub write : ℕ → S → Result (Unit {0}) × S
  pub free_cow : S → S

-- how the thread is done with a bio: `moocbt_bio_endio`, or `bio_free_clone`
pub data Fate : Type 0 where
  ended : (errno : ℕ) → Fate
  freed : Fate

-- `bios` is the queue; `fail_code` is the device's; `done` is what became of the bios, the last first
pub record CowThread (S : Type 0) : Type 0 where
  pub bios : Queue
  pub fail_code : ℕ
  pub is_failed : Bool
  pub state : S
  pub done : List (ℕ × Fate)

module _ {S : Type 0} (H : Handlers S) (bio : ℕ → Bio) where
  -- `tracer_set_fail_state`
  unfoldable pub fail_with : ℕ → CowThread S → CowThread S
  fail_with e t = if t.fail_code == 0 then record t { fail_code = e } else t

  -- `if (!is_failed && tracer_read_fail_state(dev))`
  unfoldable pub notice_failure : CowThread S → CowThread S
  notice_failure t =
      if not t.is_failed && not (t.fail_code == 0)
      then record t { is_failed = true; state = H.free_cow t.state }
      else t

  unfoldable pub finish : ℕ → Fate → CowThread S → CowThread S
  finish b f t = record t { done = (b, f) ∷ t.done }

  -- the end of a read: `moocbt_bio_endio(bio, ret ? -EIO : 0)`
  unfoldable pub finish_read : ℕ → CowThread S → Result (Unit {0}) × S → Option (CowThread S)
  unfolding fail_with finish
  finish_read b t (ok _, s) = some (finish b (ended 0) (record t { state = s }))
  finish_read b t (err e, s) = some (finish b (ended eio) (fail_with e (record t { state = s })))
  finish_read b t (oops, s) = none

  -- the end of a write: `bio_free_clone`
  unfoldable pub finish_write : ℕ → CowThread S → Result (Unit {0}) × S → Option (CowThread S)
  unfolding fail_with finish
  finish_write b t (ok _, s) = some (finish b freed (record t { state = s }))
  finish_write b t (err e, s) = some (finish b freed (fail_with e (record t { state = s })))
  finish_write b t (oops, s) = none

  -- the bio taken off the queue is handled; once the thread has seen a failure it is only ended or freed
  unfoldable pub handle : ℕ → CowThread S → Option (CowThread S)
  unfolding finish finish_read finish_write
  handle b t =
      if not (bio b).is_write
      then (if t.is_failed
          then some (finish b (ended eio) t)
          else finish_read b t (H.read b t.state))
      else (if t.is_failed then some (finish b freed t) else finish_write b t (H.write b t.state))

  unfoldable pub handle_next : CowThread S → Option (ℕ × Queue) → Option (CowThread S)
  unfolding handle
  handle_next t none = none
  handle_next t (some (b, q)) = handle b (record t { bios = q })

  -- the body of the loop of `snap_cow_thread`; `fuel` bounds the search of the queue
  unfoldable pub cow_round : ℕ → CowThread S → Option (CowThread S)
  unfolding notice_failure handle_next
  cow_round fuel t =
      let seen = notice_failure t in
      if list_empty seen.bios
      then some seen
      else handle_next seen (dequeue_delay_read bio fuel seen.bios)

  -- the condition of the loop, with `kthread_should_stop()` and the two counters as arguments
  unfoldable pub cow_running : Bool → ℕ → ℕ → CowThread S → Bool
  cow_running stop submitted received t =
      not stop || (not (list_empty t.bios) || (not (submitted == received) && not t.is_failed))

  -- the loop of `snap_cow_thread` from the call of `kthread_stop` on, on fuel
  unfoldable pub cow_drain : ℕ → ℕ → ℕ → ℕ → CowThread S → Option (CowThread S)
  unfolding cow_running cow_round
  cow_drain bound zero submitted received t = none
  cow_drain bound (suc fuel) submitted received t = elim (cow_running true submitted received t) [
    | false ↦ some t
    | true ↦ option_then (cow_round bound t) (cow_drain bound fuel submitted received)
  ]
