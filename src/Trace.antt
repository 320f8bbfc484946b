-- ===== src/Trace.antt =====
-- Tracing a write on a device in snapshot mode (`snap_trace_bio` of src/tracer.c): the blocks that it
-- covers are read by clones (src/bio_helper.c) before it is let through, which the reference count of
-- src/tracing_params.c decides.
pub mod Range
pub mod Clones
pub mod Inv
pub mod Submit
pub mod Complete
pub mod Release
pub mod Loop
pub mod Marks
pub mod Exact
mod Tests
use moocbt.Common.{
  ℕ, zero, suc, ◌+◌, ◌-◌, ◌*◌, ◌/◌, ◌%◌, ◌^◌, min, ◌≡◌, Bool, true, false, not, ◌&&◌, ◌||◌, List,
  [], ◌∷◌, ◌++◌, Option, none, some, Result, ok, err, oops, enomem, get_elem?, ltb, leb, ◌==◌,
  if◌then◌else◌,
}
use moocbt.Word.{add64, sub64}
use moocbt.Tracer.{Bio, SnapDevice}

-- a clone, with the sector and the size that it has when it is submitted
pub record Clone : Type 0 where
  pub id : ℕ
  pub sect : ℕ
  pub size : ℕ

-- `snap_trace_bio` has sectors left to clone, or has returned
pub data Phase : Type 0 where
  submitting : (start_sect : ℕ) (pages : ℕ) → Phase
  returned : Phase

-- The `struct tracing_params` of a write, with what its clones change of the device: `pending` are the
-- clones submitted and not completed, `bio_sects` is the list of the parameters, `cow_bios` are the
-- clones on `sd_cow_bios`, and `orig_bios` counts how often the write was put on `sd_orig_bios`.
pub record Trace : Type 0 where
  pub phase : Phase
  pub refs : ℕ
  pub bio_sects : List Clone
  pub next_id : ℕ
  pub pending : List Clone
  pub cow_bios : List Clone
  pub orig_bios : ℕ
  pub submitted : ℕ
  pub received : ℕ
  pub fail_code : ℕ

-- `ROUND_DOWN` and `ROUND_UP` on `sector_t`
unfoldable pub round_down : ℕ → ℕ → ℕ
round_down x chunk = x / chunk * chunk

unfoldable pub round_up : ℕ → ℕ → ℕ
round_up x chunk = sub64 (add64 x chunk) 1 / chunk * chunk

-- `start_sect`, `end_sect` and `pages` of `snap_trace_bio`; `pages` is an `unsigned int`
unfoldable pub start_sect : ℕ → ℕ → ℕ
unfolding round_down
start_sect off sector = add64 (round_down (sub64 sector off) 8) off

unfoldable pub end_sect : ℕ → ℕ → ℕ → ℕ
unfolding round_up
end_sect off sector size = add64 (round_up (sub64 (add64 sector (size / 512)) off) 8) off

unfoldable pub pages_of : ℕ → ℕ → ℕ → ℕ
unfolding start_sect end_sect
pages_of off sector size = sub64 (end_sect off sector size) (start_sect off sector) / 8 % 2 ^ 32

-- `tp_alloc`: the parameters hold one reference
unfoldable pub tp_alloc : ℕ → ℕ → Trace
tp_alloc start pages = record {
  phase = submitting start pages;
  refs = 1;
  bio_sects = [];
  next_id = 0;
  pending = [];
  cow_bios = [];
  orig_bios = 0;
  submitted = 0;
  received = 0;
  fail_code = 0;
}

-- `tp_get`
unfoldable pub tp_get : Trace → Trace
tp_get t = record t { refs = t.refs + 1 }

-- `tp_put`: the last reference lets the write through; to drop one of none is a fault
unfoldable pub tp_put : Trace → Option Trace
tp_put t =
    if t.refs == 0
    then none
    else if t.refs == 1
    then some (record t { refs = 0; orig_bios = t.orig_bios + 1; bio_sects = [] })
    else some (record t { refs = t.refs - 1 })

-- `tp_add`, when its allocation succeeds
unfoldable pub tp_add : Clone → Trace → Trace
tp_add c t = record t { bio_sects = t.bio_sects ++ (c ∷ []) }

-- `tracer_set_fail_state`
unfoldable pub fail_with : ℕ → Trace → Trace
fail_with e t = if t.fail_code == 0 then record t { fail_code = e } else t

-- what the kernel answers while a clone is made: whether there is room for the bio, for its i-th page and
-- for the node of the list, and whether `bio_add_page` takes the i-th page
pub record Round : Type 0 where
  pub bio_ok : Bool
  pub page_ok : ℕ → Bool
  pub takes : ℕ → Bool
  pub map_ok : Bool

-- the loop of `bio_make_read_clone`, with so many pages to go: the bytes of the clone
unfoldable pub fill : Round → ℕ → ℕ → ℕ → Result ℕ
fill r zero i total = ok total
fill r (suc n) i total =
    let rest = fill r n (i + 1) (total + 4096) in
    if not (r.page_ok i) then err enomem else if not (r.takes i) then ok total else rest

-- `bio_make_read_clone`; `max_pages` is `BIO_MAX_VECS`
unfoldable pub make_read_clone : ℕ → Round → ℕ → Result ℕ
unfolding fill
make_read_clone max_pages r pages =
    if not r.bio_ok then err enomem else fill r (min pages max_pages) 0 0

-- `snap_trace_bio` returns, with the reference that it drops as its last act
abbrev pub leave : Trace → Trace
leave t = record t { phase = returned }

abbrev pub put_again : Option Trace → Option Trace
put_again none = none
put_again (some t) = tp_put t

-- `tp_add` of the clone, and its submission
unfoldable pub send : ℕ → ℕ → Trace → Trace
unfolding tp_add
send start bytes t =
    let c : Clone = record { id = t.next_id; sect = start; size = bytes } in
    record (tp_add c t) {
      next_id = t.next_id + 1;
      pending = t.pending ++ (c ∷ []);
      submitted = t.submitted + 1;
    }

-- the loop goes on if the clone does not cover all pages
unfoldable pub submit_clone : ℕ → ℕ → ℕ → Trace → Option Trace
unfolding send tp_put
submit_clone start pages bytes t =
    let sent = send start bytes t in
    if ltb (bytes / 4096) pages
    then some
        (record sent { phase = submitting (add64 start (bytes / 512)) (pages - bytes / 4096) })
    else tp_put (leave sent)

-- a round of the loop of `snap_trace_bio`, with its error path
unfoldable pub submit_with : Round → ℕ → ℕ → Result ℕ → Trace → Option Trace
unfolding submit_clone tp_get tp_put fail_with
submit_with r start pages (err e) t = tp_put (leave (fail_with e t))
submit_with r start pages oops t = none
submit_with r start pages (ok bytes) t =
    if r.map_ok
    then submit_clone start pages bytes (tp_get t)
    else put_again (tp_put (leave (fail_with enomem (tp_get t))))

unfoldable pub submit : ℕ → Round → ℕ → ℕ → Trace → Option Trace
unfolding submit_with make_read_clone
submit max_pages r start pages t = submit_with r start pages (make_read_clone max_pages r pages) t

-- the search of `__on_bio_read_complete` in the list of the parameters
unfoldable pub find : ℕ → List Clone → Option Clone
find i [] = none
find i (c ∷ cs) = if c.id == i then some c else find i cs

-- sector and size of the bio are reset; a clone that was read has no sectors left
unfoldable pub reset : ℕ → Clone → Option Clone → Clone
reset off c none = record c { sect = add64 c.sect (c.size / 512); size = 0 }
reset off c (some m) = record c { sect = sub64 m.sect off; size = m.size }

-- `__on_bio_read_complete`
unfoldable pub on_read_complete : ℕ → Clone → ℕ → Trace → Option Trace
unfolding tp_put fail_with reset find
on_read_complete off c e t =
    if e == 0
    then tp_put (record t {
      cow_bios = t.cow_bios ++ (reset off c (find c.id t.bio_sects) ∷ []);
      received = t.received + 1;
    })
    else tp_put (fail_with e t)

unfoldable pub remove : ℕ → List Clone → List Clone
remove i [] = []
remove zero (c ∷ cs) = cs
remove (suc i) (c ∷ cs) = c ∷ remove i cs

-- The write is traced and its clones complete, in any order and also between the rounds of the loop.
pub data Step (off max_pages : ℕ) (t : Trace) : Option Trace → Type 0 where
  submits :
      {start pages : ℕ}
      → t.phase ≡ submitting start pages
      → (r : Round) → Step off max_pages t (submit max_pages r start pages t)
  completes :
      {c : Clone} (i : ℕ)
      → get_elem? t.pending i ≡ some c
      → (e : ℕ)
      → Step off max_pages t (on_read_complete off c e (record t { pending = remove i t.pending }))

-- what can be reached; a fault is `none`
pub data Reach (off max_pages : ℕ) (t : Trace) : Option Trace → Type 0 where
  start : Reach off max_pages t (some t)
  next :
      {u : Trace} {o : Option Trace}
      → Reach off max_pages t (some u)
      → Step off max_pages u o
      → Reach off max_pages t o
