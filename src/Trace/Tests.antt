-- ===== src/Trace/Tests.antt =====
-- A write of two blocks, with clones of a page each.
use moocbt.Common.{
  ◌+◌, ◌-◌, ◌*◌, ◌/◌, ◌%◌, ◌≤◌, ◌<◌, ◌≡◌, refl, true, false, List, [], ◌∷◌, some, ◌==◌,
  if◌then◌else◌, arith,
}
use moocbt.Trace.{
  Trace, Round, submitting, tp_alloc, start_sect, end_sect, pages_of, submit, round_down, round_up,
  Reach, submits,
}
use moocbt.Trace.Range.{pages_of_lem}
use moocbt.Trace.Release.{SafelyTraced, Reach-SafelyTraced}
use moocbt.Tracer.{SnapDevice, Bio}
use moocbt.Trace.Marks.{Segment, inc_trace_bio, inc_segments, flush, inc_make_sset, inc_out}
use moocbt.Trace.Exact.{sets_at, changed_at, inc_trace_bio_lem}
use moocbt.Trace.Loop.{Returned, run_rounds, run_rounds-Returned}

pages_of_lem_example :
    (let start = start_sect 100 109 in
      let end = end_sect 100 109 4096 in
      (100 ≤ start)
      × ((start - 100) % 8 ≡ 0)
      × (start ≤ 109)
      × (109 < start + 8)
      × (109 + 4096 / 512 ≤ end)
      × (end < 109 + 4096 / 512 + 8)
      × (start + pages_of 100 109 4096 * 8 ≡ end))
pages_of_lem_example = pages_of_lem 100 109 4096 (omega arith) (omega arith) (omega arith)

-- the kernel answers with success, and a bio takes one page
abbrev one_page : Round
one_page = record {
  bio_ok = true;
  page_ok = λ i. true;
  takes = λ i. if i == 0 then true else false;
  map_ok = true;
}

run_rounds-Returned_example :
    Returned 100 256 (tp_alloc 108 2) (run_rounds 256 (λ i. one_page) (2 + 1) 0 (tp_alloc 108 2))
run_rounds-Returned_example =
    run_rounds-Returned 100 108 2 256 (λ i. one_page) (omega arith) (omega arith) (omega arith)
      (omega arith) (λ i. refl)

abbrev initial : Trace
initial = tp_alloc (start_sect 100 109) (pages_of 100 109 4096)

first_phase : initial.phase ≡ submitting 108 2
unfolding tp_alloc start_sect end_sect pages_of round_down round_up
first_phase = refl

one_round : Reach 100 256 initial (submit 256 one_page 108 2 initial)
one_round = Reach.next Reach.start (submits first_phase one_page)

Reach-SafelyTraced_example :
    (t : Trace) × (submit 256 one_page 108 2 initial ≡ some t)
    × SafelyTraced (109 - 100) (4096 / 512) t
Reach-SafelyTraced_example =
    Reach-SafelyTraced 100 109 4096 256 (omega arith) (omega arith) (omega arith) one_round

abbrev marked : SnapDevice
marked = record {
  sd_fail_code = 0;
  sd_active = true;
  active = false;
  unverified = false;
  sd_sect_off = 100;
  sd_size = 1000;
  base_queue = 1;
}

abbrev write : Bio
write = record { sector = 116; size = 12288; is_write = true; is_discard = false; queue = 1 }

-- the page in the middle is of the cow file
abbrev segments : List Segment
segments =
    record { len = 4096; inode = 0 }
    ∷ record { len = 4096; inode = 9 }
    ∷ record { len = 4096; inode = 5 }
    ∷ []

not_failed : (inc_trace_bio (λ n. true) 9 false write segments marked []).0.sd_fail_code ≡ 0
unfolding inc_trace_bio inc_segments flush inc_make_sset inc_out
not_failed = refl

inc_trace_bio_lem_example :
    sets_at 19 (inc_trace_bio (λ n. true) 9 false write segments marked []).1
    ≡ sets_at 19 [] + changed_at 9 false write segments (19 + 100)
inc_trace_bio_lem_example =
    inc_trace_bio_lem (λ n. true) 9 false write segments marked [] (omega arith) (omega arith)
      (omega arith) (omega arith) (omega arith) refl not_failed 19
