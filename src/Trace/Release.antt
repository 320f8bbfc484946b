-- ===== src/Trace/Release.antt =====
-- When a traced write is let through.
use moocbt.Common.{
  ℕ, ◌+◌, ◌-◌, ◌*◌, ◌/◌, ◌^◌, ◌≡◌, ◌≢◌, ◌≤◌, ◌<◌, refl, List, [], ◌∷◌, Option, none, some, length,
  arith,
}
use moocbt.Trace.{
  Clone, Phase, submitting, returned, Trace, tp_alloc, Step, submits, completes, Reach, start_sect,
  pages_of,
}
use moocbt.Trace.Range.{pages_of_lem}
use moocbt.Trace.Clones.{at, cover}
use moocbt.Trace.Inv.{IsTrace, Traced, held, to_come}
use moocbt.Trace.Submit.{submit-Traced}
use moocbt.Trace.Complete.{on_read_complete-Traced}

-- The blocks were captured before the write was let through: `first` and `sectors` are those of the
-- write, relative to the device.
pub record SafelyTraced (first sectors : ℕ) (t : Trace) : Type 0 where
  pub once : t.orig_bios ≤ 1
  pub quiet : t.orig_bios ≢ 0 → (t.pending ≡ []) × (t.phase ≡ returned)
  pub captured :
      t.orig_bios ≢ 0
      → t.fail_code ≡ 0
      → (k : ℕ) → first ≤ k
      → k < first + sectors
      → cover k t.cow_bios ≡ 1
  pub in_the_end : t.phase ≡ returned → t.pending ≡ [] → t.orig_bios ≡ 1
  pub received : t.fail_code ≡ 0 → t.orig_bios ≢ 0 → t.received ≡ t.submitted

module _ (off start pages : ℕ) (low : off ≤ start) (fits : start + pages * 8 < 2 ^ 64) where
  pub tp_alloc-IsTrace : IsTrace off start pages 0 (tp_alloc start pages)
  unfolding tp_alloc
  tp_alloc-IsTrace = record {
    refs = refl;
    orig = refl;
    rest = (low, refl);
    ids = tt;
    known = tt;
    covered = λ z k. omega arith;
    counted = λ z. refl;
  }

  Step-Traced :
      {max_pages : ℕ} (t : Trace) {o : Option Trace}
      → IsTrace off start pages 0 t
      → Step off max_pages t o
      → Traced off start pages 0 o
  Step-Traced {max_pages} t i (submits {start = s} {pages = n} e r) =
      submit-Traced off start pages fits max_pages r s n t e i
  Step-Traced t i (completes {c} k g e) = on_read_complete-Traced off start pages k e c t g i

  Reach-Traced :
      {max_pages : ℕ} {o : Option Trace}
      → Reach off max_pages (tp_alloc start pages) o
      → Traced off start pages 0 o
  Reach-Traced Reach.start = tp_alloc-IsTrace
  Reach-Traced (Reach.next {u} r s) = Step-Traced u (Reach-Traced r) s

module _ {off start pages : ℕ} (t : Trace) (i : IsTrace off start pages 0 t) where
  nothing_held : t.orig_bios ≢ 0 → (held t.phase ≡ 0) × (length t.pending ≡ 0)
  nothing_held ne = (ground (arith, i.orig, i.refs), ground (arith, i.orig, i.refs))

  not_held : (p : Phase) → held p ≡ 0 → p ≡ returned
  not_held (submitting s n) e = absurd (omega arith)
  not_held returned e = refl

  no_clone : (cs : List Clone) → length cs ≡ 0 → cs ≡ []
  no_clone [] e = refl
  no_clone (c ∷ cs) e = absurd (omega arith)

  pub IsTrace-SafelyTraced :
      (first sectors : ℕ)
      → start ≤ first + off
      → first + off + sectors ≤ start + pages * 8
      → SafelyTraced first sectors t
  IsTrace-SafelyTraced first sectors a b = record {
    once = ground (arith, i.orig);
    quiet = λ ne. (no_clone t.pending (nothing_held ne).1, not_held t.phase (nothing_held ne).0);
    captured = λ ne z k l h.
        let p : t.pending ≡ [] = no_clone t.pending (nothing_held ne).1 in
        let q : t.phase ≡ returned = not_held t.phase (nothing_held ne).0 in
        let c : cover (k + off) t.pending ≡ 0 = rw (p) refl in
        let d : to_come t.phase (k + off) ≡ 0 = rw (q) refl in
        let inside : at start (pages * 8) (k + off) ≡ 1 = ground arith in
        omega (arith, i.covered z k, c, d, inside);
    in_the_end = λ q p.
        let c : held t.phase ≡ 0 = rw (q) refl in
        let d : length t.pending ≡ 0 = rw (p) refl in ground (arith, i.orig, i.refs, c, d);
    received = λ z ne. omega (arith, i.counted z, (nothing_held ne).1);
  }

-- A write of `size` bytes at `sector`, on a device that starts at sector `off`, is traced from `tp_alloc` on,
-- its clones completing at any time and in any order, with errors or without. No reference is dropped that
-- is not held; the write is let through at most once, and only after the loop has returned and
-- every clone has completed; if nothing has failed by then, each of its sectors is in exactly one
-- of the clones on `sd_cow_bios`, and as many clones were received as submitted; and once the loop has
-- returned and no clone is in flight, the write has been let through.
pub Reach-SafelyTraced :
    (off sector size max_pages : ℕ) {o : Option Trace}
    → off ≤ sector
    → sector + size / 512 + 8 < 2 ^ 64
    → size < 2 ^ 32
    → Reach off max_pages (tp_alloc (start_sect off sector) (pages_of off sector size)) o
    → (t : Trace) × (o ≡ some t) × SafelyTraced (sector - off) (size / 512) t
Reach-SafelyTraced off sector size max_pages {o} a b c r =
    let (l1, l2, l3, l4, l5, l6, l7) = pages_of_lem off sector size a b c in
    conclude o
      (Reach-Traced off (start_sect off sector) (pages_of off sector size) l1
        (omega (arith, l7, l6)) r)
      l3 (omega (arith, l5, l7))
  where
    conclude :
        (o : Option Trace)
        → Traced off (start_sect off sector) (pages_of off sector size) 0 o
        → start_sect off sector ≤ sector
        → sector + size / 512 ≤ start_sect off sector + pages_of off sector size * 8
        → (t : Trace) × (o ≡ some t) × SafelyTraced (sector - off) (size / 512) t
    conclude none z l h = absurd z
    conclude (some t) i l h =
        (t, refl, IsTrace-SafelyTraced t i (sector - off) (size / 512) (omega arith) (omega arith))
