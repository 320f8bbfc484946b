-- ===== src/Trace/Submit.antt =====
-- A round of the loop of `snap_trace_bio` keeps the invariant.
use moocbt.Common.{
  ℕ, suc, ◌+◌, ◌-◌, ◌*◌, ◌/◌, ◌^◌, ◌≡◌, ◌≢◌, ◌≤◌, ◌<◌, refl, sym, subst, ap, ◌∙◌, Bool, true, false,
  Bool-cases, inl, inr, List, [], ◌∷◌, ◌++◌, Option, some, Result, ok, err, oops, All, length,
  length-append, if_of_true, if_of_false, enomem, ltb, ◌==◌, if◌then◌else◌, arith,
}
use moocbt.Word.{add64}
use moocbt.Trace.{
  Clone, Phase, submitting, returned, Trace, Round, tp_get, tp_put, tp_add, send, put_again, leave,
  fail_with, submit_clone, submit_with, submit, make_read_clone, find,
}
use moocbt.Trace.Clones.{at, cover-append, All-append, All-mono, OfPages, make_read_clone-OfPages}
use moocbt.Trace.Inv.{
  IsTrace, Traced, RestOf, Known, Older, held, to_come, tp_put-Traced, put_again-Traced,
  tp_get-IsTrace, fail_with-IsTrace, fail_with_lem,
}

pick :
    (b : Bool) (m c : Clone) (o o' : Option Clone)
    → (o ≡ some c → o' ≡ some c)
    → (if b then some m else o) ≡ some c
    → (if b then some m else o') ≡ some c
pick true m c o o' f e = e
pick false m c o o' f e = f e

-- a newer clone does not hide the ones that are in the list
find-append :
    (map : List Clone) (i : ℕ) (c d : Clone)
    → find i map ≡ some c
    → find i (map ++ (d ∷ [])) ≡ some c
unfolding find
find-append [] i c d e = absurd (cc)
find-append (m ∷ map) i c d e = pick (m.id == i) m c _ _ (find-append map i c d) e

find_new :
    (map : List Clone) (c : Clone) → All (Older c.id) map → find c.id (map ++ (c ∷ [])) ≡ some c
unfolding find
find_new [] c a = ground arith
find_new (m ∷ map) c a = ground (arith, find_new map c a.1, a.0)

-- the clone that a round makes
abbrev made : ℕ → ℕ → Trace → Clone
made s p t = record { id = t.next_id; sect = s; size = 4096 * p }

abbrev sent : ℕ → ℕ → Phase → Trace → Trace
sent s p ph t = record t {
  phase = ph;
  bio_sects = t.bio_sects ++ (made s p t ∷ []);
  next_id = t.next_id + 1;
  pending = t.pending ++ (made s p t ∷ []);
  submitted = t.submitted + 1;
}

tp_get-phase : (t : Trace) → (tp_get t).phase ≡ t.phase
unfolding tp_get
tp_get-phase t = refl

module _ (off start pages : ℕ) (fits : start + pages * 8 < 2 ^ 64) where
  sent-IsTrace :
      (s n p extra : ℕ) (ph : Phase) (t : Trace)
      → t.phase ≡ submitting s n
      → extra + held ph ≡ 1
      → RestOf off start pages ph
      → ((k : ℕ) → at s (n * 8) k ≡ at s (p * 8) k + to_come ph k)
      → IsTrace off start pages 1 t
      → IsTrace off start pages extra (sent s p ph t)
  sent-IsTrace s n p extra ph t e x rest split i = record {
    refs = omega (arith, i.refs, held_one, longer);
    orig = ground (arith, i.orig, i.refs);
    rest = rest;
    ids =
        All-append (Older (t.next_id + 1)) t.bio_sects c
          (All-mono (Older t.next_id) (Older (t.next_id + 1)) t.bio_sects (λ d h. omega arith)
            i.ids)
          (omega arith);
    known =
        All-append (Known off map) t.pending c
          (All-mono (Known off t.bio_sects) (Known off map) t.pending
            (λ d h. (find-append t.bio_sects d.id d c h.0, h.1, h.2)) i.known)
          (find_new t.bio_sects c i.ids, here.0, omega (arith, here.1));
    covered = λ ok k. omega (
      arith,
      i.covered ok k,
      came k,
      split (k + off),
      cover-append (k + off) t.pending (c ∷ []),
      size k,
    );
    counted = λ ok. omega (arith, i.counted ok, longer);
  }
    where
      c : Clone
      c = made s p t

      map : List Clone
      map = t.bio_sects ++ (c ∷ [])

      longer : length (t.pending ++ (c ∷ [])) ≡ length t.pending + 1
      longer = length-append t.pending (c ∷ [])

      held_one : held t.phase ≡ 1
      held_one = ap held e

      here : (off ≤ s) × (s + n * 8 ≡ start + pages * 8)
      here = subst (RestOf off start pages) e i.rest

      came : (k : ℕ) → to_come t.phase (k + off) ≡ at s (n * 8) (k + off)
      came k = ap (λ q. to_come q (k + off)) e

      size : (k : ℕ) → at s (4096 * p / 512) (k + off) ≡ at s (p * 8) (k + off)
      size k = ap (λ l. at s l (k + off)) (omega arith)

  submit_clone-Traced :
      (s n p : ℕ) (t : Trace)
      → t.phase ≡ submitting s n
      → p ≤ n
      → IsTrace off start pages 1 t
      → Traced off start pages 0 (submit_clone s n (4096 * p) t)
  unfolding submit_clone send tp_add
  submit_clone-Traced s n p t e le i =
      let (low, sum) : (off ≤ s) × (s + n * 8 ≡ start + pages * 8) =
        subst (RestOf off start pages) e i.rest in
      let step : add64 s (4096 * p / 512) ≡ s + p * 8 = omega (arith, sum) in
      let less : n - 4096 * p / 4096 ≡ n - p = omega arith in
      elim (Bool-cases (ltb (4096 * p / 4096) n)) [
        | inl h ↦
            let more : p < n = ground arith in
            subst (Traced off start pages 0) (sym (if_of_true _ _ (ltb (4096 * p / 4096) n) h)) (
              sent-IsTrace s n p 0 (submitting (add64 s (4096 * p / 512)) (n - 4096 * p / 4096)) t e
                refl (omega (arith, step, low), omega (arith, step, less, sum))
                (λ k. rw (step, less) (ground arith)) i)
        | inr h ↦
            let whole : p ≡ n = ground arith in
            subst (Traced off start pages 0) (sym (if_of_false _ _ (ltb (4096 * p / 4096) n) h)) (
              tp_put-Traced off start pages 0 (sent s p returned t)
                (sent-IsTrace s n p 1 returned t e refl tt (λ k. rw (whole) (omega arith)) i))
      ]

  -- `snap_trace_bio` gives up on an error, with its reference and `extra` more to drop
  leave-IsTrace :
      (extra s n : ℕ) (t : Trace)
      → t.phase ≡ submitting s n
      → t.fail_code ≢ 0
      → IsTrace off start pages extra t
      → IsTrace off start pages (suc extra) (leave t)
  leave-IsTrace extra s n t e ne i =
      let held_one : held t.phase ≡ 1 = ap held e in
      record {
        refs = omega (arith, i.refs);
        orig = i.orig;
        rest = tt;
        ids = i.ids;
        known = i.known;
        covered = λ z. absurd (ne z);
        counted = λ z. absurd (ne z);
      }

  failed-Traced :
      (extra e s n : ℕ) (t : Trace)
      → e ≢ 0
      → t.phase ≡ submitting s n
      → IsTrace off start pages extra t
      → Traced off start pages extra (tp_put (leave (fail_with e t)))
  failed-Traced extra e s n t ne ph i =
      let (bad, same, _, _) = fail_with_lem e t ne in
      tp_put-Traced off start pages extra (leave (fail_with e t)) (
        leave-IsTrace extra s n (fail_with e t) (same ∙ ph) bad
          (fail_with-IsTrace off start pages extra e t ne i))

  submit_with-Traced :
      (r : Round) (s n : ℕ) (o : Result ℕ) (t : Trace)
      → OfPages n o
      → t.phase ≡ submitting s n
      → IsTrace off start pages 0 t
      → Traced off start pages 0 (submit_with r s n o t)
  unfolding submit_with
  submit_with-Traced r s n (err e) t ne ph i = failed-Traced 0 e s n t ne ph i
  submit_with-Traced r s n oops t z ph i = absurd z
  submit_with-Traced r s n (ok bytes) t (p, e, le) ph i = choose r.map_ok
    where
      held_one : held t.phase ≡ 1
      held_one = ap held ph

      got : IsTrace off start pages 1 (tp_get t)
      got = tp_get-IsTrace off start pages 0 t (λ z. omega (arith, i.refs, held_one)) i

      same : (tp_get t).phase ≡ submitting s n
      same = tp_get-phase t ∙ ph

      choose :
          (c : Bool)
          → Traced off start pages 0 (
              if c
              then submit_clone s n bytes (tp_get t)
              else put_again (tp_put (leave (fail_with enomem (tp_get t)))))
      choose true =
          subst (λ b. Traced off start pages 0 (submit_clone s n b (tp_get t))) (sym e)
            (submit_clone-Traced s n p (tp_get t) same le got)
      choose false =
          put_again-Traced off start pages 0 (tp_put (leave (fail_with enomem (tp_get t))))
            (failed-Traced 1 enomem s n (tp_get t) (λ z. omega arith) same got)

  pub submit-Traced :
      (max_pages : ℕ) (r : Round) (s n : ℕ) (t : Trace)
      → t.phase ≡ submitting s n
      → IsTrace off start pages 0 t
      → Traced off start pages 0 (submit max_pages r s n t)
  unfolding submit
  submit-Traced max_pages r s n t ph i =
      submit_with-Traced r s n (make_read_clone max_pages r n) t
        (make_read_clone-OfPages max_pages r n) ph i
