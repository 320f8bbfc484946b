-- ===== src/Trace/Inv.antt =====
-- What holds of a traced write in every state: who holds the references, and which sectors are read.
use moocbt.Common.{
  ℕ, zero, suc, ◌+◌, ◌-◌, ◌*◌, ◌^◌, ◌≡◌, ◌≢◌, ◌≤◌, ◌<◌, refl, Bool, true, false, List, [], ◌∷◌,
  Option, none, some, All, length, ◌==◌, if◌then◌else◌, arith, if_of_true, if_of_false, ap, ◌∙◌,
}
use moocbt.Trace.{
  Clone, Phase, submitting, returned, Trace, tp_get, tp_put, put_again, fail_with, find,
}
use moocbt.Trace.Clones.{at, cover}

-- the reference of `snap_trace_bio` itself
abbrev pub held : Phase → ℕ
held (submitting s n) = 1
held returned = 0

-- the sectors that are still to be cloned
abbrev pub to_come : Phase → ℕ → ℕ
to_come (submitting s n) k = at s (n * 8) k
to_come returned k = 0

abbrev pub RestOf : ℕ → ℕ → ℕ → Phase → Type 0
RestOf off start pages (submitting s n) = (off ≤ s) × (s + n * 8 ≡ start + pages * 8)
RestOf off start pages returned = Unit

-- the list of the parameters still knows the clone
abbrev pub Known : ℕ → List Clone → Clone → Type 0
Known off map c = (find c.id map ≡ some c) × (off ≤ c.sect) × (c.sect < 2 ^ 64)

abbrev pub Older : ℕ → Clone → Type 0
Older n c = c.id < n

-- The invariant of a write of `pages` pages from `start`. Each clone in flight holds a reference, and so
-- do `extra` pieces of code that are about to drop theirs; the write has been let through, once, if
-- there is none left; and as long as nothing has failed, each sector of the device that the
-- clones must read is in just one of: the clones in flight, those on `sd_cow_bios`, and what is to be
-- cloned yet.
pub record IsTrace (off start pages extra : ℕ) (t : Trace) : Type 0 where
  pub refs : t.refs ≡ extra + (held t.phase + length t.pending)
  pub orig : t.orig_bios ≡ (if t.refs == 0 then 1 else 0)
  pub rest : RestOf off start pages t.phase
  pub ids : All (Older t.next_id) t.bio_sects
  pub known : All (Known off t.bio_sects) t.pending
  pub covered :
      t.fail_code ≡ 0
      → (k : ℕ)
      → cover (k + off) t.pending + (cover k t.cow_bios + to_come t.phase (k + off))
        ≡ at start (pages * 8) (k + off)
  pub counted : t.fail_code ≡ 0 → t.submitted ≡ t.received + length t.pending

-- the state after a reference is dropped and `n` are left
abbrev pub dropped : ℕ → Trace → Trace
dropped zero t = record t { refs = 0; orig_bios = t.orig_bios + 1; bio_sects = [] }
dropped (suc n) t = record t { refs = suc n }

tp_put_lem : (n : ℕ) (t : Trace) → t.refs ≡ suc n → tp_put t ≡ some (dropped n t)
unfolding tp_put
tp_put_lem zero t e =
    if_of_false _ _ (t.refs == 0) (ground arith) ∙ if_of_true _ _ (t.refs == 1) (ground arith)
tp_put_lem (suc n) t e =
    let less : t.refs - 1 ≡ suc n = omega arith in
    if_of_false _ _ (t.refs == 0) (ground arith)
    ∙ (if_of_false _ _ (t.refs == 1) (ground arith) ∙ ap (λ r. some (record t { refs = r })) less)

All_of_none : (P : Clone → Type 0) (cs : List Clone) → length cs ≡ 0 → All P cs
All_of_none P [] e = tt
All_of_none P (c ∷ cs) e = absurd (omega arith)

-- no fault, and the invariant with so many references about to be dropped
abbrev pub Traced : (off start pages extra : ℕ) → Option Trace → Type 0
Traced off start pages extra none = ⊥
Traced off start pages extra (some t) = IsTrace off start pages extra t

module _ (off start pages : ℕ) where
  dropped-IsTrace :
      (n extra : ℕ) (t : Trace)
      → t.refs ≡ suc n
      → IsTrace off start pages (suc extra) t
      → IsTrace off start pages extra (dropped n t)
  dropped-IsTrace zero extra t e i = record {
    refs = omega (arith, i.refs);
    orig = ground (arith, i.orig);
    rest = i.rest;
    ids = tt;
    known = All_of_none _ t.pending (omega (arith, i.refs));
    covered = i.covered;
    counted = i.counted;
  }
  dropped-IsTrace (suc n) extra t e i = record {
    refs = omega (arith, i.refs);
    orig = ground (arith, i.orig);
    rest = i.rest;
    ids = i.ids;
    known = i.known;
    covered = i.covered;
    counted = i.counted;
  }

  -- to drop a reference is never a fault
  pub tp_put-Traced :
      (extra : ℕ) (t : Trace)
      → IsTrace off start pages (suc extra) t
      → Traced off start pages extra (tp_put t)
  tp_put-Traced extra t i =
      let n = extra + (held t.phase + length t.pending) in
      let e : t.refs ≡ suc n = omega (arith, i.refs) in
      rw (tp_put_lem n t e) (dropped-IsTrace n extra t e i)

  pub put_again-Traced :
      (extra : ℕ) (o : Option Trace)
      → Traced off start pages (suc extra) o
      → Traced off start pages extra (put_again o)
  put_again-Traced extra none i = i
  put_again-Traced extra (some t) i = tp_put-Traced extra t i

  -- taking a reference, and setting the fail code
  pub tp_get-IsTrace :
      (extra : ℕ) (t : Trace)
      → t.refs ≢ 0
      → IsTrace off start pages extra t
      → IsTrace off start pages (suc extra) (tp_get t)
  unfolding tp_get
  tp_get-IsTrace extra t ne i = record {
    refs = omega (arith, i.refs);
    orig = ground (arith, i.orig, i.refs);
    rest = i.rest;
    ids = i.ids;
    known = i.known;
    covered = i.covered;
    counted = i.counted;
  }

  set_code :
      (extra e : ℕ) (t : Trace)
      → e ≢ 0
      → IsTrace off start pages extra t
      → IsTrace off start pages extra (record t { fail_code = e })
  set_code extra e t ne i = record {
    refs = i.refs;
    orig = i.orig;
    rest = i.rest;
    ids = i.ids;
    known = i.known;
    covered = λ z. absurd (ne z);
    counted = λ z. absurd (ne z);
  }

  pub fail_with-IsTrace :
      (extra e : ℕ) (t : Trace)
      → e ≢ 0
      → IsTrace off start pages extra t
      → IsTrace off start pages extra (fail_with e t)
  unfolding fail_with
  fail_with-IsTrace extra e t ne i = choose (t.fail_code == 0)
    where
      choose :
          (c : Bool) → IsTrace off start pages extra (if c then record t { fail_code = e } else t)
      choose true = set_code extra e t ne i
      choose false = i

-- The fail code is set.
pub fail_with_lem :
    (e : ℕ) (t : Trace)
    → e ≢ 0
    → ((fail_with e t).fail_code ≢ 0)
      × ((fail_with e t).phase ≡ t.phase)
      × ((fail_with e t).pending ≡ t.pending)
      × ((fail_with e t).bio_sects ≡ t.bio_sects)
unfolding fail_with
fail_with_lem e t ne = choose (t.fail_code == 0) refl
  where
    choose :
        (c : Bool)
        → (t.fail_code == 0) ≡ c
        → (let u = if c then record t { fail_code = e } else t in
            (u.fail_code ≢ 0)
            × (u.phase ≡ t.phase)
            × (u.pending ≡ t.pending)
            × (u.bio_sects ≡ t.bio_sects))
    choose true h = (ne, refl, refl, refl)
    choose false h = (λ z. absurd (ground arith), refl, refl, refl)
