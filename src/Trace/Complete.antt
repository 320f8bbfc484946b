-- ===== src/Trace/Complete.antt =====
-- The completion of a clone keeps the invariant.
use moocbt.Common.{
  ℕ, ◌+◌, ◌-◌, ◌/◌, ◌≡◌, ◌≢◌, refl, ap, ◌∙◌, Bool, true, false, [], ◌∷◌, ◌++◌, some, All-get_elem?,
  get_elem?, ◌==◌, if◌then◌else◌, arith,
}
use moocbt.Word.{sub64}
use moocbt.Trace.{Clone, Trace, tp_put, fail_with, find, reset, on_read_complete, remove}
use moocbt.Trace.Clones.{at, cover, cover-append, cover-remove, length-remove, All-remove}
use moocbt.Trace.Inv.{IsTrace, Traced, Known, tp_put-Traced}

reset_known : (off : ℕ) (c : Clone) → reset off c (some c) ≡ record c { sect = sub64 c.sect off }
unfolding reset
reset_known off c = refl

module _ (off start pages : ℕ) where
  -- the state in which a clone has completed, with the clones that are then on `sd_cow_bios`
  captured :
      (i : ℕ) (c : Clone) (t : Trace)
      → get_elem? t.pending i ≡ some c
      → IsTrace off start pages 0 t
      → IsTrace off start pages 1 (record t {
        pending = remove i t.pending;
        cow_bios = t.cow_bios ++ (reset off c (find c.id t.bio_sects) ∷ []);
        received = t.received + 1;
      })
  captured i c t g j = record {
    refs = omega (arith, j.refs, length-remove i t.pending g);
    orig = j.orig;
    rest = j.rest;
    ids = j.ids;
    known = All-remove (Known off t.bio_sects) i t.pending j.known;
    covered = λ ok k. omega (arith, j.covered ok k, cover-remove (k + off) i t.pending g, added k);
    counted = λ ok. omega (arith, j.counted ok, length-remove i t.pending g);
  }
    where
      here : Known off t.bio_sects c
      here = All-get_elem? (Known off t.bio_sects) t.pending i j.known g

      is_reset : reset off c (find c.id t.bio_sects) ≡ record c { sect = sub64 c.sect off }
      is_reset = ap (reset off c) here.0 ∙ reset_known off c

      moved : (k : ℕ) → at (sub64 c.sect off) (c.size / 512) k ≡ at c.sect (c.size / 512) (k + off)
      moved k =
          let e : sub64 c.sect off ≡ c.sect - off = omega (arith, here.1, here.2) in
          rw (e) (ground (arith, here.1, here.2))

      added :
          (k : ℕ)
          → cover k (t.cow_bios ++ (reset off c (find c.id t.bio_sects) ∷ []))
            ≡ cover k t.cow_bios + at c.sect (c.size / 512) (k + off)
      added k = rw (is_reset) (
          omega
            (arith, cover-append k t.cow_bios (record c { sect = sub64 c.sect off } ∷ []), moved k))

  failed :
      (i f : ℕ) (c : Clone) (t : Trace)
      → f ≢ 0
      → get_elem? t.pending i ≡ some c
      → IsTrace off start pages 0 t
      → IsTrace off start pages 1 (record t { pending = remove i t.pending; fail_code = f })
  failed i f c t ne g j = record {
    refs = omega (arith, j.refs, length-remove i t.pending g);
    orig = j.orig;
    rest = j.rest;
    ids = j.ids;
    known = All-remove (Known off t.bio_sects) i t.pending j.known;
    covered = λ z. absurd (ne z);
    counted = λ z. absurd (ne z);
  }

  lost :
      (i e : ℕ) (c : Clone) (t : Trace)
      → e ≢ 0
      → get_elem? t.pending i ≡ some c
      → IsTrace off start pages 0 t
      → IsTrace off start pages 1 (fail_with e (record t { pending = remove i t.pending }))
  unfolding fail_with
  lost i e c t ne g j = choose (t.fail_code == 0) refl
    where
      choose :
          (b : Bool)
          → (t.fail_code == 0) ≡ b
          → IsTrace off start pages 1 (
              if b
              then record t { pending = remove i t.pending; fail_code = e }
              else record t { pending = remove i t.pending })
      choose true h = failed i e c t ne g j
      choose false h = failed i t.fail_code c t (λ z. ground arith) g j

  pub on_read_complete-Traced :
      (i e : ℕ) (c : Clone) (t : Trace)
      → get_elem? t.pending i ≡ some c
      → IsTrace off start pages 0 t
      → Traced off start pages 0
          (on_read_complete off c e (record t { pending = remove i t.pending }))
  unfolding on_read_complete
  on_read_complete-Traced i e c t g j = choose (e == 0) refl
    where
      choose :
          (b : Bool)
          → (e == 0) ≡ b
          → Traced off start pages 0 (
              if b
              then tp_put (record t {
                pending = remove i t.pending;
                cow_bios = t.cow_bios ++ (reset off c (find c.id t.bio_sects) ∷ []);
                received = t.received + 1;
              })
              else tp_put (fail_with e (record t { pending = remove i t.pending })))
      choose true h = tp_put-Traced off start pages 0 _ (captured i c t g j)
      choose false h = tp_put-Traced off start pages 0 _ (lost i e c t (λ z. ground arith) g j)
