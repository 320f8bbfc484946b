-- ===== src/Cow/Snapshot/Sequence.antt =====
-- A file in snapshot mode refines a map in which the first data of each block wins.
use moocbt.Common.{
  ℕ, ◌*◌, ◌<◌, ◌≡◌, inl, inr, refl, ap₂, ◌∙◌, List, [], ◌∷◌, Option, length, All, Bool-cases, ◌==◌,
  ==→eq, if◌then◌else◌,
}
use moocbt.Kernel.{Kernel, IsKernel}
use moocbt.Cow.State.{World}
use moocbt.Cow.Mapping.{write_current}
use moocbt.Cow.Inv.{Ends, Ends-and_then, Ends-mono}
use moocbt.Cow.Snapshot.{first, saved, InRange, IsSnapshot, Saves, spec_writes, run_writes}
use moocbt.Cow.Snapshot.First.{SavedOne, NothingLost}
use moocbt.Cow.Snapshot.Refine.{write_current-Ends}

-- the blocks of a sequence lie on a device of `n` blocks, and each data is a block long
abbrev pub Fits : ℕ → Saves → Type 0
Fits n = All (λ (e : ℕ × List ℕ). (e.0 < n) × (length e.1 ≡ 4096))

module _ {F : Type 0} {K : Kernel F} (L : IsKernel K) where
  -- the specification on a device of `n` blocks looks at those blocks only
  spec_writes_congr :
      (n : ℕ) (ws : Saves) (u v : ℕ → Option (List ℕ))
      → Fits n ws
      → ((p : ℕ) → p < n → u p ≡ v p)
      → (p : ℕ) → p < n
      → spec_writes ws u p ≡ spec_writes ws v p
  unfolding spec_writes
  spec_writes_congr n [] u v fit e p h = e p h
  spec_writes_congr n ((b, buf) ∷ ws) u v fit e p h =
      spec_writes_congr n ws (λ p. if p == b then first (u b) buf else u p)
        (λ p. if p == b then first (v b) buf else v p) fit.1 (λ p h. rw (e b (fit.0.0), e p h)) p h

  one_lost_nothing :
      (w w' : World F) (b : ℕ) (buf : List ℕ) → SavedOne L w b buf w' → NothingLost L w w'
  one_lost_nothing w w' b buf o pos d h e = elim (Bool-cases (pos == b)) [
    | inr ne ↦ o.view pos h ∙ rw (ne, e)
    | inl eq ↦ o.view pos h ∙ rw eq (rw (← ==→eq pos b eq, e))
  ]

  -- Any sequence of `cow_write_current` calls, on a file in snapshot mode and on blocks of the device,
  -- never runs into a fault. If it succeeds the file is still one in snapshot mode, and each block of
  -- the device holds what the specification says: the data that it held at the start, or else the
  -- first data that the sequence wrote for it. If a call fails, no data that was saved is lost.
  pub run_writes-Ends :
      (ws : Saves) (w : World F)
      → IsSnapshot L w
      → Fits (w.cm.sect_size * w.cm.total_sects) ws
      → Ends
          (NothingLost L w)
          (λ _ w'.
            IsSnapshot L w'
            × ((pos : ℕ) → InRange L w pos → saved L w' pos ≡ spec_writes ws (saved L w) pos))
          (run_writes K ws w)
  unfolding run_writes spec_writes
  run_writes-Ends [] w s fit = (s, λ pos h. refl)
  run_writes-Ends ((b, buf) ∷ ws) w s fit =
      Ends-and_then (NothingLost L w) (λ _ w'. SavedOne L w b buf w')
        (λ _ w'.
          IsSnapshot L w'
          × ((pos : ℕ)
              → InRange L w pos
              → saved L w' pos ≡ spec_writes ((b, buf) ∷ ws) (saved L w) pos))
        (write_current K b buf w) (λ _. run_writes K ws)
        (write_current-Ends L w b buf s fit.0.0 fit.0.1)
        (λ _ w1 o.
          then_run w1 o (run_writes-Ends ws w1 o.snapshot (rw (o.geometry.0, o.geometry.1) fit.1)))
    where
      then_run :
          (w1 : World F)
          → SavedOne L w b buf w1
          → Ends
              (NothingLost L w1)
              (λ _ w'.
                IsSnapshot L w'
                × ((pos : ℕ) → InRange L w1 pos → saved L w' pos ≡ spec_writes ws (saved L w1) pos))
              (run_writes K ws w1)
          → Ends
              (NothingLost L w)
              (λ _ w'.
                IsSnapshot L w'
                × ((pos : ℕ)
                    → InRange L w pos
                    → saved L w' pos ≡ spec_writes ((b, buf) ∷ ws) (saved L w) pos))
              (run_writes K ws w1)
      then_run w1 o ends =
          let range : w1.cm.sect_size * w1.cm.total_sects ≡ w.cm.sect_size * w.cm.total_sects =
            ap₂ ◌*◌ o.geometry.0 o.geometry.1 in
          Ends-mono (NothingLost L w1) (NothingLost L w)
            (λ _ w'.
              IsSnapshot L w'
              × ((pos : ℕ) → InRange L w1 pos → saved L w' pos ≡ spec_writes ws (saved L w1) pos))
            (λ _ w'.
              IsSnapshot L w'
              × ((pos : ℕ)
                  → InRange L w pos
                  → saved L w' pos ≡ spec_writes ((b, buf) ∷ ws) (saved L w) pos))
            (run_writes K ws w1) ends
            (λ w2 n pos d h e. n pos d (rw range h) (one_lost_nothing w w1 b buf o pos d h e))
            (λ _ w2 p. (
              p.0,
              λ pos h.
                  p.1 pos (rw range h)
                  ∙ spec_writes_congr (w.cm.sect_size * w.cm.total_sects) ws (saved L w1)
                      (λ p. if p == b then first (saved L w b) buf else saved L w p) fit.1
                      (λ p q. o.view p q) pos h,
            ))
