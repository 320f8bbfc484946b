-- ===== src/Cow/Snapshot/Refine.antt =====
-- `cow_write_current` on a file in snapshot mode: the first data of a block wins.
use moocbt.Common.{
  ℕ, ◌*◌, ◌+◌, ◌/◌, ◌%◌, ◌≤◌, ◌<◌, ◌≡◌, ◌⊎◌, inl, inr, refl, ap, ◌∙◌, sym, true, false, not, List,
  length, arith, Bool-cases, ◌==◌, ==→eq, if◌then◌else◌,
}
use moocbt.Kernel.{Kernel, IsKernel}
use moocbt.Cow.State.{World, pure, and_then, ◌>>◌}
use moocbt.Cow.Mapping.{
  write_current, write_current_mapping, write_mapping, write_data, read_mapping,
}
use moocbt.Cow.Mapping.Lookup.{read_mapping-Ends, section_of_block}
use moocbt.Cow.Mapping.Store.{Sets, SetsOrKeeps, write_mapping-Ends}
use moocbt.Cow.Inv.{Ends, Ends-and_then, Ends-mono, entry, mapping, Keeps}
use moocbt.Cow.Snapshot.{first, saved, InRange, IsSnapshot}
use moocbt.Cow.Snapshot.Append.{write_data_cases}
use moocbt.Cow.Snapshot.First.{
  SavedOne, NothingLost, Keeps-saved, Keeps-IsSnapshot, nothing_lost, saved_one,
}

module _ {F : Type 0} {K : Kernel F} (L : IsKernel K) where
  lost_after :
      {w w1 : World F} (w2 : World F)
      → IsSnapshot L w
      → Keeps L w w1
      → NothingLost L w1 w2
      → NothingLost L w w2
  lost_after {w} {w1} w2 s k n pos d h e =
      let same_range : w1.cm.sect_size * w1.cm.total_sects ≡ w.cm.sect_size * w.cm.total_sects =
        ap (λ c. c.sect_size * c.total_sects) k.same.fixed in
      n pos d (rw same_range h) (Keeps-saved L pos s k h ∙ e)

  saved_after :
      {w w1 w2 : World F} (b : ℕ) (buf : List ℕ)
      → IsSnapshot L w
      → InRange L w b
      → Keeps L w w1
      → SavedOne L w1 b buf w2
      → SavedOne L w b buf w2
  saved_after {w} {w1} b buf s h k o =
      let same_range : w1.cm.sect_size * w1.cm.total_sects ≡ w.cm.sect_size * w.cm.total_sects =
        ap (λ c. c.sect_size * c.total_sects) k.same.fixed in
      record {
        snapshot = o.snapshot;
        geometry = (
          o.geometry.0 ∙ ap (λ c. c.sect_size) k.same.fixed,
          o.geometry.1 ∙ ap (λ c. c.total_sects) k.same.fixed,
        );
        view = λ pos q.
            o.view pos (rw same_range q) ∙ rw (Keeps-saved L b s k h, Keeps-saved L pos s k q);
      }

  -- the data is appended once the mapping is set
  append-Ends :
      (w : World F) (b : ℕ) (buf : List ℕ) (w2 : World F)
      → IsSnapshot L w
      → InRange L w b
      → mapping L w b ≡ 0
      → Sets L w (b / w.cm.sect_size) (b % w.cm.sect_size) w.cm.curr_pos w2
      → length buf ≡ 4096
      → Ends (NothingLost L w) (λ _ w'. SavedOne L w b buf w') (write_data K buf w2)
  append-Ends w b buf w2 s h unset st len =
      let head : w2.cm.curr_pos ≡ w.cm.curr_pos = ap (λ c. c.curr_pos) st.fixed in
      let (f, frame, r) = write_data_cases L w2 buf st.valid (omega (arith, s.head_fits)) len in
      let frame' : (p : ℕ)
          → (p < w.cm.curr_pos * 4096) ⊎ (w.cm.curr_pos * 4096 + 4096 ≤ p)
          → L.content f p ≡ L.content w2.sys p =
        λ p q. frame p (rw head q) in
      elim r [
        | inr (e, fails) ↦ rw fails (nothing_lost L w b s h unset w2 st f frame')
        | inl (works, stored, room) ↦
            rw works (saved_one L w b s h unset w2 st f frame' buf stored len room)
      ]

  -- `__cow_write_current_mapping` and `__cow_write_data`, for a block that has no mapping
  save-Ends :
      (w : World F) (b : ℕ) (buf : List ℕ)
      → IsSnapshot L w
      → InRange L w b
      → mapping L w b ≡ 0
      → length buf ≡ 4096
      → Ends
          (NothingLost L w)
          (λ _ w'. SavedOne L w b buf w')
          (and_then (write_mapping K b w.cm.curr_pos w) (λ _. write_data K buf))
  save-Ends w b buf s h unset len =
      Ends-and_then (NothingLost L w)
        (λ _ w2. Sets L w (b / w.cm.sect_size) (b % w.cm.sect_size) w.cm.curr_pos w2)
        (λ _ w'. SavedOne L w b buf w') (write_mapping K b w.cm.curr_pos w) (λ _. write_data K buf)
        (Ends-mono (SetsOrKeeps L w (b / w.cm.sect_size) (b % w.cm.sect_size) w.cm.curr_pos)
          (NothingLost L w)
          (λ _ w2. Sets L w (b / w.cm.sect_size) (b % w.cm.sect_size) w.cm.curr_pos w2)
          (λ _ w2. Sets L w (b / w.cm.sect_size) (b % w.cm.sect_size) w.cm.curr_pos w2)
          (write_mapping K b w.cm.curr_pos w)
          (write_mapping-Ends L w b w.cm.curr_pos s.valid h (omega (arith, s.head_fits)))
          (λ w2 d. elim d [
            | inl k ↦ λ pos d q e. Keeps-saved L pos s k q ∙ e
            | inr st ↦ nothing_lost L w b s h unset w2 st w2.sys (λ p q. refl)
          ])
          (λ _ w2 st. st))
        (λ _ w2 st. append-Ends w b buf w2 s h unset st len)

  -- `cow_write_current` in snapshot mode, for a block of the device and 4096 bytes of data, never runs
  -- into a fault. When it succeeds the block holds the data that it held before, or else the new
  -- data; every other block holds what it held. When it fails, no data that was saved is lost.
  pub write_current-Ends :
      (w : World F) (b : ℕ) (buf : List ℕ)
      → IsSnapshot L w
      → InRange L w b
      → length buf ≡ 4096
      → Ends (NothingLost L w) (λ _ w'. SavedOne L w b buf w') (write_current K b buf w)
  unfolding write_current write_current_mapping
  write_current-Ends w b buf s h len =
      Ends-and_then (NothingLost L w) (λ out w1. Keeps L w w1 × (out ≡ mapping L w b))
        (λ _ w'. SavedOne L w b buf w') (read_mapping K b w) _
        (Ends-mono (Keeps L w) (NothingLost L w) (λ out w1. Keeps L w w1 × (out ≡ mapping L w b))
          (λ out w1. Keeps L w w1 × (out ≡ mapping L w b)) (read_mapping K b w)
          (read_mapping-Ends L w b s.valid h) (λ w1 k pos d q e. Keeps-saved L pos s k q ∙ e)
          (λ _ w1 p. p))
        (λ out w1 p. then_save w1 out p.0 p.1 (Bool-cases (not (out == 0))))
    where
      kept : (w1 : World F) → Keeps L w w1 → (mapping L w b == 0) ≡ false → SavedOne L w b buf w1
      kept w1 k set' = record {
        snapshot = Keeps-IsSnapshot L s k;
        geometry = (ap (λ c. c.sect_size) k.same.fixed, ap (λ c. c.total_sects) k.same.fixed);
        view = λ pos q. elim (Bool-cases (pos == b)) [
          | inr ne ↦ rw ne (Keeps-saved L pos s k q)
          | inl eq ↦ rw eq (rw (==→eq pos b eq) (Keeps-saved L b s k h ∙ already))
        ];
      }
        where
          already : saved L w b ≡ first (saved L w b) buf
          already = rw set'

      new :
          (w1 : World F)
          → Keeps L w w1
          → mapping L w1 b ≡ 0
          → Ends
              (NothingLost L w)
              (λ _ w'. SavedOne L w b buf w')
              (and_then (write_mapping K b w1.cm.curr_pos w1) (λ _. write_data K buf))
      new w1 k unset =
          let same_range : w1.cm.sect_size * w1.cm.total_sects ≡ w.cm.sect_size * w.cm.total_sects =
            ap (λ c. c.sect_size * c.total_sects) k.same.fixed in
          Ends-mono (NothingLost L w1) (NothingLost L w) (λ _ w'. SavedOne L w1 b buf w')
            (λ _ w'. SavedOne L w b buf w') _
            (save-Ends w1 b buf (Keeps-IsSnapshot L s k) (rw same_range h) unset len)
            (λ w2 n. lost_after w2 s k n) (λ _ w2 o. saved_after b buf s h k o)

      mapping_kept : (w1 : World F) → Keeps L w w1 → mapping L w1 b ≡ mapping L w b
      mapping_kept w1 k =
          ap (λ ss. entry L w1 (b / ss) (b % ss)) (ap (λ c. c.sect_size) k.same.fixed)
          ∙ k.same.view (b / w.cm.sect_size) (b % w.cm.sect_size)
              ((section_of_block b w.cm.sect_size w.cm.total_sects s.valid.size_pos h).1)

      zero_of : (n : ℕ) → not (n == 0) ≡ false → n ≡ 0
      zero_of n e = ground arith

      nonzero : (n : ℕ) → not (n == 0) ≡ true → (n == 0) ≡ false
      nonzero n e = ground arith

      then_save :
          (w1 : World F) (out : ℕ)
          → Keeps L w w1
          → out ≡ mapping L w b
          → (not (out == 0) ≡ true) ⊎ (not (out == 0) ≡ false)
          → Ends
              (NothingLost L w)
              (λ _ w'. SavedOne L w b buf w')
              ((if not (out == 0) then pure tt else (write_current_mapping K b >> write_data K buf))
                w1)
      then_save w1 out k e (inl set') = rw set' (kept w1 k (rw (← e) (nonzero out set')))
      then_save w1 out k e (inr unset) =
          rw unset (new w1 k (mapping_kept w1 k ∙ sym e ∙ zero_of out unset))
