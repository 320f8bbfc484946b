-- ===== src/Snap/Save.antt =====
-- Handling the clone of a write saves the old data of its blocks.
use moocbt.Common.{
  Result, fun_ext, take_whole, ℕ, ◌+◌, ◌-◌, ◌*◌, ◌/◌, ◌^◌, ◌≤◌, ◌<◌, ◌≡◌, refl, ap, List, [], ◌∷◌,
  length, All, arith, ok, err, oops,
}
use moocbt.Word.{add64}
use moocbt.Kernel.{Kernel, IsKernel}
use moocbt.Cow.State.{World, pure, and_then}
use moocbt.Cow.Inv.{Ends}
use moocbt.Cow.Mapping.{write_current}
use moocbt.Cow.Snapshot.{IsSnapshot, InRange, Saves, saved, spec_writes, run_writes}
use moocbt.Cow.Snapshot.First.{NothingLost}
use moocbt.Cow.Snapshot.Sequence.{run_writes-Ends, Fits}
use moocbt.Snap.{BioVec, sector_to_block, save_blocks, save_segments, handle_write_bio}

-- Each segment is one page of one block, which is what the driver's clones consist of.
abbrev pub Paged : List BioVec → Type 0
Paged = All (λ v. (v.bv_len ≡ 4096) × (length v.page ≡ 4096))

-- the blocks that a bio covers, with the data of each
abbrev pub saves_of : ℕ → List BioVec → Saves
saves_of b [] = []
saves_of b (v ∷ vs) = (b, v.page) ∷ saves_of (b + 1) vs

saves_of-Fits : (n b : ℕ) (vs : List BioVec) → Paged vs → b + length vs ≤ n → Fits n (saves_of b vs)
saves_of-Fits n b [] p h = tt
saves_of-Fits n b (v ∷ vs) p h =
    ((omega arith, p.0.1), saves_of-Fits n (b + 1) vs p.1 (omega arith))

module _ {F : Type 0} where
  unit_right : (x : Result (Unit {0}) × World F) → and_then x (λ _. pure tt) ≡ x
  unit_right (ok _, w) = refl
  unit_right (err e, w) = refl
  unit_right (oops, w) = refl

module _ {F : Type 0} (K : Kernel F) where
  save_segments_lem :
      (b : ℕ) (vs : List BioVec) (w : World F)
      → Paged vs
      → b + length vs < 2 ^ 64
      → save_segments K b vs w ≡ run_writes K (saves_of b vs) w
  unfolding save_segments save_blocks run_writes
  save_segments_lem b [] w p h = refl
  save_segments_lem b (v ∷ vs) w p h =
      let next : add64 b (v.bv_len / 4096) ≡ b + 1 = omega (arith, p.0.0) in
      let one : add64 b (v.bv_len / 4096) - b ≡ 1 = omega (arith, p.0.0) in
      rw (one, next, take_whole v.page 4096 p.0.1, unit_right (write_current K b v.page w))
        (ap (and_then (write_current K b v.page w))
          (fun_ext (λ _. fun_ext (λ w'. save_segments_lem (b + 1) vs w' p.1 (omega arith)))))

module _ {F : Type 0} {K : Kernel F} (L : IsKernel K) where
  -- `snap_handle_write_bio` on a file in snapshot mode, for a bio of whole blocks of the device with a
  -- block to a page, never runs into a fault. If it succeeds, each block of the bio holds the data
  -- that it held before or else that of the bio, and the other blocks hold what they held; if it
  -- fails, no data that was saved is lost.
  pub handle_write_bio-Ends :
      (sector : ℕ) (vs : List BioVec) (w : World F)
      → IsSnapshot L w
      → Paged vs
      → sector / 8 + length vs ≤ w.cm.sect_size * w.cm.total_sects
      → Ends
          (NothingLost L w)
          (λ _ w'.
            IsSnapshot L w'
            × ((pos : ℕ)
                → InRange L w pos
                → saved L w' pos ≡ spec_writes (saves_of (sector / 8) vs) (saved L w) pos))
          (handle_write_bio K sector vs w)
  unfolding handle_write_bio sector_to_block
  handle_write_bio-Ends sector vs w s p h =
      rw (save_segments_lem K (sector / 8) vs w p (omega (arith, s.valid.fits))) (
        run_writes-Ends L (saves_of (sector / 8) vs) w s
          (saves_of-Fits (w.cm.sect_size * w.cm.total_sects) (sector / 8) vs p h))
