-- ===== src/Snap/Tests.antt =====
-- The theorems on the handlers, at the sample.
use moocbt.Common.{
  ℕ, ◌+◌, ◌*◌, ◌<◌, ◌≡◌, ◌⊎◌, subst, refl, List, [], ◌∷◌, ◌∙◌, inl, inr, length, arith,
}
use moocbt.Kernel.Ram.{ram, ram-IsKernel}
use moocbt.Cow.Inv.{Ends, IsValid, mapping}
use moocbt.Cow.Sample.{world, world-IsValid, world-IsSnapshot, block, length-block}
use moocbt.Cow.Snapshot.{IsSnapshot, InRange, saved, spec_writes}
use moocbt.Cow.Snapshot.First.{NothingLost}
use moocbt.Snap.{BioVec, SectorSet, handle_write_bio, handle_sset}
use moocbt.Snap.Save.{saves_of, handle_write_bio-Ends}
use moocbt.Bytes.Store.{
  Content, bytes_at, write_at, write_at_inside, write_at_outside, get_or-bytes_at, length-bytes_at,
}
use moocbt.Kernel.{Reply}
use moocbt.Cow.Inv.{Keeps}
use moocbt.Snap.Read.{PageVec, handle_read_bio}
use moocbt.Snap.Read.Overlay.{snap_byte}
use moocbt.Snap.Read.View.{Holds}
use moocbt.Snap.Read.Bio.{ReadsLive, handle_read_bio-Ends}
use moocbt.Snap.Mark.{Touches, handle_sset-Ends}

-- a write of the blocks 2 and 3
abbrev pages : List BioVec
pages = record { bv_len = 4096; page = block 1 } ∷ record { bv_len = 4096; page = block 2 } ∷ []

handle_write_bio-Ends_example :
    Ends
      (NothingLost ram-IsKernel world)
      (λ _ w'.
        IsSnapshot ram-IsKernel w'
        × ((pos : ℕ)
            → InRange ram-IsKernel world pos
            → saved ram-IsKernel w' pos
              ≡ spec_writes (saves_of 2 pages) (saved ram-IsKernel world) pos))
      (handle_write_bio ram 16 pages world)
handle_write_bio-Ends_example =
    handle_write_bio-Ends ram-IsKernel 16 pages world world-IsSnapshot
      ((refl, length-block 1), ((refl, length-block 2), tt)) (omega arith)

-- the sectors 7 and 8, of the blocks 0 and 1
abbrev two_sectors : SectorSet
two_sectors = record { sect = 7; len = 2 }

handle_sset-Ends_example :
    Ends
      (λ w'.
        IsValid ram-IsKernel w'
        × ((b : ℕ)
            → b < 4
            → (mapping ram-IsKernel w' b ≡ mapping ram-IsKernel world b)
              ⊎ ((mapping ram-IsKernel w' b ≡ 1) × Touches two_sectors b)))
      (λ _ w'.
        IsValid ram-IsKernel w'
        × ((b : ℕ) → b < 4 → Touches two_sectors b → mapping ram-IsKernel w' b ≡ 1)
        × ((b : ℕ)
            → b < 4
            → ¬ Touches two_sectors b
            → mapping ram-IsKernel w' b ≡ mapping ram-IsKernel world b))
      (handle_sset ram two_sectors world)
handle_sset-Ends_example =
    handle_sset-Ends ram-IsKernel two_sectors world world-IsValid (omega arith) (omega arith)

-- a base device whose bytes are their positions, and the call that reads it
abbrev live : Content
live y = y

abbrev fill_live : ℕ → List PageVec → List PageVec
fill_live x [] = []
fill_live x (v ∷ vs) =
    record v { page = write_at v.page v.bv_offset (bytes_at live x v.bv_len) }
    ∷ fill_live (x + v.bv_len) vs

fill_live-Holds : (x : ℕ) (vs : List PageVec) → Holds (λ y l. live y) x vs (fill_live x vs)
fill_live-Holds x [] = tt
fill_live-Holds x (v ∷ vs) =
    let len : length (bytes_at live x v.bv_len) ≡ v.bv_len = length-bytes_at live x v.bv_len in
    (
      (
        refl,
        refl,
        (λ k h.
            write_at_inside v.page v.bv_offset (bytes_at live x v.bv_len) k (omega arith)
            ∙ get_or-bytes_at live x v.bv_len k 0 h),
        (λ q h.
            write_at_outside v.page v.bv_offset (bytes_at live x v.bv_len) q
              (elim h [ inl l ↦ inl l | inr r ↦ inr (omega arith) ])),
      ),
      fill_live-Holds (x + v.bv_len) vs,
    )

abbrev read_live : ℕ → List PageVec → Reply (List PageVec)
read_live sector vs = Reply.value (fill_live (sector * 512) vs)

read_live-ReadsLive : ReadsLive read_live live
read_live-ReadsLive sector vs vs' e =
    subst (Holds (λ y l. live y) (sector * 512) vs) (same (fill_live (sector * 512) vs) vs' e)
      (fill_live-Holds (sector * 512) vs)
  where
    same : (a b : List PageVec) → Reply.value a ≡ Reply.value b → a ≡ b
    same a b e = cc

-- block 2, which is not mapped, and the first sectors of block 3, which is
abbrev two_pages : List PageVec
two_pages =
    record { bv_offset = 0; bv_len = 4096; page = λ q. 0 }
    ∷ record { bv_offset = 512; bv_len = 1024; page = λ q. 0 }
    ∷ []

handle_read_bio-Ends_example :
    Ends
      (Keeps ram-IsKernel world)
      (λ vs' w'.
        Keeps ram-IsKernel world w'
        × Holds (λ y l. snap_byte ram-IsKernel world y (live y)) 8192 two_pages vs')
      (handle_read_bio ram read_live 16 two_pages world)
handle_read_bio-Ends_example =
    handle_read_bio-Ends ram-IsKernel read_live live 16 two_pages world read_live-ReadsLive
      world-IsSnapshot ((refl, omega arith), ((refl, omega arith), tt)) (omega arith) (omega arith)
