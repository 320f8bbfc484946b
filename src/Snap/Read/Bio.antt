-- ===== src/Snap/Read/Bio.antt =====
-- Reading a bio from the snapshot device, whichever way the mode chooses.
use moocbt.Common.{
  ℕ, ◌+◌, ◌*◌, ◌/◌, ◌^◌, ◌≤◌, ◌<◌, ◌≡◌, ◌≢◌, refl, false, ◌==◌, arith, List, if◌then◌else◌,
}
use moocbt.Word.{mul64}
use moocbt.Bytes.Store.{Content}
use moocbt.Kernel.{Kernel, IsKernel, Reply}
use moocbt.Cow.State.{World, M, pure, and_then}
use moocbt.Cow.Inv.{Ends, Ends-and_then, Ends-mono, Keeps, mapping}
use moocbt.Cow.Sections.Sync.{Keeps-refl}
use moocbt.Cow.Snapshot.{IsSnapshot}
use moocbt.Snap.Read.{
  ReadMode, unset, cow_file, base_device, mixed, reads_cow, get_mode, PageVec, fill, overlay_vecs,
  handle_read_bio,
}
use moocbt.Snap.Read.Overlay.{snap_byte}
use moocbt.Snap.Read.Mode.{total_len, ModeSays, mode_of_vecs-Ends}
use moocbt.Snap.Read.View.{
  WholeSectors, Holds, Holds-mono, Holds-trans, Holds-total_len, Holds-WholeSectors,
  overlay_vecs-Ends,
}

-- The call that reads the base device: when it succeeds, the segments hold the live bytes.
abbrev pub ReadsLive : (ℕ → List PageVec → Reply (List PageVec)) → Content → Type 0
ReadsLive submit_wait live =
    (sector : ℕ) (vs vs' : List PageVec)
    → submit_wait sector vs ≡ Reply.value vs'
    → Holds (λ y l. live y) (sector * 512) vs vs'

module _ {F : Type 0} {K : Kernel F} (L : IsKernel K)
    (submit_wait : ℕ → List PageVec → Reply (List PageVec)) (live : Content) where
  -- the pages hold the snapshot's bytes
  abbrev Shown : World F → ℕ → List PageVec → List PageVec → World F → Type 0
  Shown w sector vs vs' w' =
      Keeps L w w' × Holds (λ y l. snap_byte L w y (live y)) (sector * 512) vs vs'

  -- the rest of the handler once the mode is known
  abbrev after_mode : ℕ → List PageVec → ReadMode → M F (List PageVec)
  after_mode sector vs mode w =
      and_then (fill K submit_wait sector vs mode w)
        (λ filled. if reads_cow mode then overlay_vecs K filled sector else pure filled)

  unmapped : (w : World F) (y : ℕ) → mapping L w (y / 4096) ≡ 0 → live y ≡ snap_byte L w y (live y)
  unmapped w y e = rw e refl

  mapped :
      (w : World F) (y l : ℕ)
      → mapping L w (y / 4096) ≢ 0
      → snap_byte L w y l ≡ snap_byte L w y (live y)
  mapped w y l ne = let set' : (mapping L w (y / 4096) == 0) ≡ false = ground arith in rw set'

  -- the base device was read, and the cow file is laid over it
  both :
      (sector : ℕ) (vs filled : List PageVec) (w w2 : World F)
      → IsSnapshot L w
      → Keeps L w w2
      → WholeSectors vs
      → sector * 512 + total_len vs ≤ w.cm.sect_size * w.cm.total_sects * 4096
      → sector * 512 + total_len vs < 2 ^ 64
      → Holds (λ y l. live y) (sector * 512) vs filled
      → Ends (Keeps L w) (Shown w sector vs) (overlay_vecs K filled sector w2)
  both sector vs filled w w2 s k whole room small h =
      let same = Holds-total_len (λ y l. live y) (sector * 512) vs filled h in
      Ends-mono (Keeps L w) (Keeps L w)
        (λ vs' w'. Keeps L w w' × Holds (snap_byte L w) (sector * 512) filled vs')
        (Shown w sector vs) (overlay_vecs K filled sector w2)
        (overlay_vecs-Ends L filled w w2 sector s k
          (Holds-WholeSectors (λ y l. live y) (sector * 512) vs filled h whole) (rw same room)
          (rw same small))
        (λ w' k'. k')
        (λ vs' w' p.
          (p.0, Holds-trans (λ y l. live y) (snap_byte L w) (sector * 512) vs filled vs' h p.1))

  after_mode-Ends :
      (sector : ℕ) (vs : List PageVec) (w w2 : World F) (mode : ReadMode) (r : Reply (List PageVec))
      → submit_wait sector vs ≡ r
      → ReadsLive submit_wait live
      → IsSnapshot L w
      → Keeps L w w2
      → WholeSectors vs
      → sector * 512 + total_len vs ≤ w.cm.sect_size * w.cm.total_sects * 4096
      → sector * 512 + total_len vs < 2 ^ 64
      → ModeSays L w mode (sector * 512) (sector * 512 + total_len vs)
      → Ends (Keeps L w) (Shown w sector vs) (after_mode sector vs mode w2)
  unfolding fill
  after_mode-Ends sector vs w w2 cow_file r e law s k whole room small says =
      Ends-mono (Keeps L w) (Keeps L w)
        (λ vs' w'. Keeps L w w' × Holds (snap_byte L w) (sector * 512) vs vs') (Shown w sector vs)
        (overlay_vecs K vs sector w2) (overlay_vecs-Ends L vs w w2 sector s k whole room small)
        (λ w' k'. k')
        (λ vs' w' p. (
          p.0,
          Holds-mono (snap_byte L w) (λ y l. snap_byte L w y (live y)) (sector * 512) vs vs'
              (λ y l a b. mapped w y l (says y a b)) p.1,
        ))
  after_mode-Ends sector vs w w2 base_device (Reply.errno n) e law s k whole room small says =
      rw e k
  after_mode-Ends sector vs w w2 base_device (Reply.value filled) e law s k whole room small says =
      rw e (
        k,
        Holds-mono (λ y l. live y) (λ y l. snap_byte L w y (live y)) (sector * 512) vs filled
            (λ y l a b. unmapped w y (says y a b)) (law sector vs filled e),
      )
  after_mode-Ends sector vs w w2 unset (Reply.errno n) e law s k whole room small says = rw e k
  after_mode-Ends sector vs w w2 unset (Reply.value filled) e law s k whole room small says =
      rw e (both sector vs filled w w2 s k whole room small (law sector vs filled e))
  after_mode-Ends sector vs w w2 mixed (Reply.errno n) e law s k whole room small says = rw e k
  after_mode-Ends sector vs w w2 mixed (Reply.value filled) e law s k whole room small says =
      rw e (both sector vs filled w w2 s k whole room small (law sector vs filled e))

  -- `snap_handle_read_bio` on a file in snapshot mode, for a bio of whole sectors of the device, never
  -- runs into a fault, and its loops end. If it succeeds, each byte of the bio is the one that was
  -- saved for its block, or the live one of the base device where none was saved, and no byte
  -- outside the segments changes; whatever happens, no mapping and no saved data changes.
  pub handle_read_bio-Ends :
      (sector : ℕ) (vs : List PageVec) (w : World F)
      → ReadsLive submit_wait live
      → IsSnapshot L w
      → WholeSectors vs
      → sector * 512 + total_len vs ≤ w.cm.sect_size * w.cm.total_sects * 4096
      → sector * 512 + total_len vs < 2 ^ 64
      → Ends
          (Keeps L w)
          (λ vs' w'. Keeps L w w' × Holds (λ y l. snap_byte L w y (live y)) (sector * 512) vs vs')
          (handle_read_bio K submit_wait sector vs w)
  unfolding handle_read_bio get_mode
  handle_read_bio-Ends sector vs w law s whole room small =
      let place : mul64 sector 512 ≡ sector * 512 = omega arith in
      Ends-and_then (Keeps L w)
        (λ mode w2. Keeps L w w2 × ModeSays L w mode (sector * 512) (sector * 512 + total_len vs))
        (Shown w sector vs) (get_mode K sector vs w) (after_mode sector vs)
        (rw place (
          mode_of_vecs-Ends L vs w w (sector * 512) (sector * 512) unset s (Keeps-refl L w s.valid)
            room small refl refl))
        (λ mode w2 p.
          after_mode-Ends sector vs w w2 mode (submit_wait sector vs) refl law s p.0 whole room
            small p.1)
