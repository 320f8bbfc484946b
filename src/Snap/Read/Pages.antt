-- ===== src/Snap/Read/Pages.antt =====
-- The copying loops keep the file and leave the bytes of the snapshot in the pages.
use moocbt.Common.{
  ℕ, zero, suc, ◌+◌, ◌-◌, ◌*◌, ◌/◌, ◌%◌, ◌^◌, ◌≤◌, ◌<◌, ◌≡◌, ◌⊎◌, inl, inr, subst, refl, ◌∙◌, sym,
  min, true, false, not, Bool-cases, ◌==◌, ==→eq, ltb, leb, if◌then◌else◌, arith, ok,
}
use moocbt.Word.{add64, mul64}
use moocbt.Bytes.Store.{Content, bytes_at, write_at, bytes_at_congr}
use moocbt.Kernel.{Kernel, IsKernel}
use moocbt.Cow.State.{World, pure, and_then}
use moocbt.Cow.Io.Cases.{file_read_cases}
use moocbt.Cow.Inv.{Ends, Ends-and_then, Ends-mono, Keeps, Keeps-trans, mapping}
use moocbt.Cow.Inv.Moves.{quiet-Keeps}
use moocbt.Cow.Mapping.{cow_block_size, read_mapping, read_data}
use moocbt.Cow.Mapping.Lookup.{read_mapping-Ends}
use moocbt.Cow.Snapshot.{IsSnapshot, InRange}
use moocbt.Snap.Read.{overlay_block, overlay_page, sector_size}
use moocbt.Snap.Read.Overlay.{
  Overlaid, Overlaid-append, Overlaid-unmapped, Overlaid-mapped, mapping-Keeps, range-Keeps,
  mapping-placed,
}

module _ {F : Type 0} {K : Kernel F} (L : IsKernel K) where
  -- what reading the data of a mapped block gives
  read_mapped :
      (w w2 : World F) (x boff n : ℕ) (page : Content)
      → IsSnapshot L w
      → InRange L w (x / 4096)
      → Keeps L w w2
      → x % 4096 + n ≤ 4096
      → (mapping L w (x / 4096) == 0) ≡ false
      → Ends
          (Keeps L w)
          (λ page' w'. Keeps L w w' × Overlaid L w x boff n page page')
          (and_then
            (read_data K (mapping L w (x / 4096)) (x % 4096) n w2)
            (λ bs. pure (write_at page boff bs)))
  unfolding read_data
  read_mapped w w2 x boff n page s h k fit set' =
      let m = mapping L w (x / 4096) in
      let below : leb cow_block_size (x % 4096) ≡ false = ground arith in
      let (f, same, r) =
        file_read_cases L (add64 (mul64 m cow_block_size) (x % 4096)) n w2 k.valid.file in
      let still : Keeps L w (record w2 { sys = f }) =
        Keeps-trans L k.same (quiet-Keeps L w2 f k.valid same) in
      rw below (elim r [
        | inr (e, fails) ↦ rw fails still
        | inl works ↦
            rw works (still, rw (bytes m refl) (Overlaid-mapped L w x boff n page fit set'))
      ])
    where
      low : (w.cm.data_offset ≤ mapping L w (x / 4096) * 4096) × (mapping L w (x / 4096) < 2 ^ 50)
      low = elim (mapping-placed L w (x / 4096) s h) [ inl z ↦ absurd (differ z set') | inr p ↦ p ]
        where
          differ : {m : ℕ} → m ≡ 0 → (m == 0) ≡ false → ⊥
          differ z ne = ground arith

      bytes :
          (m : ℕ)
          → m ≡ mapping L w (x / 4096)
          → bytes_at (L.content w2.sys) (add64 (mul64 m cow_block_size) (x % 4096)) n
            ≡ bytes_at (L.content w.sys) (m * 4096 + x % 4096) n
      bytes m e =
          let (above, small) = low in
          let place : add64 (mul64 m cow_block_size) (x % 4096) ≡ m * 4096 + x % 4096 =
            omega arith in
          rw place (
            bytes_at_congr (L.content w2.sys) (L.content w.sys) (m * 4096 + x % 4096) n
              (λ p a b. k.same.outside p (inr (omega arith))))

  overlay_block-Ends :
      (w w1 : World F) (x boff n : ℕ) (page : Content)
      → IsSnapshot L w
      → InRange L w (x / 4096)
      → Keeps L w w1
      → x % 4096 + n ≤ 4096
      → Ends
          (Keeps L w)
          (λ page' w'. Keeps L w w' × Overlaid L w x boff n page page')
          (overlay_block K (x / 4096) (x % 4096) boff n page w1)
  unfolding overlay_block
  overlay_block-Ends w w1 x boff n page s h k fit =
      Ends-and_then (Keeps L w) (λ out w2. Keeps L w w2 × (out ≡ mapping L w (x / 4096)))
        (λ page' w'. Keeps L w w' × Overlaid L w x boff n page page') (read_mapping K (x / 4096) w1)
        _
        (Ends-mono (Keeps L w1) (Keeps L w)
          (λ out w2. Keeps L w1 w2 × (out ≡ mapping L w1 (x / 4096)))
          (λ out w2. Keeps L w w2 × (out ≡ mapping L w (x / 4096))) (read_mapping K (x / 4096) w1)
          (read_mapping-Ends L w1 (x / 4096) k.valid (rw (range-Keeps L k) h))
          (λ w2 k2. Keeps-trans L k.same k2)
          (λ out w2 p. (Keeps-trans L k.same p.0, p.1 ∙ mapping-Keeps L w w1 (x / 4096) s h k)))
        (λ out w2 p. then_copy out w2 p.0 p.1 (Bool-cases (out == 0)))
    where
      then_copy :
          (out : ℕ) (w2 : World F)
          → Keeps L w w2
          → out ≡ mapping L w (x / 4096)
          → ((out == 0) ≡ true) ⊎ ((out == 0) ≡ false)
          → Ends
              (Keeps L w)
              (λ page' w'. Keeps L w w' × Overlaid L w x boff n page page')
              ((if not (out == 0)
                  then (λ w.
                      and_then
                        (read_data K out (x % 4096) n w)
                        (λ bs. pure (write_at page boff bs)))
                  else pure page)
                w2)
      then_copy out w2 k2 e (inl z) =
          rw z (k2, Overlaid-unmapped L w x boff n page fit (sym e ∙ ==→eq out 0 z))
      then_copy out w2 k2 e (inr nz) =
          rw (nz, e) (read_mapped w w2 x boff n page s h k2 fit (rw (← e) nz))

  page_done :
      (fuel end sect boff : ℕ) (page : Content) (w : World F)
      → ltb boff end ≡ false
      → overlay_page K fuel end sect boff page w ≡ (ok (page, sect), w)
  unfolding overlay_page
  page_done zero end sect boff page w h = rw (overlay_page, h)
  page_done (suc fuel) end sect boff page w h = rw (overlay_page, h)

  page_more :
      (fuel end sect boff n x : ℕ) (page : Content) (w : World F)
      → ltb boff end ≡ true
      → mul64 sect sector_size ≡ x
      → min (end - boff) (4096 - x % 4096) ≡ n
      → overlay_page K (suc fuel) end sect boff page w
        ≡ and_then
            (overlay_block K (x / 4096) (x % 4096) boff n page w)
            (overlay_page K fuel end (add64 sect (n / 512)) (boff + n))
  unfolding overlay_page
  page_more fuel end sect boff n x page w h e e' = rw (overlay_page, h, e, e')

  -- what is left when the loop over a page stops
  abbrev pub PageDone : World F → ℕ → ℕ → ℕ → Content → Content × ℕ → World F → Type 0
  PageDone w sect boff left page r w' =
      Keeps L w w' × Overlaid L w (sect * 512) boff left page r.0 × (r.1 ≡ sect + left / 512)

  nothing_left :
      (w w1 : World F) (sect boff left : ℕ) (page : Content)
      → Keeps L w w1
      → left ≡ 0
      → PageDone w sect boff left page (page, sect) w1
  nothing_left w w1 sect boff left page k e =
      (k, record { inside = λ q h. absurd (omega arith); outside = λ q h. refl }, omega arith)

  -- the sizes of a round
  round-lem :
      (sect left n : ℕ)
      → min left (4096 - sect * 512 % 4096) ≡ n
      → left % 512 ≡ 0
      → 0 < left
      → (sect * 512 % 4096 + n ≤ 4096) × (n ≤ left) × (0 < n) × (n % 512 ≡ 0)
  round-lem sect left n e even pos = ground arith

  abbrev pub PageGoal : ℕ → Type 0
  PageGoal fuel =
      (w w1 : World F) (sect boff left end : ℕ) (page : Content)
      → IsSnapshot L w
      → Keeps L w w1
      → left ≤ fuel
      → end ≡ boff + left
      → left % 512 ≡ 0
      → sect * 512 + left ≤ w.cm.sect_size * w.cm.total_sects * 4096
      → sect * 512 + left < 2 ^ 64
      → Ends (Keeps L w) (PageDone w sect boff left page)
          (overlay_page K fuel end sect boff page w1)

  page_rest :
      (fuel : ℕ) (w w2 : World F) (sect boff left end n : ℕ) (page page' : Content)
      → PageGoal fuel
      → IsSnapshot L w
      → Keeps L w w2
      → left ≤ suc fuel
      → end ≡ boff + left
      → left % 512 ≡ 0
      → sect * 512 + left ≤ w.cm.sect_size * w.cm.total_sects * 4096
      → sect * 512 + left < 2 ^ 64
      → Overlaid L w (sect * 512) boff n page page'
      → n ≤ left
      → 0 < n
      → n % 512 ≡ 0
      → Ends
          (Keeps L w)
          (PageDone w sect boff left page)
          (overlay_page K fuel end (add64 sect (n / 512)) (boff + n) page' w2)
  page_rest fuel w w2 sect boff left end n page page' ih s k2 enough e even room small o le pos
        whole =
      let next : add64 sect (n / 512) ≡ sect + n / 512 = omega (arith, s.valid.fits) in
      let x : (sect + n / 512) * 512 ≡ sect * 512 + n = omega arith in
      let all : n + (left - n) ≡ left = omega arith in
      let count : sect + n / 512 + (left - n) / 512 ≡ sect + left / 512 = omega arith in
      rw next (
        Ends-mono (Keeps L w) (Keeps L w) (PageDone w (sect + n / 512) (boff + n) (left - n) page')
          (PageDone w sect boff left page) _
          (ih w w2 (sect + n / 512) (boff + n) (left - n) end page' s k2 (omega arith) (omega arith)
            (omega arith) (omega arith) (omega arith))
          (λ w' k'. k')
          (λ r w' p. (
            p.0,
            subst (λ m. Overlaid L w (sect * 512) boff m page r.0) all
                (Overlaid-append L w (sect * 512) boff n (left - n) page page' r.0 o
                  (subst (λ y. Overlaid L w y (boff + n) (left - n) page' r.0) x p.1)),
            p.2 ∙ count,
          )))

  page_round :
      (fuel : ℕ) (w w1 : World F) (sect boff left end n : ℕ) (page : Content)
      → PageGoal fuel
      → IsSnapshot L w
      → Keeps L w w1
      → left ≤ suc fuel
      → end ≡ boff + left
      → left % 512 ≡ 0
      → sect * 512 + left ≤ w.cm.sect_size * w.cm.total_sects * 4096
      → sect * 512 + left < 2 ^ 64
      → ltb boff end ≡ true
      → min left (4096 - sect * 512 % 4096) ≡ n
      → Ends
          (Keeps L w)
          (PageDone w sect boff left page)
          (overlay_page K (suc fuel) end sect boff page w1)
  page_round fuel w w1 sect boff left end n page ih s k enough e even room small more en =
      let (fit, le, pos, whole) = round-lem sect left n en even (ground arith) in
      let place : mul64 sect sector_size ≡ sect * 512 = omega (arith, s.valid.fits) in
      let left_of : end - boff ≡ left = omega arith in
      rw (page_more fuel end sect boff n (sect * 512) page w1 more place (rw left_of en)) (
        Ends-and_then (Keeps L w)
          (λ page' w2. Keeps L w w2 × Overlaid L w (sect * 512) boff n page page')
          (PageDone w sect boff left page)
          (overlay_block K (sect * 512 / 4096) (sect * 512 % 4096) boff n page w1) _
          (overlay_block-Ends w w1 (sect * 512) boff n page s (omega arith) k fit)
          (λ page' w2 p.
            page_rest fuel w w2 sect boff left end n page page' ih s p.0 enough e even room small
              p.1 le pos whole))

  pub overlay_page-Ends : (fuel : ℕ) → PageGoal fuel
  overlay_page-Ends zero w w1 sect boff left end page s k enough e even room small =
      rw (page_done zero end sect boff page w1 (ground arith))
        (nothing_left w w1 sect boff left page k (omega arith))
  overlay_page-Ends (suc fuel) w w1 sect boff left end page s k enough e even room small =
      elim (Bool-cases (ltb boff end)) [
        | inr done ↦
            rw (page_done (suc fuel) end sect boff page w1 done)
              (nothing_left w w1 sect boff left page k (ground arith))
        | inl more ↦
            page_round fuel w w1 sect boff left end (min left (4096 - sect * 512 % 4096)) page
              (overlay_page-Ends fuel) s k enough e even room small more refl
      ]
