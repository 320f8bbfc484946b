-- ===== src/Snap/Read/Overlay.antt =====
-- What the copying from the cow file leaves in a page.
use moocbt.Common.{
  ℕ, ◌+◌, ◌-◌, ◌*◌, ◌/◌, ◌%◌, ◌^◌, ◌≤◌, ◌<◌, ◌≡◌, ◌⊎◌, inl, inr, refl, ap, ap₂, ◌∙◌, sym, false,
  Bool-cases, ◌==◌, ltb, if◌then◌else◌, length, arith,
}
use moocbt.Bytes.Store.{
  Content, bytes_at, write_at, get_or-bytes_at, write_at_inside, write_at_outside, length-bytes_at,
}
use moocbt.Kernel.{Kernel, IsKernel}
use moocbt.Cow.State.{World}
use moocbt.Cow.Inv.{Keeps, mapping, entry}
use moocbt.Cow.Mapping.Lookup.{section_of_block}
use moocbt.Cow.Snapshot.{IsSnapshot, InRange}

module _ {F : Type 0} {K : Kernel F} (L : IsKernel K) where
  -- The byte of the snapshot at a position of the device, whose live byte is given: the saved byte if
  -- the block has been saved.
  abbrev pub snap_byte : World F → ℕ → ℕ → ℕ
  snap_byte w x live =
      if mapping L w (x / 4096) == 0
      then live
      else L.content w.sys (mapping L w (x / 4096) * 4096 + x % 4096)

  -- From position `x` of the device on, `n` bytes of the page, at `off`, have become those of the
  -- snapshot; the others are unchanged.
  pub record Overlaid (w : World F) (x off n : ℕ) (page page' : Content) : Type 0 where
    pub inside : (k : ℕ) → k < n → page' (off + k) ≡ snap_byte w (x + k) (page (off + k))
    pub outside : (q : ℕ) → (q < off) ⊎ (off + n ≤ q) → page' q ≡ page q

  pub range-Keeps :
      {w w' : World F}
      → Keeps L w w'
      → w'.cm.sect_size * w'.cm.total_sects ≡ w.cm.sect_size * w.cm.total_sects
  range-Keeps k = ap (λ c. c.sect_size * c.total_sects) k.same.fixed

  pub mapping-Keeps :
      (w w' : World F) (b : ℕ)
      → IsSnapshot L w
      → InRange L w b
      → Keeps L w w'
      → mapping L w' b ≡ mapping L w b
  mapping-Keeps w w' b s h k =
      ap (λ ss. entry L w' (b / ss) (b % ss)) (ap (λ c. c.sect_size) k.same.fixed)
      ∙ k.same.view (b / w.cm.sect_size) (b % w.cm.sect_size)
          ((section_of_block b w.cm.sect_size w.cm.total_sects s.valid.size_pos h).1)

  -- the data of a mapped block lies in the data area, below any offset that wraps
  pub mapping-placed :
      (w : World F) (b : ℕ)
      → IsSnapshot L w
      → InRange L w b
      → (mapping L w b ≡ 0) ⊎ ((w.cm.data_offset ≤ mapping L w b * 4096) × (mapping L w b < 2 ^ 50))
  mapping-placed w b s h =
      elim (s.placed (b / w.cm.sect_size) (b % w.cm.sect_size)
        ((section_of_block b w.cm.sect_size w.cm.total_sects s.valid.size_pos h).1)) [
          | inl z ↦ inl z
          | inr (low, high) ↦ inr (low, omega (arith, s.head_fits))
        ]

  pub Overlaid-append :
      (w : World F) (x off n m : ℕ) (p p1 p2 : Content)
      → Overlaid w x off n p p1
      → Overlaid w (x + n) (off + n) m p1 p2
      → Overlaid w x off (n + m) p p2
  Overlaid-append w x off n m p p1 p2 a b = record {
    inside = λ k h. elim (Bool-cases (ltb k n)) [
      | inl low ↦ b.outside (off + k) (inl (ground arith)) ∙ a.inside k (ground arith)
      | inr high ↦ upper k h (ground arith)
    ];
    outside = λ q h.
        b.outside q (elim h [ inl l ↦ inl (omega arith) | inr r ↦ inr (omega arith) ])
        ∙ a.outside q (elim h [ inl l ↦ inl l | inr r ↦ inr (omega arith) ]);
  }
    where
      upper : (k : ℕ) → k < n + m → n ≤ k → p2 (off + k) ≡ snap_byte w (x + k) (p (off + k))
      upper k h high =
          let at : off + n + (k - n) ≡ off + k = omega arith in
          let pos : x + n + (k - n) ≡ x + k = omega arith in
          let below : p1 (off + k) ≡ p (off + k) = a.outside (off + k) (inr (omega arith)) in
          let got : p2 (off + k) ≡ snap_byte w (x + k) (p1 (off + k)) =
            ap p2 (sym at)
            ∙ b.inside (k - n) (omega arith)
            ∙ ap₂ (λ y z. snap_byte w y (p1 z)) pos at in
          got ∙ ap (snap_byte w (x + k)) below

  -- a block without data leaves the page alone
  pub Overlaid-unmapped :
      (w : World F) (x off n : ℕ) (page : Content)
      → x % 4096 + n ≤ 4096
      → mapping L w (x / 4096) ≡ 0
      → Overlaid w x off n page page
  Overlaid-unmapped w x off n page fit z = record {
    inside = λ k h. let same : (x + k) / 4096 ≡ x / 4096 = omega arith in rw (same, z) refl;
    outside = λ q h. refl;
  }

  pub Overlaid-mapped :
      (w : World F) (x off n : ℕ) (page : Content)
      → x % 4096 + n ≤ 4096
      → (mapping L w (x / 4096) == 0) ≡ false
      → Overlaid w x off n page (
          write_at page off
            (bytes_at (L.content w.sys) (mapping L w (x / 4096) * 4096 + x % 4096) n))
  Overlaid-mapped w x off n page fit set' = record {
    inside = λ k h.
        let m = mapping L w (x / 4096) in
        let same : (x + k) / 4096 ≡ x / 4096 = omega arith in
        let rest : m * 4096 + x % 4096 + k ≡ m * 4096 + (x + k) % 4096 = omega arith in
        let bs = bytes_at (L.content w.sys) (m * 4096 + x % 4096) n in
        let len : length bs ≡ n = length-bytes_at (L.content w.sys) (m * 4096 + x % 4096) n in
        rw (same, set')
          (write_at_inside page off bs k (omega arith)
            ∙ get_or-bytes_at (L.content w.sys) (m * 4096 + x % 4096) n k 0 h
            ∙ ap (L.content w.sys) rest);
    outside = λ q h.
        let bs = bytes_at (L.content w.sys) (mapping L w (x / 4096) * 4096 + x % 4096) n in
        let len : length bs ≡ n =
          length-bytes_at (L.content w.sys) (mapping L w (x / 4096) * 4096 + x % 4096) n in
        write_at_outside page off bs q (elim h [ inl l ↦ inl l | inr r ↦ inr (omega arith) ]);
  }
