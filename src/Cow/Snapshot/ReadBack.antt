-- ===== src/Cow/Snapshot/ReadBack.antt =====
-- What `cow_read_data` reads of a saved block is its data.
use moocbt.Common.{
  ℕ, ◌*◌, ◌+◌, ◌^◌, ◌/◌, ◌%◌, ◌≤◌, ◌<◌, ◌≡◌, inl, inr, sym, false, List, some, arith, take, drop,
  leb,
}
use moocbt.Word.{add64, mul64}
use moocbt.Bytes.Store.{Content, bytes_at, take-drop-bytes_at}
use moocbt.Kernel.{Kernel, IsKernel}
use moocbt.Cow.State.{World}
use moocbt.Cow.Io.Cases.{file_read_cases}
use moocbt.Cow.Mapping.{read_data, cow_block_size}
use moocbt.Cow.Mapping.Lookup.{section_of_block}
use moocbt.Cow.Inv.{Ends, mapping}
use moocbt.Cow.Snapshot.{saved_at, saved, InRange, IsSnapshot}

module _ {F : Type 0} {K : Kernel F} (L : IsKernel K) where
  data_of :
      (c : Content) (m : ℕ) (d : List ℕ) → saved_at c m ≡ some d → d ≡ bytes_at c (m * 4096) 4096
  data_of c m d e = ground arith

  -- `cow_read_data` at a block's mapping: if it succeeds, the bytes that it returns are those of the
  -- block's saved data, from the offset on; the file is unchanged in any case.
  pub read_data-Ends :
      (w : World F) (pos off len : ℕ) (d : List ℕ)
      → IsSnapshot L w
      → InRange L w pos
      → saved L w pos ≡ some d
      → off + len ≤ 4096
      → off < 4096
      → Ends
          (λ w'. L.content w'.sys ≡ L.content w.sys)
          (λ bs w'. (L.content w'.sys ≡ L.content w.sys) × (bs ≡ take len (drop off d)))
          (read_data K (mapping L w pos) off len w)
  unfolding read_data
  read_data-Ends w pos off len d s h e fit lt =
      let inside : leb cow_block_size off ≡ false = ground arith in
      let (f, same, r) =
        file_read_cases L (add64 (mul64 (mapping L w pos) cow_block_size) off) len w s.valid.file in
      rw inside (elim r [ inr (n, fails) ↦ rw fails same | inl works ↦ rw works (same, bytes) ])
    where
      m : ℕ
      m = mapping L w pos

      m_small : m ≤ 2 ^ 50
      m_small =
          elim (s.placed (pos / w.cm.sect_size) (pos % w.cm.sect_size)
            ((section_of_block pos w.cm.sect_size w.cm.total_sects s.valid.size_pos h).1)) [
              | inl z ↦ omega arith
              | inr (_, below) ↦ omega (arith, s.head_fits)
            ]

      bytes :
          bytes_at (L.content w.sys) (add64 (mul64 m cow_block_size) off) len
          ≡ take len (drop off d)
      bytes =
          let place : add64 (mul64 m cow_block_size) off ≡ m * 4096 + off =
            omega (arith, m_small) in
          rw (place, data_of (L.content w.sys) m d e)
            (sym (take-drop-bytes_at (L.content w.sys) (m * 4096) off len 4096 fit))
