-- ===== src/Cow/Sections/Equations.antt =====
-- The functions on sections as equations, one for each way that a call can go.
use moocbt.Common.{
  ℕ, ◌*◌, ◌^◌, ◌≤◌, ◌<◌, ◌≡◌, refl, Bool, true, false, List, none, some, enomem, ok, err, get_elem?,
  set, arith, get_elem?-set_self, set-set, lt_of_get_elem?,
}
use moocbt.Word.{add64, sub64, mul64}
use moocbt.Bytes.Words.{bytes_of_words, parse_words}
use moocbt.Kernel.{Kernel, IsKernel}
use moocbt.Cow.State.{Section, World, ◌>>=◌, sect_at, and_then}
use moocbt.Cow.Io.{file_write, file_read, get_pages}
use moocbt.Cow.Sections.{
  free_section, alloc_section, load_section, write_section, sect_offset, drop_section, fill_section,
}
use moocbt.Cow.Inv.{loaded-le, IsValid}
use moocbt.Cow.Inv.Moves.{with_sect}

module _ {F : Type 0} {K : Kernel F} (L : IsKernel K) where
  pub count_bound : (w : World F) → IsValid L w → w.cm.allocated_sects < 2 ^ 62
  count_bound w v =
      let many : w.cm.total_sects ≤ w.cm.sect_size * w.cm.total_sects = grind (arith, v.size_pos) in
      omega (arith, v.fits, v.allocated, v.count, loaded-le w.cm.sects, many)

  -- the state once pages are allocated for a section
  abbrev pub with_pages : World F → ℕ → Section → List ℕ → F → World F
  with_pages w i s ms f =
      record (with_sect w i (record s { mappings = some ms; has_data = true })
        (add64 w.cm.allocated_sects 1)) { sys = f }

  module _ (w : World F) (i : ℕ) (s : Section) (at : get_elem? w.cm.sects i ≡ some s) where
    pub here : (s' : Section) → get_elem? (set w.cm.sects i s') i ≡ some s'
    here s' = get_elem?-set_self w.cm.sects i s' (lt_of_get_elem? w.cm.sects i at)

    pub alloc_none :
        (f : F) (zeroed : Bool)
        → get_pages K w.cm.log_sect_pages w.cm.sect_size zeroed w ≡ (ok none, record w { sys = f })
        → alloc_section K i zeroed w ≡ (
          err enomem,
          record (with_sect w i (record s { mappings = none }) w.cm.allocated_sects) { sys = f },
        )
    unfolding alloc_section
    alloc_none f zeroed e = rw (at, e)

    pub alloc_some :
        (f : F) (zeroed : Bool) (ms : List ℕ)
        → get_pages K w.cm.log_sect_pages w.cm.sect_size zeroed w
          ≡ (ok (some ms), record w { sys = f })
        → alloc_section K i zeroed w ≡ (ok tt, with_pages w i s ms f)
    unfolding alloc_section
    alloc_some f zeroed ms e = rw (at, e)

    pub free_eq :
        free_section i w
        ≡ (ok tt, with_sect w i (record s { mappings = none }) (sub64 w.cm.allocated_sects 1))
    unfolding free_section
    free_eq = rw (at, free_section, ◌>>=◌, sect_at, and_then)

    pub drop_empty : s.mappings ≡ none → drop_section K i w ≡ (ok tt, w)
    unfolding drop_section
    drop_empty e = ground arith

    pub drop_full :
        (ms : List ℕ)
        → s.mappings ≡ some ms
        → drop_section K i w
          ≡ (ok tt, with_sect w i (record s { mappings = none }) (sub64 w.cm.allocated_sects 1))
    unfolding drop_section
    drop_full ms e = ground (arith, free_eq)

    pub fill_eq :
        (ms : List ℕ)
        → fill_section K i ms w
          ≡ (ok tt, with_sect w i (record s { mappings = some ms }) w.cm.allocated_sects)
    unfolding fill_section
    fill_eq ms = ground arith

  module _ (w : World F) (i : ℕ) (s : Section) (at : get_elem? w.cm.sects i ≡ some s) where
    pub load_none :
        (f : F)
        → alloc_section K i false w ≡ (
          err enomem,
          record (with_sect w i (record s { mappings = none }) w.cm.allocated_sects) { sys = f },
        )
        → load_section K i w ≡ (
          err enomem,
          record (with_sect w i (record s { mappings = none }) w.cm.allocated_sects) { sys = f },
        )
    unfolding load_section
    load_none f e = rw (
      e,
      drop_empty
          (record (with_sect w i (record s { mappings = none }) w.cm.allocated_sects) { sys = f }) i
          (record s { mappings = none }) (here w i s at (record s { mappings = none })) refl,
    )

    pub load_fails :
        (f g : F) (ms : List ℕ) (n : ℕ)
        → alloc_section K i false w ≡ (ok tt, with_pages w i s ms f)
        → file_read K
            (sect_offset w.cm.sect_size i)
            (mul64 w.cm.sect_size 8)
            (with_pages w i s ms f)
          ≡ (err n, record (with_pages w i s ms f) { sys = g })
        → load_section K i w ≡ (
          err n,
          record (with_sect w i
              (record s { mappings = none; has_data = true })
              (sub64 (add64 w.cm.allocated_sects 1) 1)) { sys = g },
        )
    unfolding load_section
    load_fails f g ms n e r = rw (
      e,
      r,
      drop_full (record (with_pages w i s ms f) { sys = g }) i
          (record s { mappings = some ms; has_data = true })
          (here w i s at (record s { mappings = some ms; has_data = true })) ms refl,
      set-set w.cm.sects i (record s { mappings = some ms; has_data = true })
          (record s { mappings = none; has_data = true }),
    )

    pub load_works :
        (f g : F) (ms bs : List ℕ)
        → alloc_section K i false w ≡ (ok tt, with_pages w i s ms f)
        → file_read K
            (sect_offset w.cm.sect_size i)
            (mul64 w.cm.sect_size 8)
            (with_pages w i s ms f)
          ≡ (ok bs, record (with_pages w i s ms f) { sys = g })
        → load_section K i w ≡ (ok tt, with_pages w i s (parse_words w.cm.sect_size bs) g)
    unfolding load_section
    load_works f g ms bs e r = rw (
      e,
      r,
      fill_eq (record (with_pages w i s ms f) { sys = g }) i
          (record s { mappings = some ms; has_data = true })
          (here w i s at (record s { mappings = some ms; has_data = true }))
          (parse_words w.cm.sect_size bs),
      set-set w.cm.sects i (record s { mappings = some ms; has_data = true })
          (record s { mappings = some (parse_words w.cm.sect_size bs); has_data = true }),
    )

    pub write_eq :
        (ms : List ℕ)
        → s.mappings ≡ some ms
        → write_section K i w ≡ file_write K (sect_offset w.cm.sect_size i) (bytes_of_words ms) w
    unfolding write_section
    write_eq ms e = rw (at, e, write_section, ◌>>=◌, sect_at, and_then)
