-- ===== src/Cow/Sections/Cache.antt =====
-- Loading, writing and freeing a section keep every mapping.
use moocbt.Common.{
  ℕ, ◌+◌, ◌*◌, ◌≤◌, ◌<◌, ◌≡◌, ◌⊎◌, inl, inr, refl, ◌∙◌, true, false, List, none, some, ok, length,
  get_elem?, get_or, set, All, arith, replicate, lt_of_get_elem?, length-replicate,
  get_or-replicate, All-replicate, All-get_elem?, subst,
}
use moocbt.Word.{add64, sub64, mul64}
use moocbt.Bytes.Store.{bytes_at, write_at}
use moocbt.Bytes.Words.{
  IsWord, bytes_of_words, parse_words, length-bytes_of_words, length-parse_words,
  parse_words-bytes_at, parse_words-All, word_at-write_at,
}
use moocbt.Kernel.{Kernel, IsKernel}
use moocbt.Cow.State.{Section, World}
use moocbt.Cow.Io.Cases.{file_read_cases, file_write_cases, get_pages_cases}
use moocbt.Cow.Sections.{alloc_section, load_section, sect_offset, evict_section}
use moocbt.Cow.Inv.{
  Ends, value_of, index_offset, SectionOk, MappingsOk, loaded_count, IsValid, Keeps, loaded_pos,
  Keeps-trans,
}
use moocbt.Cow.Inv.Moves.{with_sect, with_sect-Keeps, with_sys-Keeps, quiet-Keeps, sect_offset_lem}
use moocbt.Cow.Sections.Equations.{
  count_bound, with_pages, here, alloc_none, alloc_some, free_eq, load_none, load_fails, load_works,
  write_eq,
}

-- section `i` is cached, with these mappings
abbrev pub Cached : {F : Type 0} → World F → ℕ → Type 0
Cached w i =
    (s : Section) × (ms : List ℕ) × (get_elem? w.cm.sects i ≡ some s) × (s.mappings ≡ some ms)

module _ {F : Type 0} {K : Kernel F} (L : IsKernel K) where
  -- Same bytes, and a section that holds the same values.
  replaced_Keeps :
      (w : World F) (f : F) (i : ℕ) (s s' : Section) (n : ℕ)
      → IsValid L w
      → get_elem? w.cm.sects i ≡ some s
      → SectionOk w.cm.sect_size s'
      → ((j : ℕ)
          → j < w.cm.sect_size
          → value_of (L.content w.sys) w.cm.sect_size i j s'
            ≡ value_of (L.content w.sys) w.cm.sect_size i j s)
      → n + loaded_count s.mappings ≡ w.cm.allocated_sects + loaded_count s'.mappings
      → L.content f ≡ L.content w.sys
      → Keeps L w (record (with_sect w i s' n) { sys = f })
  replaced_Keeps w f i s s' n v at good same total quiet =
      let first : Keeps L w (with_sect w i s' n) =
        with_sect-Keeps L w i s s' n v at good same total in
      Keeps-trans L first.same (quiet-Keeps L (with_sect w i s' n) f first.valid quiet)

  loaded_value :
      (w : World F) (i : ℕ) (s : Section) (ms : List ℕ)
      → IsValid L w
      → get_elem? w.cm.sects i ≡ some s
      → s.mappings ≡ none
      → s.has_data ≡ true
      → ms
        ≡ parse_words w.cm.sect_size
            (bytes_at (L.content w.sys) (sect_offset w.cm.sect_size i) (mul64 w.cm.sect_size 8))
      → (j : ℕ) → j < w.cm.sect_size
      → get_or ms j 0 ≡ value_of (L.content w.sys) w.cm.sect_size i j s
  loaded_value w i s ms v at empty marked e j h =
      let (off, len, _) = sect_offset_lem L w i v (lt_of_get_elem? w.cm.sects i at) in
      let place : index_offset w.cm.sect_size i 0 + 8 * j ≡ index_offset w.cm.sect_size i j =
        omega arith in
      rw (e, empty, marked, off, len)
        (rw (← place) (
          parse_words-bytes_at (L.content w.sys) (index_offset w.cm.sect_size i 0) w.cm.sect_size
            (w.cm.sect_size * 8) (omega arith) j h))

  loaded_IsOk :
      (w : World F) (i : ℕ) (ms : List ℕ)
      → IsValid L w
      → i < length w.cm.sects
      → ms
        ≡ parse_words w.cm.sect_size
            (bytes_at (L.content w.sys) (sect_offset w.cm.sect_size i) (mul64 w.cm.sect_size 8))
      → (true ≡ true) × (length ms ≡ w.cm.sect_size) × All IsWord ms
  loaded_IsOk w i ms v h e =
      let (off, len, _) = sect_offset_lem L w i v h in
      (
        refl,
        rw e (
            length-parse_words w.cm.sect_size
              (bytes_at (L.content w.sys) (sect_offset w.cm.sect_size i) (mul64 w.cm.sect_size 8))),
        rw (e, off, len)
            (parse_words-All (L.content w.sys) (index_offset w.cm.sect_size i 0) w.cm.sect_size
              (w.cm.sect_size * 8) (omega arith) (L.content-lt w.sys)),
      )

  -- Loading a section that is not cached keeps every mapping, and caches it unless it fails.
  pub load_section-Ends :
      (w : World F) (i : ℕ) (s : Section)
      → IsValid L w
      → get_elem? w.cm.sects i ≡ some s
      → s.mappings ≡ none
      → s.has_data ≡ true
      → Ends (Keeps L w) (λ _ w'. Keeps L w w' × Cached w' i) (load_section K i w)
  load_section-Ends w i s v at empty marked =
      let (f, same, r) = get_pages_cases L w.cm.log_sect_pages w.cm.sect_size false w in
      elim r [
        | inl e ↦ rw (load_none L w i s at f (alloc_none L w i s at f false e)) (dropped f same)
        | inr (ms, e) ↦ read f same ms (alloc_some L w i s at f false ms e)
      ]
    where
      lt : i < length w.cm.sects
      lt = lt_of_get_elem? w.cm.sects i at

      dropped :
          (f : F)
          → L.content f ≡ L.content w.sys
          → Keeps L w (record (with_sect w i (record s { mappings = none }) w.cm.allocated_sects) {
            sys = f;
          })
      dropped f same =
          replaced_Keeps w f i s (record s { mappings = none }) w.cm.allocated_sects v at tt
            (λ j h. rw empty refl) (rw empty (omega arith)) same

      failed :
          (f : F)
          → L.content f ≡ L.content w.sys
          → Keeps L w
              (record (with_sect w i
                (record s { mappings = none; has_data = true })
                (sub64 (add64 w.cm.allocated_sects 1) 1)) { sys = f })
      failed f same =
          replaced_Keeps w f i s (record s { mappings = none; has_data = true })
            (sub64 (add64 w.cm.allocated_sects 1) 1) v at tt (λ j h. rw (empty, marked) refl)
            (rw empty (omega (arith, count_bound L w v))) same

      read :
          (f : F)
          → L.content f ≡ L.content w.sys
          → (ms : List ℕ) → alloc_section K i false w ≡ (ok tt, with_pages L w i s ms f)
          → Ends (Keeps L w) (λ _ w'. Keeps L w w' × Cached w' i) (load_section K i w)
      read f same ms e =
          let (g, quiet, r) =
            file_read_cases L (sect_offset w.cm.sect_size i) (mul64 w.cm.sect_size 8)
              (with_pages L w i s ms f) v.file in
          elim r [
            | inr (n, er) ↦ rw (load_fails L w i s at f g ms n e er) (failed g (quiet ∙ same))
            | inl er ↦
                rw
                  (load_works L w i s at f g ms
                    (bytes_at (L.content f) (sect_offset w.cm.sect_size i) (mul64 w.cm.sect_size 8))
                    e er)
                  (
                    replaced_Keeps w g i s
                        (record s {
                          mappings = some (
                              parse_words w.cm.sect_size (
                                bytes_at (L.content f) (sect_offset w.cm.sect_size i)
                                  (mul64 w.cm.sect_size 8)));
                          has_data = true;
                        })
                        (add64 w.cm.allocated_sects 1) v at (loaded_IsOk w i _ v lt (rw same refl))
                        (loaded_value w i s _ v at empty marked (rw same refl))
                        (rw empty (omega (arith, count_bound L w v))) (quiet ∙ same),
                    (_, _, here L w i s at _, refl),
                  )
          ]

  -- What validity says of a cached section.
  pub cached_IsOk :
      (w : World F) (i : ℕ) (s : Section) (ms : List ℕ)
      → IsValid L w
      → get_elem? w.cm.sects i ≡ some s
      → s.mappings ≡ some ms
      → (s.has_data ≡ true) × (length ms ≡ w.cm.sect_size) × All IsWord ms
  cached_IsOk w i s ms v at e =
      subst (λ o. MappingsOk w.cm.sect_size s.has_data o) e
        (All-get_elem? (SectionOk w.cm.sect_size) w.cm.sects i v.sections at)

  -- Allocating a section that never had data keeps every mapping, as all of them are 0.
  pub alloc_section-Ends :
      (w : World F) (i : ℕ) (s : Section)
      → IsValid L w
      → get_elem? w.cm.sects i ≡ some s
      → s.mappings ≡ none
      → s.has_data ≡ false
      → Ends (Keeps L w) (λ _ w'. Keeps L w w' × Cached w' i) (alloc_section K i true w)
  alloc_section-Ends w i s v at empty unmarked =
      let (f, same, r) = get_pages_cases L w.cm.log_sect_pages w.cm.sect_size true w in
      elim r [
        | inl e ↦ rw (alloc_none L w i s at f true e) (
            replaced_Keeps w f i s (record s { mappings = none }) w.cm.allocated_sects v at tt
              (λ j h. rw empty refl) (rw empty (omega arith)) same)
        | inr (ms, e) ↦ rw (alloc_some L w i s at f true (replicate w.cm.sect_size 0) e) (
          replaced_Keeps w f i s
              (record s { mappings = some (replicate w.cm.sect_size 0); has_data = true })
              (add64 w.cm.allocated_sects 1) v at
              (
                refl,
                length-replicate w.cm.sect_size 0,
                All-replicate IsWord w.cm.sect_size 0 (omega arith),
              )
              (λ j h. rw (empty, unmarked) (get_or-replicate w.cm.sect_size j 0))
              (rw empty (omega (arith, count_bound L w v))) same,
          (_, _, here L w i s at _, refl),
        )
      ]

  -- The round of `__cow_sync_and_free_sections` that writes a cached section and frees it.
  evicted :
      (w : World F) (f : F) (i : ℕ) (s : Section) (ms : List ℕ)
      → IsValid L w
      → get_elem? w.cm.sects i ≡ some s
      → s.mappings ≡ some ms
      → Keeps L w (record w { sys = f })
      → L.content f ≡ write_at (L.content w.sys) (sect_offset w.cm.sect_size i) (bytes_of_words ms)
      → Keeps L w
          (record (with_sect w i (record s { mappings = none }) (sub64 w.cm.allocated_sects 1)) {
            sys = f;
          })
  evicted w f i s ms v at e kept stored = Keeps-trans L kept.same (
      with_sect-Keeps L (record w { sys = f }) i s (record s { mappings = none })
        (sub64 w.cm.allocated_sects 1) kept.valid at tt same_value
        (rw e (omega (arith, count_bound L w v, v.allocated, loaded_pos w.cm.sects i s ms at e))))
    where
      same_value :
          (j : ℕ)
          → j < w.cm.sect_size
          → value_of (L.content f) w.cm.sect_size i j (record s { mappings = none })
            ≡ value_of (L.content f) w.cm.sect_size i j s
      same_value j h =
          let (marked, len, small) = cached_IsOk w i s ms v at e in
          let (off, _, _) = sect_offset_lem L w i v (lt_of_get_elem? w.cm.sects i at) in
          let place : index_offset w.cm.sect_size i j ≡ index_offset w.cm.sect_size i 0 + 8 * j =
            omega arith in
          rw (e, marked, stored, off, place)
            (word_at-write_at (L.content w.sys) (index_offset w.cm.sect_size i 0) ms j small
              (omega (arith, len)))

  pub evict_section-Ends :
      (w : World F) (i : ℕ) (s : Section) (ms : List ℕ)
      → IsValid L w
      → get_elem? w.cm.sects i ≡ some s
      → s.mappings ≡ some ms
      → Ends
          (Keeps L w)
          (λ _ w'. Keeps L w w' × (w'.cm.sects ≡ set w.cm.sects i (record s { mappings = none })))
          (evict_section K i w)
  evict_section-Ends w i s ms v at e =
      let (off, _, _) = sect_offset_lem L w i v (lt_of_get_elem? w.cm.sects i at) in
      let (_, len, _) = cached_IsOk w i s ms v at e in
      let (f, frame, r) =
        file_write_cases L (sect_offset w.cm.sect_size i) (bytes_of_words ms) w v.file in
      let kept : Keeps L w (record w { sys = f }) =
        with_sys-Keeps L w f i s ms v at e (λ p h. frame p (outside p off len h)) in
      elim r [
        | inr (n, er) ↦ rw (write_eq L w i s at ms e, er) kept
        | inl (er, stored) ↦
            rw (write_eq L w i s at ms e, er, free_eq L (record w { sys = f }) i s at)
              (evicted w f i s ms v at e kept stored, refl)
      ]
    where
      outside :
          (p : ℕ)
          → sect_offset w.cm.sect_size i ≡ index_offset w.cm.sect_size i 0
          → length ms ≡ w.cm.sect_size
          → (p < index_offset w.cm.sect_size i 0)
            ⊎ (index_offset w.cm.sect_size i 0 + w.cm.sect_size * 8 ≤ p)
          → (p < sect_offset w.cm.sect_size i)
            ⊎ (sect_offset w.cm.sect_size i + length (bytes_of_words ms) ≤ p)
      outside p off len h =
          rw off
            (elim h [ inl a ↦ inl a | inr a ↦ inr (omega (arith, len, length-bytes_of_words ms)) ])
