-- ===== src/Cow/Mapping/Store.antt =====
-- `__cow_write_mapping` sets the mapping of its block, and no other.
use moocbt.Common.{
  ℕ, ◌*◌, ◌/◌, ◌%◌, ◌≤◌, ◌<◌, ◌≡◌, ◌≢◌, ◌⊎◌, refl, ap, ◌∙◌, sym, true, not, ◌&&◌, List, some, ok,
  length, get_elem?, get_or, set, arith, get_elem?-set_self, get_elem?-set_ne, get_elem?_below,
  lt_of_get_elem?, Bool-cases, Option-cases, inl, inr, leb, ◌==◌, if◌then◌else◌, length-set,
  All-set, get_or-set_self, get_or-set_ne,
}
use moocbt.Cow.State.{M}
use native.Mathlib.Decide.{ℕ_discrete}
use moocbt.Word.{add64}
use moocbt.Bytes.Words.{IsWord}
use moocbt.Kernel.{Kernel, IsKernel}
use moocbt.Cow.State.{Section, Cow, World, ◌>>◌, sect_at, and_then, when}
use moocbt.Cow.Sections.{is_loaded, load_section, alloc_section}
use moocbt.Cow.Sections.Cache.{Cached, load_section-Ends, alloc_section-Ends, cached_IsOk}
use moocbt.Cow.Sections.Sync.{Keeps-refl, usage-Keeps}
use moocbt.Cow.Mapping.{
  set_mapping, count_change, evict_if_full, store_loaded, write_mapping, cow_version_changed_blocks,
}
use moocbt.Cow.Mapping.Lookup.{section_of_block, touch_eq, mapping_at_eq, evict_if_full-Ends}
use moocbt.Cow.Inv.{
  Ends, Ends-and_then, Ends-mono, value_at, SectionOk, loaded, loaded_count, loaded-set, core,
  entry, IsValid, Keeps, Keeps-trans,
}
use moocbt.Cow.Inv.Moves.{with_sect}

-- the count of changed blocks, once a mapping that was `old` is written
abbrev pub counted : Cow → ℕ → ℕ
counted cm old =
    if leb cow_version_changed_blocks cm.version && old == 0
    then add64 cm.nr_changed_blocks 1
    else cm.nr_changed_blocks

-- the state with mapping `j` of a cached section set
abbrev stored : {F : Type 0} → World F → ℕ → Section → List ℕ → ℕ → ℕ → World F
stored w i s ms j val = record w {
  cm = record (w.cm) {
    sects = set w.cm.sects i (record s { mappings = some (set ms j val) });
    nr_changed_blocks = counted w.cm (get_or ms j 0);
  };
}

module _ {F : Type 0} {K : Kernel F} (L : IsKernel K) where
  -- What a write of a mapping does: it sets that mapping, counts the block if it had none, and
  -- changes nothing else but the cache.
  pub record Sets (w : World F) (i j val : ℕ) (w' : World F) : Type 0 where
    pub valid : IsValid L w'
    pub hit : entry L w' i j ≡ val
    pub miss : (k l : ℕ) → l < w.cm.sect_size → (k ≢ i) ⊎ (l ≢ j) → entry L w' k l ≡ entry L w k l
    pub outside :
        (p : ℕ) → (p < 4096) ⊎ (w.cm.data_offset ≤ p) → L.content w'.sys p ≡ L.content w.sys p
    pub fixed : core w'.cm ≡ record (core w.cm) { nr_changed_blocks = counted w.cm (entry L w i j) }

  -- Before or after it, mappings may move between cache and file.
  Keeps-Sets :
      {u w w' : World F} (i j val : ℕ)
      → j < u.cm.sect_size
      → Keeps L u w
      → Sets w i j val w'
      → Sets u i j val w'
  Keeps-Sets {u} {w} {w'} i j val lt k s = record {
    valid = s.valid;
    hit = s.hit;
    miss = λ a l h d. s.miss a l (rw (ap (λ c. c.sect_size) k.same.fixed) h) d ∙ k.same.view a l h;
    outside = λ p h. s.outside p (rw (ap (λ c. c.data_offset) k.same.fixed) h) ∙ k.same.outside p h;
    fixed = s.fixed ∙ counted_same;
  }
    where
      counted_same :
          record (core w.cm) { nr_changed_blocks = counted w.cm (entry L w i j) }
          ≡ record (core u.cm) { nr_changed_blocks = counted u.cm (entry L u i j) }
      counted_same =
          let recount : Cow → Cow =
            λ c. record c { nr_changed_blocks = counted c (entry L u i j) } in
          rw (k.same.view i j lt) (ap recount k.same.fixed)

  Sets-Keeps :
      {u w w' : World F} (i j val : ℕ)
      → j < u.cm.sect_size
      → Sets u i j val w
      → Keeps L w w'
      → Sets u i j val w'
  Sets-Keeps {u} {w} {w'} i j val lt s k = record {
    valid = k.valid;
    hit = k.same.view i j (rw (ap (λ c. c.sect_size) s.fixed) lt) ∙ s.hit;
    miss = λ a l h d. k.same.view a l (rw (ap (λ c. c.sect_size) s.fixed) h) ∙ s.miss a l h d;
    outside = λ p h. k.same.outside p (rw (ap (λ c. c.data_offset) s.fixed) h) ∙ s.outside p h;
    fixed = k.same.fixed ∙ s.fixed;
  }

  count_change_eq :
      (old : ℕ) (w : World F)
      → count_change old w
        ≡ (ok tt, record w { cm = record (w.cm) { nr_changed_blocks = counted w.cm old } })
  unfolding count_change
  count_change_eq old w =
      elim (Bool-cases (leb cow_version_changed_blocks w.cm.version && old == 0)) [
        | inl yes' ↦ rw yes'
        | inr no' ↦ rw no'
      ]

  set_mapping_eq :
      (w : World F) (i j val : ℕ) (s : Section) (ms : List ℕ)
      → get_elem? w.cm.sects i ≡ some s
      → s.mappings ≡ some ms
      → set_mapping i j val w
        ≡ (ok tt, with_sect w i (record s { mappings = some (set ms j val) }) w.cm.allocated_sects)
  unfolding set_mapping
  set_mapping_eq w i j val s ms at e = ground arith

  store_loaded_eq :
      (w : World F) (i j val : ℕ) (s : Section) (ms : List ℕ)
      → get_elem? w.cm.sects i ≡ some s
      → s.mappings ≡ some ms
      → j < length ms
      → store_loaded K i j val w ≡ evict_if_full K (stored w i s ms j val)
  unfolding store_loaded
  store_loaded_eq w i j val s ms at e h = rw (
    mapping_at_eq L w i j s ms at e h,
    and_then,
    count_change_eq (get_or ms j 0) w,
    set_mapping_eq
        (record w { cm = record (w.cm) { nr_changed_blocks = counted w.cm (get_or ms j 0) } }) i j
        val s ms at e,
  )

  stored-Sets :
      (w : World F) (i j val : ℕ) (s : Section) (ms : List ℕ)
      → IsValid L w
      → get_elem? w.cm.sects i ≡ some s
      → s.mappings ≡ some ms
      → j < w.cm.sect_size
      → IsWord val
      → Sets w i j val (stored w i s ms j val)
  stored-Sets w i j val s ms v at e h small =
      let (marked, len, words) = cached_IsOk L w i s ms v at e in
      let lt = lt_of_get_elem? w.cm.sects i at in
      let s' : Section = record s { mappings = some (set ms j val) } in
      record {
        valid = record {
          size_pos = v.size_pos;
          count = length-set w.cm.sects i s' ∙ v.count;
          fits = v.fits;
          offset = v.offset;
          sections =
              All-set (SectionOk w.cm.sect_size) w.cm.sects i s' v.sections
                (marked, length-set ms j val ∙ len, All-set IsWord ms j val words small);
          allocated =
              omega (arith, v.allocated, loaded-set w.cm.sects i s s' at, same_count s ms e);
          file = v.file;
        };
        hit =
            rw (get_elem?-set_self w.cm.sects i s' lt)
              (get_or-set_self ms j val 0 (omega (arith, len)));
        miss = λ k l hl d. missed k l hl d;
        outside = λ p q. refl;
        fixed = rw (at, e);
      }
    where
      same_count : (s : Section) (ms : List ℕ) → s.mappings ≡ some ms → loaded_count s.mappings ≡ 1
      same_count s ms e = rw e

      missed :
          (k l : ℕ)
          → l < w.cm.sect_size
          → (k ≢ i) ⊎ (l ≢ j)
          → entry L (stored w i s ms j val) k l ≡ entry L w k l
      missed k l hl d = elim (ℕ_discrete i k) [
        | no ne ↦
            ap (value_at (L.content w.sys) w.cm.sect_size k l)
              (get_elem?-set_ne w.cm.sects i k (record s { mappings = some (set ms j val) }) ne)
        | yes eq ↦
            rw
              (
                ← eq,
                get_elem?-set_self w.cm.sects i (record s { mappings = some (set ms j val) })
                    (lt_of_get_elem? w.cm.sects i at),
                at,
                e,
              )
              (get_or-set_ne ms j l val 0
                (elim d [ inl ne ↦ absurd (ne (sym eq)) | inr ne ↦ λ q. ne (sym q) ]))
      ]

  -- how a write of a mapping may end: not begun, or done, with an eviction that failed
  abbrev pub SetsOrKeeps : World F → ℕ → ℕ → ℕ → World F → Type 0
  SetsOrKeeps w i j val w' = Keeps L w w' ⊎ Sets w i j val w'

  store_loaded-Ends :
      (w : World F) (i j val : ℕ)
      → IsValid L w
      → Cached w i
      → j < w.cm.sect_size
      → IsWord val
      → Ends (SetsOrKeeps w i j val) (λ _ w'. Sets w i j val w') (store_loaded K i j val w)
  store_loaded-Ends w i j val v (s, ms, at, e) h small =
      let (_, len, _) = cached_IsOk L w i s ms v at e in
      let done : Sets w i j val (stored w i s ms j val) =
        stored-Sets w i j val s ms v at e h small in
      let w' = stored w i s ms j val in
      rw (store_loaded_eq w i j val s ms at e (omega (arith, len))) (
        Ends-mono (Keeps L w') (SetsOrKeeps w i j val) (λ _ u. Keeps L w' u)
          (λ _ u. Sets w i j val u) (evict_if_full K w') (evict_if_full-Ends L w' done.valid)
          (λ u k. inr (Sets-Keeps i j val h done k)) (λ _ u k. Sets-Keeps i j val h done k))

  -- `__cow_write_mapping` after the usage count
  abbrev put_value : ℕ → ℕ → ℕ → Section → M F (Unit {0})
  put_value i j val s =
      when (not (is_loaded s)) (if not s.has_data then alloc_section K i true else load_section K i)
      >> store_loaded K i j val

  write_mapping_eq :
      (w : World F) (pos val : ℕ) (s : Section)
      → get_elem? w.cm.sects (pos / w.cm.sect_size) ≡ some s
      → let i = pos / w.cm.sect_size in
        let s' : Section = record s { usage = add64 s.usage 1 } in
        write_mapping K pos val w
        ≡ put_value i (pos % w.cm.sect_size) val s' (with_sect w i s' w.cm.allocated_sects)
  unfolding write_mapping
  write_mapping_eq w pos val s at =
      let i = pos / w.cm.sect_size in
      let s' : Section = record s { usage = add64 s.usage 1 } in
      rw (
        touch_eq L w i s at,
        and_then,
        sect_at,
        get_elem?-set_self w.cm.sects i s' (lt_of_get_elem? w.cm.sects i at),
      )

  ready :
      (w : World F) (i : ℕ) (s : Section)
      → IsValid L w
      → get_elem? w.cm.sects i ≡ some s
      → Ends
          (Keeps L w)
          (λ _ w'. Keeps L w w' × Cached w' i)
          (when
            (not (is_loaded s))
            (if not s.has_data then alloc_section K i true else load_section K i)
            w)
  ready w i s v at = elim (Option-cases s.mappings) [
    | inr (ms, loaded) ↦ rw loaded (Keeps-refl L w v, (s, ms, at, loaded))
    | inl empty ↦ rw empty (elim (Bool-cases s.has_data) [
      | inl marked ↦ rw marked (load_section-Ends L w i s v at empty marked)
      | inr unmarked ↦ rw unmarked (alloc_section-Ends L w i s v at empty unmarked)
    ])
  ]

  put_value-Ends :
      (w : World F) (i j val : ℕ) (s : Section)
      → IsValid L w
      → get_elem? w.cm.sects i ≡ some s
      → j < w.cm.sect_size
      → IsWord val
      → Ends (SetsOrKeeps w i j val) (λ _ w'. Sets w i j val w') (put_value i j val s w)
  put_value-Ends w i j val s v at h small =
      Ends-and_then (SetsOrKeeps w i j val) (λ _ w'. Keeps L w w' × Cached w' i)
        (λ _ w'. Sets w i j val w')
        (when (not (is_loaded s))
          (if not s.has_data then alloc_section K i true else load_section K i) w)
        (λ _. store_loaded K i j val)
        (Ends-mono (Keeps L w) (SetsOrKeeps w i j val) (λ _ w'. Keeps L w w' × Cached w' i)
          (λ _ w'. Keeps L w w' × Cached w' i) _ (ready w i s v at) (λ u k. inl k) (λ _ u p. p))
        (λ _ w' p. then_store w' p.0 p.1)
    where
      then_store :
          (w' : World F)
          → Keeps L w w'
          → Cached w' i
          → Ends (SetsOrKeeps w i j val) (λ _ u. Sets w i j val u) (store_loaded K i j val w')
      then_store w' k c =
          Ends-mono (SetsOrKeeps w' i j val) (SetsOrKeeps w i j val) (λ _ u. Sets w' i j val u)
            (λ _ u. Sets w i j val u) (store_loaded K i j val w')
            (store_loaded-Ends w' i j val k.valid c (rw (ap (λ c. c.sect_size) k.same.fixed) h)
              small)
            (λ u d. elim d [
              | inl k' ↦ inl (Keeps-trans L k.same k')
              | inr st ↦ inr (Keeps-Sets i j val h k st)
            ])
            (λ _ u st. Keeps-Sets i j val h k st)

  -- For a block of the device and a value of 64 bits, `__cow_write_mapping` never runs into a fault.
  -- When it succeeds, the block has that mapping, every other block has the one that it had, the
  -- count of changed blocks has grown if the file's version keeps it and the block had none, and no
  -- byte outside the index and no other field but the cache has changed. When it fails, either
  -- nothing but the cache has changed, or all of this has been done and the eviction failed.
  pub write_mapping-Ends :
      (w : World F) (pos val : ℕ)
      → IsValid L w
      → pos < w.cm.sect_size * w.cm.total_sects
      → IsWord val
      → Ends
          (SetsOrKeeps w (pos / w.cm.sect_size) (pos % w.cm.sect_size) val)
          (λ _ w'. Sets w (pos / w.cm.sect_size) (pos % w.cm.sect_size) val w')
          (write_mapping K pos val w)
  write_mapping-Ends w pos val v h small =
      let i = pos / w.cm.sect_size in
      let j = pos % w.cm.sect_size in
      let (below, inside) = section_of_block pos w.cm.sect_size w.cm.total_sects v.size_pos h in
      let (s, at) = get_elem?_below w.cm.sects i (omega (arith, v.count, below)) in
      let s' : Section = record s { usage = add64 s.usage 1 } in
      let w' = with_sect w i s' w.cm.allocated_sects in
      let first : Keeps L w w' = usage-Keeps L w i (add64 s.usage 1) s v at in
      rw (write_mapping_eq w pos val s at) (
        Ends-mono (SetsOrKeeps w' i j val) (SetsOrKeeps w i j val) (λ _ u. Sets w' i j val u)
          (λ _ u. Sets w i j val u) (put_value i j val s' w')
          (put_value-Ends w' i j val s' first.valid
            (get_elem?-set_self w.cm.sects i s' (lt_of_get_elem? w.cm.sects i at)) inside small)
          (λ u d. elim d [
            | inl k' ↦ inl (Keeps-trans L first.same k')
            | inr st ↦ inr (Keeps-Sets i j val inside first st)
          ])
          (λ _ u st. Keeps-Sets i j val inside first st))
