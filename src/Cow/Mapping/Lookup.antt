-- ===== src/Cow/Mapping/Lookup.antt =====
-- `cow_read_mapping` returns the mapping of its block and changes none, also when it evicts.
use moocbt.Common.{
  ℕ, ◌*◌, ◌/◌, ◌%◌, ◌<◌, ◌≡◌, ap, ◌∙◌, true, false, not, ◌&&◌, List, none, some, ok, length,
  get_elem?, get_or, arith, get_elem?-set_self, get_elem?_below, lt_of_get_elem?, Bool-cases,
  Option-cases, inl, inr, ltb, if◌then◌else◌,
}
use moocbt.Word.{add64}
use moocbt.Kernel.{Kernel, IsKernel}
use moocbt.Cow.State.{Section, World, M, ◌>>=◌, ◌>>◌, sect_at, and_then, when, pure}
use moocbt.Cow.Sections.{is_loaded, load_section}
use moocbt.Cow.Sections.Cache.{Cached, load_section-Ends, cached_IsOk}
use moocbt.Cow.Sections.Sync.{Keeps-refl, usage-Keeps}
use moocbt.Cow.Cleanup.Evict.{cleanup_mappings-Ends}
use moocbt.Cow.Mapping.{touch, mapping_at, evict_if_full, read_loaded, read_mapping}
use moocbt.Cow.Inv.{Ends, Ends-and_then, Ends-mono, entry, mapping, IsValid, Keeps, Keeps-trans}
use moocbt.Cow.Inv.Moves.{with_sect}

-- A block of the device has its section in the array.
pub section_of_block :
    (pos ss total : ℕ) → 0 < ss → pos < ss * total → (pos / ss < total) × (pos % ss < ss)
section_of_block pos ss total h k = grind arith

module _ {F : Type 0} {K : Kernel F} (L : IsKernel K) where
  pub touch_eq :
      (w : World F) (i : ℕ) (s : Section)
      → get_elem? w.cm.sects i ≡ some s
      → touch i w
        ≡ (ok tt, with_sect w i (record s { usage = add64 s.usage 1 }) w.cm.allocated_sects)
  unfolding touch
  touch_eq w i s at = rw (at, touch, ◌>>=◌, sect_at, and_then)

  pub mapping_at_eq :
      (w : World F) (i j : ℕ) (s : Section) (ms : List ℕ)
      → get_elem? w.cm.sects i ≡ some s
      → s.mappings ≡ some ms
      → j < length ms
      → mapping_at i j w ≡ (ok (get_or ms j 0), w)
  unfolding mapping_at
  mapping_at_eq w i j s ms at e h = ground arith

  pub evict_if_full-Ends :
      (w : World F) → IsValid L w → Ends (Keeps L w) (λ _ w'. Keeps L w w') (evict_if_full K w)
  unfolding evict_if_full
  evict_if_full-Ends w v = elim (Bool-cases (ltb w.cm.allowed_sects w.cm.allocated_sects)) [
    | inl full ↦ rw full (cleanup_mappings-Ends L w v)
    | inr room ↦ rw room (Keeps-refl L w v)
  ]

  read_loaded-Ends :
      (w : World F) (i j : ℕ)
      → IsValid L w
      → Cached w i
      → j < w.cm.sect_size
      → Ends (Keeps L w) (λ out w'. Keeps L w w' × (out ≡ entry L w i j)) (read_loaded K i j w)
  unfolding read_loaded
  read_loaded-Ends w i j v (s, ms, at, e) h =
      let (_, len, _) = cached_IsOk L w i s ms v at e in
      let value : get_or ms j 0 ≡ entry L w i j = rw (at, e) in
      rw (mapping_at_eq w i j s ms at e (omega (arith, len))) (
        Ends-and_then (Keeps L w) (λ _ w'. Keeps L w w')
          (λ out w'. Keeps L w w' × (out ≡ entry L w i j)) (evict_if_full K w)
          (λ _. pure (get_or ms j 0)) (evict_if_full-Ends w v) (λ _ w' k. (k, value)))

  -- `cow_read_mapping` after the usage count
  abbrev look_up : ℕ → ℕ → Section → M F ℕ
  look_up i j s =
      if not (is_loaded s) && not s.has_data
      then pure 0
      else (when (not (is_loaded s)) (load_section K i) >> read_loaded K i j)

  read_mapping_eq :
      (w : World F) (pos : ℕ) (s : Section)
      → get_elem? w.cm.sects (pos / w.cm.sect_size) ≡ some s
      → let i = pos / w.cm.sect_size in
        let s' : Section = record s { usage = add64 s.usage 1 } in
        read_mapping K pos w
        ≡ look_up i (pos % w.cm.sect_size) s' (with_sect w i s' w.cm.allocated_sects)
  unfolding read_mapping
  read_mapping_eq w pos s at =
      let i = pos / w.cm.sect_size in
      let s' : Section = record s { usage = add64 s.usage 1 } in
      rw (
        touch_eq w i s at,
        and_then,
        sect_at,
        get_elem?-set_self w.cm.sects i s' (lt_of_get_elem? w.cm.sects i at),
      )

  Cached-or_loaded :
      (w : World F) (i : ℕ) (s : Section)
      → IsValid L w
      → get_elem? w.cm.sects i ≡ some s
      → (not (is_loaded s) && not s.has_data) ≡ false
      → Ends
          (Keeps L w)
          (λ _ w'. Keeps L w w' × Cached w' i)
          (when (not (is_loaded s)) (load_section K i) w)
  Cached-or_loaded w i s v at e = elim (Option-cases s.mappings) [
    | inr (ms, loaded) ↦ rw loaded (Keeps-refl L w v, (s, ms, at, loaded))
    | inl empty ↦ rw empty (load_section-Ends L w i s v at empty (has empty))
  ]
    where
      has : s.mappings ≡ none → s.has_data ≡ true
      has empty = ground arith

  look_up-Ends :
      (w : World F) (i j : ℕ) (s : Section)
      → IsValid L w
      → get_elem? w.cm.sects i ≡ some s
      → j < w.cm.sect_size
      → Ends (Keeps L w) (λ out w'. Keeps L w w' × (out ≡ entry L w i j)) (look_up i j s w)
  look_up-Ends w i j s v at h = elim (Bool-cases (not (is_loaded s) && not s.has_data)) [
    | inl never ↦ rw never (Keeps-refl L w v, unset never)
    | inr some_data ↦ rw some_data (
        Ends-and_then (Keeps L w) (λ _ w'. Keeps L w w' × Cached w' i)
          (λ out w'. Keeps L w w' × (out ≡ entry L w i j))
          (when (not (is_loaded s)) (load_section K i) w) (λ _. read_loaded K i j)
          (Cached-or_loaded w i s v at some_data) (λ _ w' p. then_read w' p.0 p.1))
  ]
    where
      unset : (not (is_loaded s) && not s.has_data) ≡ true → 0 ≡ entry L w i j
      unset never = rw at (ground arith)

      then_read :
          (w' : World F)
          → Keeps L w w'
          → Cached w' i
          → Ends (Keeps L w) (λ out u. Keeps L w u × (out ≡ entry L w i j)) (read_loaded K i j w')
      then_read w' k c =
          Ends-mono (Keeps L w') (Keeps L w) (λ out u. Keeps L w' u × (out ≡ entry L w' i j))
            (λ out u. Keeps L w u × (out ≡ entry L w i j)) (read_loaded K i j w')
            (read_loaded-Ends w' i j k.valid c (rw (ap (λ c. c.sect_size) k.same.fixed) h))
            (λ u k'. Keeps-trans L k.same k')
            (λ out u p. (Keeps-trans L k.same p.0, p.1 ∙ k.same.view i j h))

  -- For a block of the device, `cow_read_mapping` never runs into a fault; when it succeeds it
  -- returns the block's mapping. Whether it succeeds or not, and whether or not it loads a section or
  -- evicts others, no mapping, no byte outside the index and no field but the cache changes.
  pub read_mapping-Ends :
      (w : World F) (pos : ℕ)
      → IsValid L w
      → pos < w.cm.sect_size * w.cm.total_sects
      → Ends (Keeps L w) (λ out w'. Keeps L w w' × (out ≡ mapping L w pos)) (read_mapping K pos w)
  read_mapping-Ends w pos v h =
      let i = pos / w.cm.sect_size in
      let j = pos % w.cm.sect_size in
      let (below, inside) = section_of_block pos w.cm.sect_size w.cm.total_sects v.size_pos h in
      let (s, at) = get_elem?_below w.cm.sects i (omega (arith, v.count, below)) in
      let s' : Section = record s { usage = add64 s.usage 1 } in
      let w' = with_sect w i s' w.cm.allocated_sects in
      let first : Keeps L w w' = usage-Keeps L w i (add64 s.usage 1) s v at in
      rw (read_mapping_eq w pos s at) (
        Ends-mono (Keeps L w') (Keeps L w) (λ out u. Keeps L w' u × (out ≡ entry L w' i j))
          (λ out u. Keeps L w u × (out ≡ mapping L w pos)) (look_up i j s' w')
          (look_up-Ends w' i j s' first.valid
            (get_elem?-set_self w.cm.sects i s' (lt_of_get_elem? w.cm.sects i at)) inside)
          (λ u k. Keeps-trans L first.same k)
          (λ out u p. (Keeps-trans L first.same p.0, p.1 ∙ first.same.view i j inside)))
