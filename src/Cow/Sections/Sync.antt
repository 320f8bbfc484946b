-- ===== src/Cow/Sections/Sync.antt =====
-- `__cow_sync_and_free_sections` keeps every mapping, and with a threshold of zero it leaves
-- no section in memory.
use moocbt.Common.{
  ℕ, zero, suc, ◌+◌, ◌<◌, ◌≡◌, ◌≢◌, refl, ap, ◌∙◌, sym, true, false, List, [], ◌∷◌, Option, none,
  some, ok, length, get_elem?, set, arith, get_elem?-set_self, get_elem?-set_ne, get_elem?_below,
  lt_of_get_elem?, Bool-cases, inl, inr, All-get_elem?,
}
use moocbt.Kernel.{Kernel, IsKernel}
use moocbt.Cow.State.{Section, World, ◌>>=◌, sect_at, and_then, when}
use moocbt.Cow.Sections.{
  evict_section, reset_usage, is_evicted, sync_goes_on, sync_section, sync_from,
  sync_and_free_sections,
}
use moocbt.Cow.Sections.Cache.{evict_section-Ends}
use moocbt.Cow.Inv.{
  Ends, Ends-and_then, Ends-mono, SectionOk, loaded, IsValid, Keeps, Same-refl, Keeps-trans,
}
use moocbt.Cow.Inv.Moves.{with_sect, with_sect-Keeps}
use native.Mathlib.Decide.{ℕ_discrete}

pub loaded-none :
    (xs : List Section)
    → ((k : ℕ) (s : Section) → get_elem? xs k ≡ some s → s.mappings ≡ none)
    → loaded xs ≡ 0
loaded-none [] h = refl
loaded-none (x ∷ xs) h = rw (h 0 x refl, loaded-none xs (λ k s e. h (suc k) s e)) refl

kept_mappings : Option Section → Option (List ℕ)
kept_mappings none = none
kept_mappings (some s) = s.mappings

module _ {F : Type 0} {K : Kernel F} (L : IsKernel K) where
  pub Keeps-refl : (w : World F) → IsValid L w → Keeps L w w
  Keeps-refl w v = record { valid = v; same = Same-refl L w }

  -- the number of sections does not change
  pub Keeps-length :
      {w w' : World F} → IsValid L w → Keeps L w w' → length w'.cm.sects ≡ length w.cm.sects
  Keeps-length v k = k.valid.count ∙ ap (λ c. c.total_sects) k.same.fixed ∙ sym v.count

  -- A change of the usage count alone keeps every mapping.
  pub usage-Keeps :
      (w : World F) (i n : ℕ) (s : Section)
      → IsValid L w
      → get_elem? w.cm.sects i ≡ some s
      → Keeps L w (with_sect w i (record s { usage = n }) w.cm.allocated_sects)
  usage-Keeps w i n s v at =
      with_sect-Keeps L w i s (record s { usage = n }) w.cm.allocated_sects v at
        (All-get_elem? (SectionOk w.cm.sect_size) w.cm.sects i v.sections at) (λ j h. refl) refl

  reset_eq :
      (w : World F) (i : ℕ) (s : Section)
      → get_elem? w.cm.sects i ≡ some s
      → reset_usage K i w ≡ (ok tt, with_sect w i (record s { usage = 0 }) w.cm.allocated_sects)
  unfolding reset_usage
  reset_eq w i s at = rw (at, reset_usage, ◌>>=◌, sect_at, and_then)

  sync_section_eq :
      (thresh : ℕ) (w : World F) (i : ℕ) (s : Section)
      → get_elem? w.cm.sects i ≡ some s
      → sync_section K thresh i w
        ≡ and_then (when (is_evicted thresh s) (evict_section K i) w) (λ _. reset_usage K i)
  unfolding sync_section
  sync_section_eq thresh w i s at = rw (at, sync_section, ◌>>=◌, sect_at, and_then)

  -- Only section `i` differs, and with a threshold of zero it is no longer in memory.
  abbrev Visited : ℕ → ℕ → World F → World F → Type 0
  Visited thresh i w w' =
      ((k : ℕ) → k ≢ i → get_elem? w'.cm.sects k ≡ get_elem? w.cm.sects k)
      × (thresh ≡ 0 → (s : Section) → get_elem? w'.cm.sects i ≡ some s → s.mappings ≡ none)

  evict_or_not :
      (thresh : ℕ) (w : World F) (i : ℕ) (s : Section)
      → IsValid L w
      → get_elem? w.cm.sects i ≡ some s
      → Ends
          (Keeps L w)
          (λ _ w'.
            Keeps L w w'
            × ((s' : Section) × (get_elem? w'.cm.sects i ≡ some s')
                × (thresh ≡ 0 → s'.mappings ≡ none))
            × ((k : ℕ) → k ≢ i → get_elem? w'.cm.sects k ≡ get_elem? w.cm.sects k))
          (when (is_evicted thresh s) (evict_section K i) w)
  evict_or_not thresh w i s v at = elim (Bool-cases (is_evicted thresh s)) [
    | inr out ↦ rw out (Keeps-refl w v, (s, at, λ z. stays z out), λ k ne. refl)
    | inl evicted ↦ rw evicted (leaves evicted)
  ]
    where
      stays : thresh ≡ 0 → is_evicted thresh s ≡ false → s.mappings ≡ none
      stays z out = ground arith

      some_mappings : is_evicted thresh s ≡ true → (ms : List ℕ) × (s.mappings ≡ some ms)
      some_mappings e = ground arith

      leaves :
          is_evicted thresh s ≡ true
          → Ends
              (Keeps L w)
              (λ _ w'.
                Keeps L w w'
                × ((s' : Section) × (get_elem? w'.cm.sects i ≡ some s')
                    × (thresh ≡ 0 → s'.mappings ≡ none))
                × ((k : ℕ) → k ≢ i → get_elem? w'.cm.sects k ≡ get_elem? w.cm.sects k))
              (evict_section K i w)
      leaves e =
          let (ms, em) = some_mappings e in
          Ends-mono (Keeps L w) (Keeps L w)
            (λ _ w'. Keeps L w w' × (w'.cm.sects ≡ set w.cm.sects i (record s { mappings = none })))
            (λ _ w'.
              Keeps L w w'
              × ((s' : Section) × (get_elem? w'.cm.sects i ≡ some s')
                  × (thresh ≡ 0 → s'.mappings ≡ none))
              × ((k : ℕ) → k ≢ i → get_elem? w'.cm.sects k ≡ get_elem? w.cm.sects k))
            (evict_section K i w) (evict_section-Ends L w i s ms v at em) (λ w' k. k)
            (λ _ w' p. (
              p.0,
              (
                record s { mappings = none },
                rw (p.1) (
                    get_elem?-set_self w.cm.sects i (record s { mappings = none })
                      (lt_of_get_elem? w.cm.sects i at)),
                λ z. refl,
              ),
              λ k ne. rw (p.1) (
                  get_elem?-set_ne w.cm.sects i k (record s { mappings = none }) (λ e. ne (sym e))),
            ))

  sync_section-Ends :
      (thresh : ℕ) (w : World F) (i : ℕ)
      → IsValid L w
      → i < length w.cm.sects
      → Ends (Keeps L w) (λ _ w'. Keeps L w w' × Visited thresh i w w') (sync_section K thresh i w)
  unfolding kept_mappings
  sync_section-Ends thresh w i v lt =
      let (s, at) = get_elem?_below w.cm.sects i lt in
      rw (sync_section_eq thresh w i s at) (
        Ends-and_then (Keeps L w)
          (λ _ w'.
            Keeps L w w'
            × ((s' : Section) × (get_elem? w'.cm.sects i ≡ some s')
                × (thresh ≡ 0 → s'.mappings ≡ none))
            × ((k : ℕ) → k ≢ i → get_elem? w'.cm.sects k ≡ get_elem? w.cm.sects k))
          (λ _ w'. Keeps L w w' × Visited thresh i w w')
          (when (is_evicted thresh s) (evict_section K i) w) (λ _. reset_usage K i)
          (evict_or_not thresh w i s v at) (λ _ w' p. reset w' p.0 (p.1.0) (p.1.1) (p.1.2) p.2))
    where
      reset :
          (w' : World F)
          → Keeps L w w'
          → (s' : Section) → get_elem? w'.cm.sects i ≡ some s'
          → (thresh ≡ 0 → s'.mappings ≡ none)
          → ((k : ℕ) → k ≢ i → get_elem? w'.cm.sects k ≡ get_elem? w.cm.sects k)
          → Ends (Keeps L w) (λ _ w'. Keeps L w w' × Visited thresh i w w') (reset_usage K i w')
      reset w' kept s' at' gone others =
          let lt' : i < length w'.cm.sects = lt_of_get_elem? w'.cm.sects i at' in
          rw (reset_eq w' i s' at') (
            Keeps-trans L kept.same (usage-Keeps w' i 0 s' kept.valid at'),
            (
              λ k ne.
                  get_elem?-set_ne w'.cm.sects i k (record s' { usage = 0 }) (λ e. ne (sym e))
                  ∙ others k ne,
              λ z t e.
                  let same : some (record s' { usage = 0 }) ≡ some t =
                    sym (get_elem?-set_self w'.cm.sects i (record s' { usage = 0 }) lt') ∙ e in
                  sym (ap kept_mappings same) ∙ gone z,
            ),
          )

  -- the sections below `i` are out of memory, if the threshold is zero
  abbrev pub Flushed : ℕ → World F → ℕ → Type 0
  Flushed thresh w i =
      thresh ≡ 0
      → (k : ℕ) (s : Section) → k < i
      → get_elem? w.cm.sects k ≡ some s
      → s.mappings ≡ none

  Flushed-next :
      (thresh i : ℕ) (w w' : World F)
      → Flushed thresh w i
      → Visited thresh i w w'
      → Flushed thresh w' (i + 1)
  Flushed-next thresh i w w' done visited z k s lt e = elim (ℕ_discrete k i) [
    | yes eq ↦ visited.1 z s (rw (← eq) e)
    | no ne ↦ done z k s (omega arith) (sym (visited.0 k ne) ∙ e)
  ]

  sync_from-Ends :
      (thresh n i : ℕ) (w : World F)
      → IsValid L w
      → i + n ≡ length w.cm.sects
      → Flushed thresh w i
      → Ends
          (Keeps L w)
          (λ _ w'. Keeps L w w' × Flushed thresh w' (length w.cm.sects))
          (sync_from K thresh n i w)
  unfolding sync_from
  sync_from-Ends thresh zero i w v e done =
      (Keeps-refl w v, let e' : i ≡ length w.cm.sects = omega arith in rw (← e') done)
  sync_from-Ends thresh (suc n) i w v e done = elim (Bool-cases (sync_goes_on thresh w.cm)) [
    | inr stop ↦ rw stop (Keeps-refl w v, λ z. absurd (stopped z stop))
    | inl go ↦ rw go (
        Ends-and_then (Keeps L w) (λ _ w'. Keeps L w w' × Visited thresh i w w')
          (λ _ w'. Keeps L w w' × Flushed thresh w' (length w.cm.sects)) (sync_section K thresh i w)
          (λ _. sync_from K thresh n (i + 1)) (sync_section-Ends thresh w i v (omega arith))
          (λ _ w' p. rest w' p.0 (
            sync_from-Ends thresh n (i + 1) w' p.0.valid (omega (arith, Keeps-length v p.0))
              (Flushed-next thresh i w w' done p.1))))
  ]
    where
      stopped : thresh ≡ 0 → sync_goes_on thresh w.cm ≡ false → ⊥
      stopped z stop = ground arith

      rest :
          (w' : World F)
          → Keeps L w w'
          → Ends
              (Keeps L w')
              (λ _ u. Keeps L w' u × Flushed thresh u (length w'.cm.sects))
              (sync_from K thresh n (i + 1) w')
          → Ends
              (Keeps L w)
              (λ _ u. Keeps L w u × Flushed thresh u (length w.cm.sects))
              (sync_from K thresh n (i + 1) w')
      rest w' kept = λ h.
          Ends-mono (Keeps L w') (Keeps L w)
            (λ _ u. Keeps L w' u × Flushed thresh u (length w'.cm.sects))
            (λ _ u. Keeps L w u × Flushed thresh u (length w.cm.sects))
            (sync_from K thresh n (i + 1) w') h (λ u k. Keeps-trans L kept.same k)
            (λ _ u p. (Keeps-trans L kept.same p.0, rw (← Keeps-length v kept) p.1))

  -- `__cow_sync_and_free_sections`, at any threshold and however its writes end, leaves the manager
  -- well-formed and changes no mapping, no byte outside the index and no other field. When it
  -- succeeds at threshold zero no section is left in memory.
  pub sync_and_free_sections-Ends :
      (thresh : ℕ) (w : World F)
      → IsValid L w
      → Ends
          (Keeps L w)
          (λ _ w'. Keeps L w w' × (thresh ≡ 0 → w'.cm.allocated_sects ≡ 0))
          (sync_and_free_sections K thresh w)
  unfolding sync_and_free_sections
  sync_and_free_sections-Ends thresh w v =
      Ends-mono (Keeps L w) (Keeps L w)
        (λ _ w'. Keeps L w w' × Flushed thresh w' (length w.cm.sects))
        (λ _ w'. Keeps L w w' × (thresh ≡ 0 → w'.cm.allocated_sects ≡ 0))
        (sync_from K thresh w.cm.total_sects 0 w)
        (sync_from-Ends thresh w.cm.total_sects 0 w v (omega (arith, v.count))
          (λ z k s lt e. absurd (omega arith)))
        (λ w' k. k)
        (λ _ w' p. (
          p.0,
          λ z.
              p.0.valid.allocated
              ∙ loaded-none w'.cm.sects (λ k s e.
                p.1 z k s (rw (← Keeps-length v p.0) (lt_of_get_elem? w'.cm.sects k e)) e),
        ))
