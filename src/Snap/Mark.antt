-- ===== src/Snap/Mark.antt =====
-- Handling a sector set marks the blocks of its sectors, and no others.
use moocbt.Common.{
  ℕ, zero, suc, ◌+◌, ◌-◌, ◌*◌, ◌/◌, ◌%◌, ◌≤◌, ◌<◌, ◌≡◌, ◌⊎◌, inl, inr, Bool-cases, ltb, refl, ap,
  ap₂, ◌∙◌, arith,
}
use native.Mathlib.Decide.{ℕ_discrete}
use moocbt.Word.{add64}
use moocbt.Kernel.{Kernel, IsKernel}
use moocbt.Cow.State.{World}
use moocbt.Cow.Inv.{Ends, Ends-and_then, Ends-mono, IsValid, Keeps, entry, mapping}
use moocbt.Cow.Life.{num_segments}
use moocbt.Cow.Mapping.{write_mapping, write_filler_mapping}
use moocbt.Cow.Mapping.Lookup.{section_of_block}
use moocbt.Cow.Mapping.Store.{Sets, SetsOrKeeps, write_mapping-Ends}
use moocbt.Cow.Snapshot.First.{blocks_apart}
use moocbt.Snap.{SectorSet, sector_to_block, mark_blocks, handle_sset}

-- Some sector of the set lies in the block.
abbrev pub Touches : SectorSet → ℕ → Type 0
Touches sset b = (k : ℕ) × (sset.sect ≤ k) × (k < sset.sect + sset.len) × (k / 8 ≡ b)

touched :
    (sset : SectorSet) (b : ℕ)
    → 0 < sset.len
    → sset.sect / 8 ≤ b
    → b < (sset.sect + sset.len + 7) / 8
    → Touches sset b
touched sset b pos l r = elim (Bool-cases (ltb (8 * b) sset.sect)) [
  | inl below ↦ (sset.sect, omega arith, omega arith, ground arith)
  | inr above ↦ (8 * b, ground arith, omega arith, omega arith)
]

inside-cases :
    (sset : SectorSet) (b : ℕ)
    → ((b < sset.sect / 8) ⊎ ((sset.sect + sset.len + 7) / 8 ≤ b))
      ⊎ ((sset.sect / 8 ≤ b) × (b < (sset.sect + sset.len + 7) / 8))
inside-cases sset b = grind arith

module _ {F : Type 0} {K : Kernel F} (L : IsKernel K) where
  -- Blocks from `s` up to `e` are marked, and the others have the mapping that they had.
  pub record Marks (w : World F) (s e : ℕ) (w' : World F) : Type 0 where
    pub valid : IsValid L w'
    pub geometry : (w'.cm.sect_size ≡ w.cm.sect_size) × (w'.cm.total_sects ≡ w.cm.total_sects)
    pub hit : (b : ℕ) → s ≤ b → b < e → mapping L w' b ≡ 1
    pub miss :
        (b : ℕ)
        → b < w.cm.sect_size * w.cm.total_sects
        → (b < s) ⊎ (e ≤ b)
        → mapping L w' b ≡ mapping L w b

  -- On an error, the blocks of the set are marked or as they were.
  pub record MarksSome (w : World F) (s e : ℕ) (w' : World F) : Type 0 where
    pub valid : IsValid L w'
    pub some_hit :
        (b : ℕ)
        → b < w.cm.sect_size * w.cm.total_sects
        → s ≤ b
        → b < e
        → (mapping L w' b ≡ 1) ⊎ (mapping L w' b ≡ mapping L w b)
    pub miss :
        (b : ℕ)
        → b < w.cm.sect_size * w.cm.total_sects
        → (b < s) ⊎ (e ≤ b)
        → mapping L w' b ≡ mapping L w b

  mapping_congr :
      (w w' : World F) (b : ℕ)
      → w'.cm.sect_size ≡ w.cm.sect_size
      → mapping L w' b ≡ entry L w' (b / w.cm.sect_size) (b % w.cm.sect_size)
  mapping_congr w w' b e = ap (λ ss. entry L w' (b / ss) (b % ss)) e

  one_marked :
      (w : World F) (b : ℕ) (w' : World F)
      → IsValid L w
      → b < w.cm.sect_size * w.cm.total_sects
      → Sets L w (b / w.cm.sect_size) (b % w.cm.sect_size) 1 w'
      → Marks w b (b + 1) w'
  one_marked w b w' v h st =
      let size : w'.cm.sect_size ≡ w.cm.sect_size = ap (λ c. c.sect_size) st.fixed in
      record {
        valid = st.valid;
        geometry = (size, ap (λ c. c.total_sects) st.fixed);
        hit = λ p l r. let e : p ≡ b = omega arith in rw e (mapping_congr w w' b size ∙ st.hit);
        miss = λ p q o.
            mapping_congr w w' p size
            ∙ st.miss (p / w.cm.sect_size) (p % w.cm.sect_size)
                ((section_of_block p w.cm.sect_size w.cm.total_sects v.size_pos q).1)
                (blocks_apart w.cm.sect_size p b (λ e. omega arith));
      }

  Marks-next :
      (n b : ℕ) (w w1 w2 : World F)
      → b < w.cm.sect_size * w.cm.total_sects
      → Marks w b (b + 1) w1
      → Marks w1 (b + 1) (b + 1 + n) w2
      → Marks w b (b + suc n) w2
  Marks-next n b w w1 w2 h m k =
      let range : w1.cm.sect_size * w1.cm.total_sects ≡ w.cm.sect_size * w.cm.total_sects =
        ap₂ ◌*◌ m.geometry.0 m.geometry.1 in
      record {
        valid = k.valid;
        geometry = (k.geometry.0 ∙ m.geometry.0, k.geometry.1 ∙ m.geometry.1);
        hit = λ p l r. elim (ℕ_discrete p b) [
          | no ne ↦ k.hit p (omega arith) (omega arith)
          | yes eq ↦ k.miss p (rw (range, eq) h) (inl (omega arith)) ∙ m.hit p l (omega arith)
        ];
        miss = λ p q o.
            k.miss p (rw range q) (elim o [ inl l ↦ inl (omega arith) | inr r ↦ inr (omega arith) ])
            ∙ m.miss p q (elim o [ inl l ↦ inl l | inr r ↦ inr (omega arith) ]);
      }

  some_next :
      (n b : ℕ) (w w1 w2 : World F)
      → Marks w b (b + 1) w1
      → MarksSome w1 (b + 1) (b + 1 + n) w2
      → MarksSome w b (b + suc n) w2
  some_next n b w w1 w2 m k =
      let range : w1.cm.sect_size * w1.cm.total_sects ≡ w.cm.sect_size * w.cm.total_sects =
        ap₂ ◌*◌ m.geometry.0 m.geometry.1 in
      record {
        valid = k.valid;
        some_hit = λ p q l r. elim (ℕ_discrete p b) [
          | yes eq ↦ inl (k.miss p (rw range q) (inl (omega arith)) ∙ m.hit p l (omega arith))
          | no ne ↦ elim (k.some_hit p (rw range q) (omega arith) (omega arith)) [
            | inl hit ↦ inl hit
            | inr same ↦ inr (same ∙ m.miss p q (inr (omega arith)))
          ]
        ];
        miss = λ p q o.
            k.miss p (rw range q) (elim o [ inl l ↦ inl (omega arith) | inr r ↦ inr (omega arith) ])
            ∙ m.miss p q (elim o [ inl l ↦ inl l | inr r ↦ inr (omega arith) ]);
      }

  none_marked :
      (n b : ℕ) (w w' : World F) → IsValid L w → Keeps L w w' → MarksSome w b (b + suc n) w'
  none_marked n b w w' v k = record {
    valid = k.valid;
    some_hit = λ p q l r. inr (same p q);
    miss = λ p q o. same p q;
  }
    where
      same : (p : ℕ) → p < w.cm.sect_size * w.cm.total_sects → mapping L w' p ≡ mapping L w p
      same p q =
          mapping_congr w w' p (ap (λ c. c.sect_size) k.same.fixed)
          ∙ k.same.view (p / w.cm.sect_size) (p % w.cm.sect_size)
              ((section_of_block p w.cm.sect_size w.cm.total_sects v.size_pos q).1)

  first_marked : (n b : ℕ) (w w' : World F) → Marks w b (b + 1) w' → MarksSome w b (b + suc n) w'
  first_marked n b w w' m = record {
    valid = m.valid;
    some_hit = λ p q l r. elim (ℕ_discrete p b) [
      | yes eq ↦ inl (m.hit p l (omega arith))
      | no ne ↦ inr (m.miss p q (inr (omega arith)))
    ];
    miss = λ p q o. m.miss p q (elim o [ inl l ↦ inl l | inr r ↦ inr (omega arith) ]);
  }

  mark_blocks-Ends :
      (n b : ℕ) (w : World F)
      → IsValid L w
      → b + n ≤ w.cm.sect_size * w.cm.total_sects
      → Ends (MarksSome w b (b + n)) (λ _ w'. Marks w b (b + n) w') (mark_blocks K n b w)
  unfolding mark_blocks write_filler_mapping
  mark_blocks-Ends zero b w v h = record {
    valid = v;
    geometry = (refl, refl);
    hit = λ p l r. absurd (omega arith);
    miss = λ p q o. refl;
  }
  mark_blocks-Ends (suc n) b w v h =
      let next : add64 b 1 ≡ b + 1 = omega (arith, v.fits) in
      rw next (
        Ends-and_then (MarksSome w b (b + suc n)) (λ _ w1. Marks w b (b + 1) w1)
          (λ _ w'. Marks w b (b + suc n) w') (write_mapping K b 1 w) (λ _. mark_blocks K n (b + 1))
          (Ends-mono (SetsOrKeeps L w (b / w.cm.sect_size) (b % w.cm.sect_size) 1)
            (MarksSome w b (b + suc n))
            (λ _ w1. Sets L w (b / w.cm.sect_size) (b % w.cm.sect_size) 1 w1)
            (λ _ w1. Marks w b (b + 1) w1) (write_mapping K b 1 w)
            (write_mapping-Ends L w b 1 v (omega arith) (omega arith))
            (λ w1 d. elim d [
              | inl k ↦ none_marked n b w w1 v k
              | inr st ↦ first_marked n b w w1 (one_marked w b w1 v (omega arith) st)
            ])
            (λ _ w1 st. one_marked w b w1 v (omega arith) st))
          (λ _ w1 m.
            Ends-mono (MarksSome w1 (b + 1) (b + 1 + n)) (MarksSome w b (b + suc n))
              (λ _ w'. Marks w1 (b + 1) (b + 1 + n) w') (λ _ w'. Marks w b (b + suc n) w')
              (mark_blocks K n (b + 1) w1)
              (mark_blocks-Ends n (b + 1) w1 m.valid (
                let range : w1.cm.sect_size * w1.cm.total_sects
                    ≡ w.cm.sect_size * w.cm.total_sects =
                  ap₂ ◌*◌ m.geometry.0 m.geometry.1 in
                rw range (omega arith)))
              (λ w2 k. some_next n b w w1 w2 m k)
              (λ _ w2 k. Marks-next n b w w1 w2 (omega arith) m k)))

  -- `inc_handle_sset`, for a set of at least one sector on a device of whole blocks, never runs into a
  -- fault. If it succeeds, the block of each sector of the set is marked, and a block of the device
  -- that holds no sector of the set has the mapping that it had. If it fails, each block of the
  -- device is either marked or as it was, and those without a sector of the set are as they were.
  pub handle_sset-Ends :
      (sset : SectorSet) (w : World F)
      → IsValid L w
      → 0 < sset.len
      → sset.sect + sset.len ≤ 8 * (w.cm.sect_size * w.cm.total_sects)
      → Ends
          (λ w'.
            IsValid L w'
            × ((b : ℕ)
                → b < w.cm.sect_size * w.cm.total_sects
                → (mapping L w' b ≡ mapping L w b) ⊎ ((mapping L w' b ≡ 1) × Touches sset b)))
          (λ _ w'.
            IsValid L w'
            × ((b : ℕ)
                → b < w.cm.sect_size * w.cm.total_sects
                → Touches sset b
                → mapping L w' b ≡ 1)
            × ((b : ℕ)
                → b < w.cm.sect_size * w.cm.total_sects
                → ¬ Touches sset b
                → mapping L w' b ≡ mapping L w b))
          (handle_sset K sset w)
  unfolding handle_sset sector_to_block num_segments
  handle_sset-Ends sset w v pos room =
      let b = sset.sect / 8 in
      let e = (sset.sect + sset.len + 7) / 8 in
      let last : num_segments (add64 sset.sect sset.len) 3 ≡ e = omega (arith, v.fits) in
      let whole : b + (e - b) ≡ e = omega arith in
      let ends = mark_blocks-Ends (e - b) b w v (omega arith) in
      rw last (
        Ends-mono (MarksSome w b (b + (e - b))) _ (λ _ w'. Marks w b (b + (e - b)) w') _
          (mark_blocks K (e - b) b w) ends
          (λ w' m. (
            m.valid,
            λ p q. elim (inside-cases sset p) [
              | inl out ↦ inl (m.miss p q (elim out [ inl l ↦ inl l | inr r ↦ inr (omega arith) ]))
              | inr (l, r) ↦ elim (m.some_hit p q l (omega arith)) [
                | inl hit ↦ inr (hit, touched sset p pos l r)
                | inr same ↦ inl same
              ]
            ],
          ))
          (λ _ w' m. (
            m.valid,
            λ p q (k, l, r, at). m.hit p (omega arith) (omega arith),
            λ p q never. elim (inside-cases sset p) [
              | inl out ↦ m.miss p q (elim out [ inl l ↦ inl l | inr r ↦ inr (omega arith) ])
              | inr (l, r) ↦ absurd (never (touched sset p pos l r))
            ],
          )))
