-- ===== src/Tracer/Minors.antt =====
-- The range of minors covers the devices in use, and no more than it must.
use moocbt.Common.{
  ℕ, zero, suc, ◌+◌, ◌-◌, ◌≤◌, ◌≡◌, ◌⊎◌, inl, inr, refl, ◌∙◌, Bool, true, false, List, [], ◌∷◌,
  some, length, get_elem?, if◌then◌else◌, arith, lt_of_get_elem?, subst,
}
use moocbt.Tracer.{Range, include, recalculate_from, recalculate}

recalculate_from_le :
    (i : ℕ) (ds : List Bool) (r : Range)
    → ((recalculate_from i ds r).lowest ≤ r.lowest)
      × (r.highest ≤ (recalculate_from i ds r).highest)
unfolding recalculate_from include
recalculate_from_le i [] r = (omega arith, omega arith)
recalculate_from_le i (false ∷ ds) r = recalculate_from_le (i + 1) ds r
recalculate_from_le i (true ∷ ds) r =
    let (a, b) = recalculate_from_le (i + 1) ds (include i r) in
    (ground (arith, a), ground (arith, b))

recalculate_from_covers :
    (i k : ℕ) (ds : List Bool) (r : Range)
    → get_elem? ds k ≡ some true
    → ((recalculate_from i ds r).lowest ≤ i + k) × (i + k ≤ (recalculate_from i ds r).highest)
unfolding recalculate_from include
recalculate_from_covers i k [] r h = absurd (cc)
recalculate_from_covers i zero (false ∷ ds) r h = absurd (cc)
recalculate_from_covers i zero (true ∷ ds) r h =
    let (a, b) = recalculate_from_le (i + 1) ds (include i r) in
    (ground (arith, a), ground (arith, b))
recalculate_from_covers i (suc k) (u ∷ ds) r h =
    let (a, b) = recalculate_from_covers (i + 1) k ds (if u then include i r else r) h in
    (omega (arith, a), omega (arith, b))

-- Each bound is the one at the start, or a minor in use.
abbrev Attained : ℕ → List Bool → ℕ → ℕ → Type 0
Attained i ds start bound =
    (bound ≡ start) ⊎ ((k : ℕ) × (get_elem? ds k ≡ some true) × (bound ≡ i + k))

later :
    (i start bound : ℕ) (u : Bool) (ds : List Bool)
    → Attained (i + 1) ds start bound
    → Attained i (u ∷ ds) start bound
later i start bound u ds (inl e) = inl e
later i start bound u ds (inr (k, at, e)) = inr (suc k, at, e ∙ omega arith)

here :
    (i start new bound : ℕ) (ds : List Bool)
    → (new ≡ i) ⊎ (new ≡ start)
    → Attained i (true ∷ ds) new bound
    → Attained i (true ∷ ds) start bound
here i start new bound ds (inr e) a = subst (λ s. Attained i (true ∷ ds) s bound) e a
here i start new bound ds (inl e) (inr x) = inr x
here i start new bound ds (inl e) (inl b) = inr (zero, refl, b ∙ e ∙ omega arith)

recalculate_from-Attained :
    (i : ℕ) (ds : List Bool) (r : Range)
    → Attained i ds r.lowest (recalculate_from i ds r).lowest
      × Attained i ds r.highest (recalculate_from i ds r).highest
unfolding recalculate_from include
recalculate_from-Attained i [] r = (inl refl, inl refl)
recalculate_from-Attained i (false ∷ ds) r =
    let (a, b) = recalculate_from-Attained (i + 1) ds r in
    (later i _ _ false ds a, later i _ _ false ds b)
recalculate_from-Attained i (true ∷ ds) r =
    let (a, b) = recalculate_from-Attained (i + 1) ds (include i r) in
    (
      here i r.lowest (include i r).lowest _ ds (ground arith) (later i _ _ true ds a),
      here i r.highest (include i r).highest _ ds (ground arith) (later i _ _ true ds b),
    )

-- After `minor_range_recalculate` every minor in use lies in the range, and when the array has an entry
-- for each possible device and some minor is in use, both ends of the range are minors in use.
pub recalculate_lem :
    (max_snap_devices : ℕ) (ds : List Bool)
    → length ds ≡ max_snap_devices
    → (let r = recalculate max_snap_devices ds in
        ((k : ℕ) → get_elem? ds k ≡ some true → (r.lowest ≤ k) × (k ≤ r.highest))
        × ((k : ℕ)
            → get_elem? ds k ≡ some true
            → (get_elem? ds r.lowest ≡ some true) × (get_elem? ds r.highest ≡ some true)))
unfolding recalculate
recalculate_lem n ds len = (covers, λ k h. (low k h, high k h))
  where
    first : Range
    first = record { lowest = n - 1; highest = 0 }

    covers :
        (k : ℕ)
        → get_elem? ds k ≡ some true
        → ((recalculate_from 0 ds first).lowest ≤ k) × (k ≤ (recalculate_from 0 ds first).highest)
    covers k h = let (a, b) = recalculate_from_covers 0 k ds first h in (omega arith, omega arith)

    low :
        (k : ℕ)
        → get_elem? ds k ≡ some true
        → get_elem? ds (recalculate_from 0 ds first).lowest ≡ some true
    low k h = elim ((recalculate_from-Attained 0 ds first).0) [
      | inr (j, at, e) ↦
          let e' : j ≡ (recalculate_from 0 ds first).lowest = omega arith in rw (← e') at
      | inl e ↦
          let last : k ≡ (recalculate_from 0 ds first).lowest =
            omega (arith, (covers k h).0, lt_of_get_elem? ds k h) in
          rw (← last) h
    ]

    high :
        (k : ℕ)
        → get_elem? ds k ≡ some true
        → get_elem? ds (recalculate_from 0 ds first).highest ≡ some true
    high k h = elim ((recalculate_from-Attained 0 ds first).1) [
      | inr (j, at, e) ↦
          let e' : j ≡ (recalculate_from 0 ds first).highest = omega arith in rw (← e') at
      | inl e ↦
          let last : k ≡ (recalculate_from 0 ds first).highest = omega (arith, (covers k h).1) in
          rw (← last) h
    ]
