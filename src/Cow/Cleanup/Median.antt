-- ===== src/Cow/Cleanup/Median.antt =====
-- The search for a threshold ends, and does not run below zero.
use moocbt.Common.{
  ℕ, zero, suc, ◌+◌, ◌/◌, ◌≤◌, ◌<◌, ◌≡◌, inl, inr, List, [], ◌∷◌, some, ltb, ◌==◌, Bool-cases,
  arith, length, All, if◌then◌else◌, ◌^◌,
}
use moocbt.Word.{add64, sub64}
use moocbt.Cow.State.{Section}
use moocbt.Cow.Cleanup.{max_usage, less, greater, median_from, threshold}

-- Every section is on one side of a threshold.
pub less-add-greater : (t : ℕ) (ss : List Section) → less t ss + greater t ss ≡ length ss
unfolding less greater
less-add-greater t [] = omega arith
less-add-greater t (s ∷ ss) = ground (arith, less-add-greater t ss)

-- One round of the loop: it stops, or goes on with half the granularity.
median_from_total :
    (fuel : ℕ) (ss : List Section) (t g : ℕ)
    → g < fuel
    → (r : ℕ) × (median_from fuel ss t g ≡ some r)
unfolding median_from
median_from_total zero ss t g h = elim h [ ]
median_from_total (suc fuel) ss t g h = elim (Bool-cases (g == 0)) [
  | inl stop ↦ (t, rw stop)
  | inr more ↦ rw more (elim (Bool-cases (ltb (less t ss) (greater t ss))) [
    | inl up ↦ rw up (median_from_total fuel ss (add64 t (g / 2)) (g / 2) (ground arith))
    | inr not_up ↦ rw not_up (elim (Bool-cases (ltb (greater t ss) (less t ss))) [
      | inl down ↦ rw down (median_from_total fuel ss (sub64 t (g / 2)) (g / 2) (ground arith))
      | inr even ↦ (t, rw even)
    ])
  ])
]

-- No sum or difference of the loop wraps: the threshold stays within the granularity of its start.
median_from_bounds :
    (fuel : ℕ) (ss : List Section) (t g r : ℕ)
    → g ≤ t
    → t + g < 2 ^ 64
    → median_from fuel ss t g ≡ some r
    → r ≤ t + g
unfolding median_from
median_from_bounds zero ss t g r h k e = ground arith
median_from_bounds (suc fuel) ss t g r h k e = ground (
  arith,
  median_from_bounds fuel ss (add64 t (g / 2)) (g / 2) r,
  median_from_bounds fuel ss (sub64 t (g / 2)) (g / 2) r,
)

-- The fuel is enough.
pub threshold_total : (ss : List Section) → (r : ℕ) × (threshold ss ≡ some r)
unfolding threshold
threshold_total ss =
    let half = max_usage 0 ss / 2 in median_from_total (half + 1) ss half half (omega arith)

-- The loop of `__cow_cleanup_mappings` ends, and the threshold that it finds is at most the greatest
-- usage count, for counts that fit in their type.
pub threshold_lem :
    (ss : List Section)
    → max_usage 0 ss < 2 ^ 64
    → (r : ℕ) × (threshold ss ≡ some r) × (r ≤ max_usage 0 ss)
unfolding threshold
threshold_lem ss h =
    let half = max_usage 0 ss / 2 in
    let (r, e) = median_from_total (half + 1) ss half half (omega arith) in
    (
      r,
      e,
      omega (arith, median_from_bounds (half + 1) ss half half r (omega arith) (omega arith) e),
    )

pub max_usage-le :
    (t b : ℕ) (ss : List Section) → t ≤ b → All (λ s. s.usage ≤ b) ss → max_usage t ss ≤ b
unfolding max_usage
max_usage-le t b [] h a = h
max_usage-le t b (s ∷ ss) h a =
    max_usage-le (if ltb t s.usage then s.usage else t) b ss (ground arith) a.1

-- With no section used twice the threshold is zero.
pub threshold_zero : (ss : List Section) → max_usage 0 ss ≤ 1 → threshold ss ≡ some 0
unfolding threshold median_from
threshold_zero ss h = let zero_half : max_usage 0 ss / 2 ≡ 0 = omega arith in rw zero_half
