-- ===== src/Cow/Cleanup.antt =====
-- `__cow_cleanup_mappings`: the usage count under which about half of the sections lie, and the
-- eviction of the sections up to it.
pub mod Median
pub mod Evict
use moocbt.Common.{
  ℕ, zero, suc, ◌+◌, ◌/◌, Bool, true, false, List, [], ◌∷◌, Option, none, some, take, length, ltb,
  leb, ◌==◌, if◌then◌else◌, ok, oops,
}
use moocbt.Word.{add64, sub64}
use moocbt.Kernel.{Kernel}
use moocbt.Cow.State.{Section, Cow, World, M, pure, fault, ◌>>=◌, ◌>>◌, get_cm}
use moocbt.Cow.Sections.{sync_and_free_sections}

-- the first loop, from a `thresh` so far
unfoldable pub max_usage : ℕ → List Section → ℕ
max_usage thresh [] = thresh
max_usage thresh (s ∷ ss) = max_usage (if ltb thresh s.usage then s.usage else thresh) ss

-- `less` and `greater` of the inner loop
unfoldable pub less : ℕ → List Section → ℕ
less thresh [] = 0
less thresh (s ∷ ss) = if leb s.usage thresh then suc (less thresh ss) else less thresh ss

unfoldable pub greater : ℕ → List Section → ℕ
greater thresh [] = 0
greater thresh (s ∷ ss) = if leb s.usage thresh then greater thresh ss else suc (greater thresh ss)

-- The `while (granularity > 0)` loop; `none` means that the fuel ran out.
unfoldable pub median_from : ℕ → List Section → ℕ → ℕ → Option ℕ
unfolding less greater
median_from zero ss thresh granularity = none
median_from (suc fuel) ss thresh granularity =
    let g = granularity / 2 in
    let up = median_from fuel ss (add64 thresh g) g in
    let down = median_from fuel ss (sub64 thresh g) g in
    if granularity == 0
    then some thresh
    else if ltb (less thresh ss) (greater thresh ss)
    then up
    else if ltb (greater thresh ss) (less thresh ss)
    then down
    else some thresh

-- the threshold that is evicted up to
unfoldable pub threshold : List Section → Option ℕ
unfolding median_from max_usage
threshold ss = let half = max_usage 0 ss / 2 in median_from (half + 1) ss half half

module _ {F : Type 0} (K : Kernel F) where
  -- the array `sects[0 .. total_sects)`
  abbrev pub all_sects : M F (List Section)
  all_sects w = (
    if leb w.cm.total_sects (length w.cm.sects)
        then ok (take w.cm.total_sects w.cm.sects)
        else oops,
    w,
  )

  -- `__cow_cleanup_mappings`
  unfoldable pub cleanup_mappings : M F (Unit {0})
  cleanup_mappings = do
    ss ← all_sects
    elim (threshold ss) [ none ↦ fault | some thresh ↦ sync_and_free_sections K thresh ]
