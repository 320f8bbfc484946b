-- ===== src/Refs.antt =====
-- The references to the request functions that are replaced (src/callback_refs.c): a table that says for each disk
-- how many devices trace it, and the function it had before.
pub mod Counts
mod Tests
use moocbt.Common.{
  ℕ, zero, suc, ◌+◌, ◌-◌, Bool, true, false, List, [], ◌∷◌, Option, none, some, Result, ok, err,
  enomem, ◌==◌, if◌then◌else◌,
}

-- `struct mrf_tracking_data`
pub record Node : Type 0 where
  pub mtd_disk : ℕ
  pub mtd_orig : ℕ
  pub mtd_count : ℕ

-- `get_a_node`; the buckets of the table are one list here
unfoldable pub get_a_node : ℕ → List Node → Option Node
get_a_node disk [] = none
get_a_node disk (n ∷ ns) = if n.mtd_disk == disk then some n else get_a_node disk ns

-- `atomic_inc` on the count of the node that `get_a_node` finds
unfoldable pub bump : ℕ → List Node → List Node
bump disk [] = []
bump disk (n ∷ ns) =
    if n.mtd_disk == disk then record n { mtd_count = n.mtd_count + 1 } ∷ ns else n ∷ bump disk ns

unfoldable pub get_found : Bool → ℕ → ℕ → Option Node → List Node → Result (List Node)
unfolding bump
get_found room disk fn (some n) t = ok (bump disk t)
get_found room disk fn none t =
    if room then ok (record { mtd_disk = disk; mtd_orig = fn; mtd_count = 1 } ∷ t) else err enomem

-- `mrf_get`; `room` is whether the allocation of a node succeeds
unfoldable pub mrf_get : Bool → ℕ → ℕ → List Node → Result (List Node)
unfolding get_found get_a_node
mrf_get room disk fn t = get_found room disk fn (get_a_node disk t) t

-- `mrf_put`; `current` is the function that the disk has now
unfoldable pub mrf_put : ℕ → ℕ → List Node → Option ℕ × List Node
mrf_put disk current [] = (none, [])
mrf_put disk current (n ∷ ns) =
    let rest = mrf_put disk current ns in
    if n.mtd_disk == disk
    then (if n.mtd_count == 1
        then (some n.mtd_orig, ns)
        else (some current, record n { mtd_count = n.mtd_count - 1 } ∷ ns))
    else (rest.0, n ∷ rest.1)
