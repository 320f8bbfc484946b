-- ===== src/Refs/Tests.antt =====
-- A table with two references to one disk and one to another.
use moocbt.Common.{ℕ, ◌+◌, ◌≡◌, refl, List, [], ◌∷◌, some, true, ◌==◌, if◌then◌else◌, arith}
use moocbt.Refs.{Node, mrf_get, mrf_put}
use moocbt.Refs.Counts.{count_of, orig_of, Positive, Counted, mrf_get_lem, mrf_put_lem}

abbrev table : List Node
table =
    record { mtd_disk = 3; mtd_orig = 30; mtd_count = 2 }
    ∷ record { mtd_disk = 4; mtd_orig = 40; mtd_count = 1 }
    ∷ []

table-Positive : Positive table
table-Positive = (omega arith, (omega arith, tt))

mrf_get_lem_example : Counted true 5 50 table (mrf_get true 5 50 table)
mrf_get_lem_example = mrf_get_lem true 5 50 table table-Positive

mrf_put_lem_example :
    (let (fn, t') = mrf_put 4 99 table in
      Positive t'
      × ((e : ℕ) → count_of e t' + (if 4 == e then 1 else 0) ≡ count_of e table)
      × (count_of 4 table ≡ 1 → fn ≡ orig_of 4 table))
mrf_put_lem_example = mrf_put_lem 4 99 table table-Positive (λ z. omega arith)

given_back : (mrf_put 4 99 table).0 ≡ some 40
unfolding mrf_put
given_back = refl
