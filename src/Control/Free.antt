-- ===== src/Control/Free.antt =====
-- The minor that `get_free_minor` hands out.
use moocbt.Common.{
  ℕ, zero, suc, ◌+◌, ◌≡◌, ◌<◌, refl, ◌∙◌, [], ◌∷◌, Option, none, some, length, get_elem?, arith,
}
use moocbt.Control.{Dev, Devices}
use moocbt.Control.Handlers.{free_from, get_free_minor, verify_slot, verify_minor}

abbrev pub Used : Devices → ℕ → Type 0
Used ds i = (d : Dev) × (get_elem? ds i ≡ some (some d))

-- the entry at the minor is free, and those before it are used; or all are used
abbrev FreeFrom : ℕ → Devices → Option ℕ → Type 0
FreeFrom i ds none = (j : ℕ) → j < length ds → Used ds j
FreeFrom i ds (some m) =
    (k : ℕ) × (m ≡ i + k) × (get_elem? ds k ≡ some none) × ((j : ℕ) → j < k → Used ds j)

FreeFrom-cons :
    (i : ℕ) (d : Dev) (ds : Devices) (o : Option ℕ)
    → FreeFrom (i + 1) ds o
    → FreeFrom i (some d ∷ ds) o
FreeFrom-cons i d ds none f = used
  where
    used : (j : ℕ) → j < suc (length ds) → Used (some d ∷ ds) j
    used zero l = (d, refl)
    used (suc j) l = f j (omega arith)
FreeFrom-cons i d ds (some m) (k, e, g, f) = (suc k, e ∙ omega arith, g, used)
  where
    used : (j : ℕ) → j < suc k → Used (some d ∷ ds) j
    used zero l = (d, refl)
    used (suc j) l = f j (omega arith)

free_from-FreeFrom : (i : ℕ) (ds : Devices) → FreeFrom i ds (free_from i ds)
unfolding free_from
free_from-FreeFrom i [] = λ j l. absurd (omega arith)
free_from-FreeFrom i (none ∷ ds) = (zero, omega arith, refl, λ j l. absurd (omega arith))
free_from-FreeFrom i (some d ∷ ds) =
    FreeFrom-cons i d ds (free_from (i + 1) ds) (free_from-FreeFrom (i + 1) ds)

-- the least free entry, or none if all are used
abbrev pub LeastFree : Devices → Option ℕ → Type 0
LeastFree ds none = (j : ℕ) → j < length ds → Used ds j
LeastFree ds (some m) =
    (get_elem? ds m ≡ some none) × (verify_minor 0 m ds ≡ 0) × ((j : ℕ) → j < m → Used ds j)

from_zero : (ds : Devices) (o : Option ℕ) → FreeFrom 0 ds o → LeastFree ds o
unfolding verify_minor verify_slot
from_zero ds none f = f
from_zero ds (some m) (k, e, g, f) =
    let same : m ≡ k = omega arith in (rw (same) g, rw (same, g) refl, λ j l. f j (omega arith))

-- `get_free_minor` gives the least minor whose entry is free, which `verify_minor_available` then accepts, and
-- fails exactly if every entry is used.
pub get_free_minor-LeastFree : (ds : Devices) → LeastFree ds (get_free_minor ds)
unfolding get_free_minor
get_free_minor-LeastFree ds = from_zero ds (free_from 0 ds) (free_from-FreeFrom 0 ds)
