-- ===== src/Tracer/Dispatch.antt =====
-- Which device traces a bio: `moocbt_trace_bio` of src/tracer.c, on the devices that there are.
use moocbt.Common.{
  ℕ, ◌+◌, ◌^◌, ◌≤◌, ◌<◌, ◌≡◌, ◌⊎◌, inl, inr, refl, ap, get_elem?, suc, Bool, true, false,
  Bool-cases, Option, none, some, List, [], ◌∷◌, All, arith,
}
use moocbt.Tracer.{SnapDevice, Bio, is_bio_for_dev, should_trace_bio}
use moocbt.Tracer.Requests.{is_bio_for_dev_apart}

-- the loop of `moocbt_trace_bio`: the device that traces the bio, if any, and the flag `MOOCBT_PASSTHROUGH` after it
unfoldable pub trace_bio : List SnapDevice → Bio → Bool → Option SnapDevice × Bool
unfolding is_bio_for_dev should_trace_bio
trace_bio [] bio passthrough = (none, passthrough)
trace_bio (d ∷ ds) bio passthrough = elim (is_bio_for_dev d bio) [
  | false ↦ trace_bio ds bio passthrough
  | true ↦ elim passthrough [
    | true ↦ trace_bio ds bio false
    | false ↦ elim (should_trace_bio d bio) [
      | true ↦ (some d, false)
      | false ↦ trace_bio ds bio false
    ]
  ]
]

-- two devices share no sector, and neither wraps
abbrev pub Disjoint : SnapDevice → SnapDevice → Type 0
Disjoint d e =
    (d.sd_sect_off + d.sd_size < 2 ^ 64)
    × (e.sd_sect_off + e.sd_size < 2 ^ 64)
    × (d.base_queue ≡ e.base_queue
        → (d.sd_sect_off + d.sd_size ≤ e.sd_sect_off) ⊎ (e.sd_sect_off + e.sd_size ≤ d.sd_sect_off))

abbrev pub AllDisjoint : List SnapDevice → Type 0
AllDisjoint [] = Unit
AllDisjoint (d ∷ ds) = All (Disjoint d) ds × AllDisjoint ds

-- a bio of one device is of no other
others :
    (d : SnapDevice) (bio : Bio) (ds : List SnapDevice)
    → is_bio_for_dev d bio ≡ true
    → All (Disjoint d) ds
    → All (λ e. is_bio_for_dev e bio ≡ false) ds
others d bio [] h a = tt
others d bio (e ∷ ds) h ((x, y, apart), a) = (
  elim (Bool-cases (is_bio_for_dev e bio)) [
    | inr n ↦ n
    | inl m ↦
        let (q, l, r) = is_bio_for_dev_apart d e bio x y h m in
        elim (apart q) [ inl c ↦ absurd (omega arith) | inr c ↦ absurd (omega arith) ]
  ],
  others d bio ds h a,
)

of_none :
    (ds : List SnapDevice) (bio : Bio) (p : Bool)
    → All (λ e. is_bio_for_dev e bio ≡ false) ds
    → trace_bio ds bio p ≡ (none, p)
unfolding trace_bio
of_none [] bio p a = refl
of_none (d ∷ ds) bio p (n, a) = rw (n, trace_bio) (of_none ds bio p a)

passes : (ds : List SnapDevice) (bio : Bio) → AllDisjoint ds → (trace_bio ds bio true).0 ≡ none
unfolding trace_bio
passes [] bio a = refl
passes (d ∷ ds) bio (o, a) = elim (Bool-cases (is_bio_for_dev d bio)) [
  | inr n ↦ rw (n, trace_bio) (passes ds bio a)
  | inl h ↦ rw (h, trace_bio) (ap (λ r. r.0) (of_none ds bio false (others d bio ds h o)))
]

-- the device is one of those whose bio it is, and it has to trace it; or there is none such
abbrev pub IsTracer : List SnapDevice → Bio → Option SnapDevice → Type 0
IsTracer ds bio none = All (λ d. is_bio_for_dev d bio ≡ true → should_trace_bio d bio ≡ false) ds
IsTracer ds bio (some d) =
    (is_bio_for_dev d bio ≡ true)
    × (should_trace_bio d bio ≡ true)
    × ((i : ℕ) × (get_elem? ds i ≡ some d))

IsTracer-cons :
    (d : SnapDevice) (ds : List SnapDevice) (bio : Bio) (o : Option SnapDevice)
    → (is_bio_for_dev d bio ≡ true → should_trace_bio d bio ≡ false)
    → IsTracer ds bio o
    → IsTracer (d ∷ ds) bio o
IsTracer-cons d ds bio none h a = (h, a)
IsTracer-cons d ds bio (some e) h (x, y, (i, g)) = (x, y, (suc i, g))

traced : (ds : List SnapDevice) (bio : Bio) → IsTracer ds bio (trace_bio ds bio false).0
unfolding trace_bio
traced [] bio = tt
traced (d ∷ ds) bio = elim (Bool-cases (is_bio_for_dev d bio)) [
  | inr n ↦
      rw (n, trace_bio)
        (IsTracer-cons d ds bio (trace_bio ds bio false).0 (λ h. absurd (cc)) (traced ds bio))
  | inl h ↦ elim (Bool-cases (should_trace_bio d bio)) [
    | inr n ↦
        rw (h, n, trace_bio)
          (IsTracer-cons d ds bio (trace_bio ds bio false).0 (λ _. n) (traced ds bio))
    | inl y ↦ rw (h, y, trace_bio) (h, y, (0, refl))
  ]
]

-- For devices that share no sector: a bio that the driver itself submits, with `MOOCBT_PASSTHROUGH` set, is traced
-- by none. Another bio is traced by a device whose bio it is and that must trace it, if there is one,
-- and by none if there is none.
pub trace_bio-IsTracer :
    (ds : List SnapDevice) (bio : Bio)
    → AllDisjoint ds
    → ((trace_bio ds bio true).0 ≡ none) × IsTracer ds bio (trace_bio ds bio false).0
trace_bio-IsTracer ds bio a = (passes ds bio a, traced ds bio)
