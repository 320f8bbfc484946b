-- ===== src/Refs/Counts.antt =====
-- The table counts the references to each disk.
use moocbt.Common.{
  ℕ, ◌+◌, ◌≡◌, ◌≢◌, ◌<◌, refl, sym, subst, eq→==, ==→eq, ◌∙◌, if_of_false, Bool, true, false,
  Bool-cases, inl, inr, List, [], ◌∷◌, All, Option, none, some, Result, ok, err, oops, enomem, ◌==◌,
  if◌then◌else◌, arith,
}
use moocbt.Refs.{Node, get_a_node, bump, get_found, mrf_get, mrf_put}

-- the references to a disk
abbrev pub count_of : ℕ → List Node → ℕ
count_of d [] = 0
count_of d (n ∷ ns) = (if n.mtd_disk == d then n.mtd_count else 0) + count_of d ns

-- the function that is given back with the last reference
abbrev pub orig_of : ℕ → List Node → Option ℕ
orig_of d [] = none
orig_of d (n ∷ ns) = if n.mtd_disk == d then some n.mtd_orig else orig_of d ns

abbrev pub Positive : List Node → Type 0
Positive = All (λ n. 0 < n.mtd_count)

bump_count :
    (d e : ℕ) (t : List Node) {n : Node}
    → get_a_node d t ≡ some n
    → count_of e (bump d t) ≡ count_of e t + (if d == e then 1 else 0)
unfolding bump get_a_node
bump_count d e [] h = absurd (cc)
bump_count d e (m ∷ ns) h = elim (Bool-cases (m.mtd_disk == d)) [
  | inl b ↦ rw (b) (ground arith)
  | inr b ↦
      let k = bump_count d e ns (sym (if_of_false _ _ (m.mtd_disk == d) b) ∙ h) in
      rw (b) (omega (arith, k))
]

put_count :
    (d c e : ℕ) (t : List Node)
    → Positive t
    → count_of d t ≢ 0
    → count_of e (mrf_put d c t).1 + (if d == e then 1 else 0) ≡ count_of e t
unfolding mrf_put
put_count d c e [] p ne = absurd (ne refl)
put_count d c e (m ∷ ns) (l, p) ne = elim (Bool-cases (m.mtd_disk == d)) [
  | inl b ↦ elim (Bool-cases (m.mtd_count == 1)) [
    | inl o ↦ rw (b, o) (ground arith)
    | inr o ↦ rw (b, o) (ground arith)
  ]
  | inr b ↦ let h = put_count d c e ns p (λ z. ne (ground arith)) in rw (b) (ground arith)
]

bump-Positive : (d : ℕ) (t : List Node) → Positive t → Positive (bump d t)
unfolding bump
bump-Positive d [] p = p
bump-Positive d (m ∷ ns) (l, p) = elim (Bool-cases (m.mtd_disk == d)) [
  | inl b ↦ rw (b) (omega arith, p)
  | inr b ↦ rw (b) (l, bump-Positive d ns p)
]

put-Positive : (d c : ℕ) (t : List Node) → Positive t → Positive (mrf_put d c t).1
unfolding mrf_put
put-Positive d c [] p = p
put-Positive d c (m ∷ ns) (l, p) = elim (Bool-cases (m.mtd_disk == d)) [
  | inl b ↦ elim (Bool-cases (m.mtd_count == 1)) [
    | inl o ↦ rw (b, o) p
    | inr o ↦ rw (b, o) (ground arith, p)
  ]
  | inr b ↦ rw (b) (l, put-Positive d c ns p)
]

put_last :
    (d c : ℕ) (t : List Node) → Positive t → count_of d t ≡ 1 → (mrf_put d c t).0 ≡ orig_of d t
unfolding mrf_put
put_last d c [] p e = absurd (omega arith)
put_last d c (m ∷ ns) (l, p) e = elim (Bool-cases (m.mtd_disk == d)) [
  | inl b ↦ let o : (m.mtd_count == 1) ≡ true = ground arith in rw (b, o) refl
  | inr b ↦ let k = put_last d c ns p (ground arith) in rw (b) k
]

-- In a table without an empty count, `mrf_put` of a disk that has a reference drops one of this disk and none of
-- another, leaves no empty count, and gives back the function that the table keeps for the disk if
-- that was the last reference.
pub mrf_put_lem :
    (d c : ℕ) (t : List Node)
    → Positive t
    → count_of d t ≢ 0
    → (let (fn, t') = mrf_put d c t in
        Positive t'
        × ((e : ℕ) → count_of e t' + (if d == e then 1 else 0) ≡ count_of e t)
        × (count_of d t ≡ 1 → fn ≡ orig_of d t))
mrf_put_lem d c t p ne = (put-Positive d c t p, λ e. put_count d c e t p ne, put_last d c t p)

bump_orig : (d e : ℕ) (t : List Node) → orig_of e (bump d t) ≡ orig_of e t
unfolding bump
bump_orig d e [] = refl
bump_orig d e (m ∷ ns) = elim (Bool-cases (m.mtd_disk == d)) [
  | inl b ↦ rw (b) refl
  | inr b ↦ rw (b, bump_orig d e ns) refl
]

-- the outcome of `mrf_get`, in a table of which `t` was the state before
abbrev pub Counted : (room : Bool) (d fn : ℕ) → List Node → Result (List Node) → Type 0
Counted room d fn t (ok t') =
    Positive t'
    × ((e : ℕ) → count_of e t' ≡ count_of e t + (if d == e then 1 else 0))
    × (orig_of d t' ≢ none)
    × (get_a_node d t ≡ none → (room ≡ true) × (orig_of d t' ≡ some fn))
    × ((e : ℕ) → orig_of e t ≢ none → orig_of e t' ≡ orig_of e t)
Counted room d fn t (err e) = (e ≡ enomem) × (get_a_node d t ≡ none) × (room ≡ false)
Counted room d fn t oops = ⊥

found_orig : (d : ℕ) (t : List Node) {n : Node} → get_a_node d t ≡ some n → orig_of d t ≢ none
unfolding get_a_node
found_orig d [] e = λ z. cc
found_orig d (m ∷ ns) e = choose (m.mtd_disk == d) (found_orig d ns) e
  where
    choose :
        (c : Bool) {k : Node}
        → (get_a_node d ns ≡ some k → orig_of d ns ≢ none)
        → (if c then some m else get_a_node d ns) ≡ some k
        → (if c then some m.mtd_orig else orig_of d ns) ≢ none
    choose true f h = λ z. cc
    choose false f h = f h

missing_orig : (d : ℕ) (t : List Node) → get_a_node d t ≡ none → orig_of d t ≡ none
unfolding get_a_node
missing_orig d [] e = refl
missing_orig d (m ∷ ns) e = choose (m.mtd_disk == d) (missing_orig d ns) e
  where
    choose :
        (c : Bool)
        → (get_a_node d ns ≡ none → orig_of d ns ≡ none)
        → (if c then some m else get_a_node d ns) ≡ none
        → (if c then some m.mtd_orig else orig_of d ns) ≡ none
    choose true f h = absurd (cc)
    choose false f h = f h

missing_not_found : {n : Node} → some n ≡ none → ⊥
missing_not_found h = cc

counts :
    (room : Bool) (d fn : ℕ) (t : List Node) (o : Option Node)
    → Positive t
    → get_a_node d t ≡ o
    → Counted room d fn t (get_found room d fn o t)
unfolding get_found
counts room d fn t (some n) p g = (
  bump-Positive d t p,
  λ e. bump_count d e t g,
  rw (bump_orig d d t) (found_orig d t g),
  (λ h. absurd (missing_not_found (sym g ∙ h))),
  λ e _. bump_orig d e t,
)
counts false d fn t none p g = (refl, g, refl)
counts true d fn t none p g = (
  (omega arith, p),
  λ e. omega arith,
  rw (eq→== d d refl) (λ z. cc),
  (λ h. (refl, rw (eq→== d d refl) refl)),
  λ e ne. elim (Bool-cases (d == e)) [
    | inl b ↦
        let same : d ≡ e = ==→eq d e b in
        absurd (ne (subst (λ x. orig_of x t ≡ none) same (missing_orig d t g)))
    | inr b ↦ rw (b) refl
  ],
)

-- In a table without an empty count, `mrf_get` that succeeds adds a reference to its disk and none to another,
-- leaves no empty count, keeps a function for the disk (for a disk that was not in the table the one it is
-- called with, and the allocation has then succeeded), and changes none that was kept; it fails only
-- with `-ENOMEM`, for a disk that is not in the table when the allocation has failed.
pub mrf_get_lem :
    (room : Bool) (d fn : ℕ) (t : List Node)
    → Positive t
    → Counted room d fn t (mrf_get room d fn t)
unfolding mrf_get
mrf_get_lem room d fn t p = counts room d fn t (get_a_node d t) p refl
