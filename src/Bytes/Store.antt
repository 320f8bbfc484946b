-- ===== src/Bytes/Store.antt =====
-- The contents of a file as a function of the offset: reading a run of bytes, writing one.
use moocbt.Common.{
  ℕ, zero, suc, ◌+◌, ◌-◌, ◌≤◌, ◌<◌, ◌≡◌, ◌⊎◌, refl, ap, ap₂, List, [], ◌∷◌, arith, length, All,
  get_or, take, drop, ltb, if◌then◌else◌, ◌∙◌,
}

abbrev pub Content : Type 0
Content = ℕ → ℕ

unfoldable pub bytes_at : Content → ℕ → ℕ → List ℕ
bytes_at c off zero = []
bytes_at c off (suc n) = c off ∷ bytes_at c (off + 1) n

unfoldable pub write_at : Content → ℕ → List ℕ → Content
write_at c off bs p =
    if ltb p off then c p else if ltb (p - off) (length bs) then get_or bs (p - off) 0 else c p

pub length-bytes_at : (c : Content) (off n : ℕ) → length (bytes_at c off n) ≡ n
unfolding bytes_at
length-bytes_at c off zero = refl
length-bytes_at c off (suc n) = ap suc (length-bytes_at c (off + 1) n)

pub bytes_at-All :
    (c : Content) (off n : ℕ) → ((p : ℕ) → c p < 256) → All (λ b. b < 256) (bytes_at c off n)
unfolding bytes_at
bytes_at-All c off zero h = tt
bytes_at-All c off (suc n) h = (h off, bytes_at-All c (off + 1) n h)

-- A run of bytes depends on the bytes of the run alone.
pub bytes_at_congr :
    (c d : Content) (off n : ℕ)
    → ((p : ℕ) → off ≤ p → p < off + n → c p ≡ d p)
    → bytes_at c off n ≡ bytes_at d off n
unfolding bytes_at
bytes_at_congr c d off zero h = refl
bytes_at_congr c d off (suc n) h =
    ap₂ ◌∷◌ (h off (omega arith) (omega arith))
      (bytes_at_congr c d (off + 1) n (λ p a b. h p (omega arith) (omega arith)))

pub write_at_outside :
    (c : Content) (off : ℕ) (bs : List ℕ) (p : ℕ)
    → (p < off) ⊎ (off + length bs ≤ p)
    → write_at c off bs p ≡ c p
unfolding write_at
write_at_outside c off bs p h = ground arith

pub write_at_inside :
    (c : Content) (off : ℕ) (bs : List ℕ) (k : ℕ)
    → k < length bs
    → write_at c off bs (off + k) ≡ get_or bs k 0
unfolding write_at
write_at_inside c off bs k h = let e : off + k - off ≡ k = omega arith in rw e (ground arith)

take-drop-cons :
    (bs : List ℕ) (m n : ℕ)
    → m < length bs
    → take (suc n) (drop m bs) ≡ get_or bs m 0 ∷ take n (drop (suc m) bs)
take-drop-cons [] m n h = elim h [ ]
take-drop-cons (b ∷ bs) zero n h = refl
take-drop-cons (b ∷ bs) (suc m) n h = take-drop-cons bs m n (omega arith)

-- What was written is what is read, from any part of it.
pub bytes_at-write_at :
    (c : Content) (off : ℕ) (bs : List ℕ) (p m n : ℕ)
    → p ≡ off + m
    → m + n ≤ length bs
    → bytes_at (write_at c off bs) p n ≡ take n (drop m bs)
unfolding bytes_at
bytes_at-write_at c off bs p m zero e h = refl
bytes_at-write_at c off bs p m (suc n) e h = rw (take-drop-cons bs m n (omega arith)) (
    ap₂ ◌∷◌ (rw e (write_at_inside c off bs m (omega arith)))
      (bytes_at-write_at c off bs (p + 1) (suc m) n (omega arith) (omega arith)))

pub take-drop-bytes_at :
    (c : Content) (off m n k : ℕ)
    → m + n ≤ k
    → take n (drop m (bytes_at c off k)) ≡ bytes_at c (off + m) n
unfolding bytes_at
take-drop-bytes_at c off zero zero k h = refl
take-drop-bytes_at c off zero (suc n) zero h = absurd (omega arith)
take-drop-bytes_at c off zero (suc n) (suc k) h =
    let e : off + 0 ≡ off = omega arith in
    let e' : off + 1 + 0 ≡ off + 1 = omega arith in
    rw e (ap (λ l. c off ∷ l) (take-drop-bytes_at c (off + 1) zero n k (omega arith) ∙ rw e'))
take-drop-bytes_at c off (suc m) n zero h = absurd_or_nil n (omega arith)
  where
    absurd_or_nil : (n : ℕ) → suc m + n ≤ 0 → take n [] ≡ bytes_at c (off + suc m) n
    absurd_or_nil n h = absurd (omega arith)
take-drop-bytes_at c off (suc m) n (suc k) h =
    let e : off + suc m ≡ off + 1 + m = omega arith in
    rw e (take-drop-bytes_at c (off + 1) m n k (omega arith))

pub drop-bytes_at :
    (c : Content) (off m r k : ℕ) → k ≡ m + r → drop m (bytes_at c off k) ≡ bytes_at c (off + m) r
unfolding bytes_at
drop-bytes_at c off zero r k e =
    let e' : off + 0 ≡ off = omega arith in let e'' : k ≡ r = omega arith in rw (e', e'')
drop-bytes_at c off (suc m) r zero e = absurd (omega arith)
drop-bytes_at c off (suc m) r (suc k) e =
    let e' : off + suc m ≡ off + 1 + m = omega arith in
    rw e' (drop-bytes_at c (off + 1) m r k (omega arith))

pub get_or-bytes_at :
    (c : Content) (off n k d : ℕ) → k < n → get_or (bytes_at c off n) k d ≡ c (off + k)
unfolding bytes_at
get_or-bytes_at c off zero k d h = absurd (omega arith)
get_or-bytes_at c off (suc n) zero d h = let e : off ≡ off + 0 = omega arith in ap c e
get_or-bytes_at c off (suc n) (suc k) d h =
    let e : off + 1 + k ≡ off + suc k = omega arith in
    get_or-bytes_at c (off + 1) n k d (omega arith) ∙ ap c e
