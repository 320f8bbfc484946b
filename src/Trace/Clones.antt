-- ===== src/Trace/Clones.antt =====
-- The sectors that lists of clones cover, and what making a clone gives.
use moocbt.Common.{
  ℕ, zero, suc, ◌+◌, ◌*◌, ◌/◌, min, subst, ◌≡◌, ◌≢◌, ◌≤◌, refl, Bool, true, false, not, ◌&&◌, List,
  [], ◌∷◌, ◌++◌, some, Result, ok, err, oops, All, length, get_elem?, ltb, leb, if◌then◌else◌,
  arith,
}
use moocbt.Trace.{Clone, Round, fill, make_read_clone, remove}

-- 1 if the sector is among so many from the start
abbrev pub at : ℕ → ℕ → ℕ → ℕ
at start n k = if leb start k && ltb k (start + n) then 1 else 0

-- how many of the clones cover a sector
abbrev pub cover : ℕ → List Clone → ℕ
cover k [] = 0
cover k (c ∷ cs) = at c.sect (c.size / 512) k + cover k cs

pub cover-append : (k : ℕ) (cs ds : List Clone) → cover k (cs ++ ds) ≡ cover k cs + cover k ds
cover-append k [] ds = omega arith
cover-append k (c ∷ cs) ds = omega (arith, cover-append k cs ds)

pub cover-remove :
    (k i : ℕ) (cs : List Clone) {c : Clone}
    → get_elem? cs i ≡ some c
    → cover k cs ≡ at c.sect (c.size / 512) k + cover k (remove i cs)
unfolding remove
cover-remove k i [] e = cc
cover-remove k zero (d ∷ cs) {c} e = let h : d ≡ c = cc in rw (h) refl
cover-remove k (suc i) (d ∷ cs) e = omega (arith, cover-remove k i cs e)

pub length-remove :
    (i : ℕ) (cs : List Clone) {c : Clone}
    → get_elem? cs i ≡ some c
    → length cs ≡ suc (length (remove i cs))
unfolding remove
length-remove i [] e = cc
length-remove zero (d ∷ cs) e = refl
length-remove (suc i) (d ∷ cs) e = omega (arith, length-remove i cs e)

pub All-remove : (P : Clone → Type 0) (i : ℕ) (cs : List Clone) → All P cs → All P (remove i cs)
unfolding remove
All-remove P i [] a = a
All-remove P zero (d ∷ cs) a = a.1
All-remove P (suc i) (d ∷ cs) a = (a.0, All-remove P i cs a.1)

pub All-append :
    {A : Type 0} (P : A → Type 0) (cs : List A) (c : A) → All P cs → P c → All P (cs ++ (c ∷ []))
All-append P [] c a p = (p, tt)
All-append P (d ∷ cs) c a p = (a.0, All-append P cs c a.1 p)

pub All-mono :
    {A : Type 0} (P Q : A → Type 0) (cs : List A) → ((c : A) → P c → Q c) → All P cs → All Q cs
All-mono P Q [] f a = tt
All-mono P Q (c ∷ cs) f a = (f c a.0, All-mono P Q cs f a.1)

-- a clone is of whole pages, and of no more than are left
abbrev pub OfPages : ℕ → Result ℕ → Type 0
OfPages n (ok bytes) = (p : ℕ) × (bytes ≡ 4096 * p) × (p ≤ n)
OfPages n (err e) = e ≢ 0
OfPages n oops = ⊥

if-OfPages :
    (n : ℕ) (c : Bool) (r s : Result ℕ) → OfPages n r → OfPages n s → OfPages n (if c then r else s)
if-OfPages n true r s a b = a
if-OfPages n false r s a b = b

fill-OfPages : (r : Round) (n i total m : ℕ) → total ≡ 4096 * m → OfPages (m + n) (fill r n i total)
unfolding fill
fill-OfPages r zero i total m t = (m, t, omega arith)
fill-OfPages r (suc n) i total m t =
    if-OfPages (m + suc n) (not (r.page_ok i)) _ _ (λ e. omega arith)
      (if-OfPages (m + suc n) (not (r.takes i)) _ _ (m, t, omega arith)
        (let e : m + 1 + n ≡ m + suc n = omega arith in
          subst (λ k. OfPages k (fill r n (i + 1) (total + 4096))) e
            (fill-OfPages r n (i + 1) (total + 4096) (m + 1) (omega arith))))

OfPages-mono : (n m : ℕ) (r : Result ℕ) → n ≤ m → OfPages n r → OfPages m r
OfPages-mono n m (ok bytes) h (p, e, l) = (p, e, omega arith)
OfPages-mono n m (err e) h o = o
OfPages-mono n m oops h o = o

pub make_read_clone-OfPages :
    (max_pages : ℕ) (r : Round) (pages : ℕ) → OfPages pages (make_read_clone max_pages r pages)
unfolding make_read_clone
make_read_clone-OfPages max_pages r pages =
    if-OfPages pages (not r.bio_ok) _ _ (λ e. omega arith)
      (OfPages-mono (0 + min pages max_pages) pages (fill r (min pages max_pages) 0 0) (omega arith)
        (fill-OfPages r (min pages max_pages) 0 0 0 (omega arith)))
