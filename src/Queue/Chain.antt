-- ===== src/Queue/Chain.antt =====
-- The chain of `bi_next` pointers of a queue, and the list of bios that it stands for.
use moocbt.Common.{
  ℕ, ◌≡◌, ◌≢◌, refl, Option, none, some, List, [], ◌∷◌, All, ◌++◌, ◌==◌, if◌then◌else◌, arith,
}
use moocbt.Queue.{Queue}

-- from `p` the pointers lead through `xs` to NULL
abbrev pub Chain : (ℕ → Option ℕ) → Option ℕ → List ℕ → Type 0
Chain next p [] = p ≡ none
Chain next p (x ∷ xs) = (p ≡ some x) × Chain next (next x) xs

abbrev pub last_of : List ℕ → Option ℕ
last_of [] = none
last_of (x ∷ []) = some x
last_of (x ∷ y ∷ xs) = last_of (y ∷ xs)

abbrev pub Apart : ℕ → List ℕ → Type 0
Apart x xs = All (λ y. x ≢ y) xs

abbrev pub Distinct : List ℕ → Type 0
Distinct [] = Unit
Distinct (x ∷ xs) = Apart x xs × Distinct xs

-- the queue stands for the bios of the list, in this order
pub record IsQueue (q : Queue) (xs : List ℕ) : Type 0 where
  pub chain : Chain q.next q.head xs
  pub ends : q.tail ≡ last_of xs
  pub distinct : Distinct xs

pub Chain-frame :
    (f g : ℕ → Option ℕ) (p : Option ℕ) (xs : List ℕ)
    → Chain f p xs
    → All (λ x. g x ≡ f x) xs
    → Chain g p xs
Chain-frame f g p [] c same = c
Chain-frame f g p (x ∷ xs) (e, c) (s, same) = (e, rw (s) (Chain-frame f g (f x) xs c same))

pub same_of_Apart :
    (a : ℕ) (v : Option ℕ) (f : ℕ → Option ℕ) (xs : List ℕ)
    → Apart a xs
    → All (λ x. (if x == a then v else f x) ≡ f x) xs
same_of_Apart a v f [] out = tt
same_of_Apart a v f (x ∷ xs) (ne, out) = (ground (arith), same_of_Apart a v f xs out)

-- a chain survives an assignment to a pointer outside it
pub Chain-set :
    (a : ℕ) (v : Option ℕ) (f : ℕ → Option ℕ) (p : Option ℕ) (xs : List ℕ)
    → Apart a xs
    → Chain f p xs
    → Chain (λ x. if x == a then v else f x) p xs
Chain-set a v f p xs out c = Chain-frame f _ p xs c (same_of_Apart a v f xs out)

pub Apart-append : (a : ℕ) (xs : List ℕ) (b : ℕ) → Apart a xs → a ≢ b → Apart a (xs ++ (b ∷ []))
Apart-append a [] b h ne = (ne, tt)
Apart-append a (x ∷ xs) b (n, h) ne = (n, Apart-append a xs b h ne)

pub Distinct-append : (xs : List ℕ) (b : ℕ) → Distinct xs → Apart b xs → Distinct (xs ++ (b ∷ []))
Distinct-append [] b d out = (tt, tt)
Distinct-append (x ∷ xs) b (o, d) (ne, out) =
    (Apart-append x xs b o (λ e. ne (omega arith)), Distinct-append xs b d out)

pub last_of-append : (xs : List ℕ) (b : ℕ) → last_of (xs ++ (b ∷ [])) ≡ some b
last_of-append [] b = refl
last_of-append (x ∷ []) b = refl
last_of-append (x ∷ y ∷ xs) b = last_of-append (y ∷ xs) b
