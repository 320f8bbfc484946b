-- ===== src/Queue/List.antt =====
-- Adding to the queue and taking from it.
use moocbt.Common.{
  ℕ, ◌≡◌, ◌≢◌, ◌↔◌, true, false, refl, sym, Option, none, some, List, [], ◌∷◌, ◌++◌, ◌==◌,
  if◌then◌else◌, arith,
}
use moocbt.Queue.{
  Queue, set_next, list_init, link_last, list_add, pop_head, pop_from, list_pop, list_empty,
}
use moocbt.Queue.Chain.{
  Chain, last_of, Apart, Distinct, IsQueue, Chain-set, Distinct-append, last_of-append,
}

pub ne_of_last : (x : ℕ) (xs : List ℕ) {t : ℕ} → Apart x xs → last_of xs ≡ some t → x ≢ t
ne_of_last x [] out e = absurd (cc)
ne_of_last x (y ∷ []) (ne, out) e = λ h. ne (cc)
ne_of_last x (y ∷ z ∷ xs) (ne, out) e = ne_of_last x (z ∷ xs) out e

-- the last bio is linked to the new one
Chain-link :
    (b t : ℕ) (f : ℕ → Option ℕ) (p : Option ℕ) (xs : List ℕ)
    → f b ≡ none
    → Distinct xs
    → Apart b xs
    → last_of xs ≡ some t
    → Chain f p xs
    → Chain (λ a. if a == t then some b else f a) p (xs ++ (b ∷ []))
Chain-link b t f p [] end d out e c = absurd (cc)
Chain-link b t f p (x ∷ []) end d (ne, out) e (c, c') = (c, (ground arith, ground arith))
Chain-link b t f p (x ∷ y ∷ xs) end (o, d) (ne, out) e (c, c') =
    let apart : x ≢ t = ne_of_last x (y ∷ xs) o e in
    let stays : (if x == t then some b else f x) ≡ f x = ground arith in
    (c, rw (stays) (Chain-link b t f (f x) (y ∷ xs) end d out e c'))

pub last_of-cons : (x : ℕ) (xs : List ℕ) → last_of (x ∷ xs) ≢ none
last_of-cons x [] e = cc
last_of-cons x (y ∷ xs) e = last_of-cons y xs e

link_last-Chain :
    (b : ℕ) (q : Queue) (o : Option ℕ) (xs : List ℕ)
    → q.next b ≡ none
    → Distinct xs
    → Apart b xs
    → o ≡ last_of xs
    → Chain q.next q.head xs
    → Chain (link_last o b q).next (link_last o b q).head (xs ++ (b ∷ []))
unfolding link_last set_next
link_last-Chain b q none [] end d out e c = (refl, end)
link_last-Chain b q none (x ∷ xs) end d out e c = absurd (last_of-cons x xs (sym e))
link_last-Chain b q (some t) xs end d out e c = Chain-link b t q.next q.head xs end d out (sym e) c

-- `bio_list_add` puts a bio that is not queued at the end.
pub list_add-IsQueue :
    (b : ℕ) (q : Queue) (xs : List ℕ)
    → Apart b xs
    → IsQueue q xs
    → IsQueue (list_add b q) (xs ++ (b ∷ []))
unfolding list_add set_next
list_add-IsQueue b q xs out i = record {
  chain =
      link_last-Chain b cut cut.tail xs (ground arith) i.distinct out i.ends
        (Chain-set b none q.next q.head xs out i.chain);
  ends = sym (last_of-append xs b);
  distinct = Distinct-append xs b i.distinct out;
}
  where
    cut : Queue
    cut = set_next b none q

pub list_init-IsQueue : (q : Queue) → IsQueue (list_init q) []
unfolding list_init
list_init-IsQueue q = record { chain = refl; ends = refl; distinct = tt }

pub nonempty : (q : Queue) {x : ℕ} → q.head ≡ some x → list_empty q ≡ false
unfolding list_empty
nonempty q h = rw (h)

pub list_empty_lem : (q : Queue) (xs : List ℕ) → IsQueue q xs → (list_empty q ≡ true) ↔ (xs ≡ [])
unfolding list_empty
list_empty_lem q [] i = (λ h. refl, λ h. rw (i.chain))
list_empty_lem q (x ∷ xs) i =
    (λ h. absurd (let e : list_empty q ≡ false = nonempty q i.chain.0 in cc), λ h. absurd (cc))

-- what `bio_list_pop` leaves of a queue
record Popped (b : ℕ) (q q' : Queue) (xs : List ℕ) : Type 0 where
  pub rest : IsQueue q' xs
  pub cut : q'.next b ≡ none

popped :
    (b : ℕ) (q : Queue) (xs : List ℕ)
    → IsQueue q (b ∷ xs)
    → Popped b q (set_next b none (pop_head b q)) xs
unfolding set_next pop_head
popped b q [] i = record {
  rest = record { chain = i.chain.1; ends = rw (i.chain.1); distinct = tt };
  cut = ground arith;
}
popped b q (x ∷ xs) i = record {
  rest = record {
    chain = Chain-set b none q.next (q.next b) (x ∷ xs) i.distinct.0 i.chain.1;
    ends = rw (i.chain.1.0) i.ends;
    distinct = i.distinct.1;
  };
  cut = ground arith;
}

-- `bio_list_pop` takes the first bio off.
pub list_pop-IsQueue :
    (b : ℕ) (q : Queue) (xs : List ℕ)
    → IsQueue q (b ∷ xs)
    → (q' : Queue) × (list_pop q ≡ (some b, q')) × IsQueue q' xs × (q'.next b ≡ none)
unfolding list_pop pop_from
list_pop-IsQueue b q xs i =
    let r = popped b q xs i in (set_next b none (pop_head b q), rw (i.chain.0), r.rest, r.cut)
