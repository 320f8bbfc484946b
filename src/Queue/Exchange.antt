-- ===== src/Queue/Exchange.antt =====
-- A read takes the place of a write in the queue.
use moocbt.Common.{
  ℕ, ◌≡◌, ◌≢◌, refl, sym, subst, ◌∙◌, Option-cases, inl, inr, Option, none, some, List, [], ◌∷◌,
  ◌++◌, All, if◌then◌else◌, arith,
}
use moocbt.Queue.{Queue, set_next, relink, exchange, is_some_of}
use moocbt.Queue.Chain.{Chain, last_of, Apart, Distinct, IsQueue, Chain-frame}
use moocbt.Queue.List.{ne_of_last, last_of-cons}

-- `g` agrees with `f` but at the write, the read and the bio before the write
abbrev Agrees : (g f : ℕ → Option ℕ) → ℕ → ℕ → ℕ → Type 0
Agrees g f u b t = (a : ℕ) → a ≢ u → a ≢ b → a ≢ t → g a ≡ f a

frame_rest :
    (g f : ℕ → Option ℕ) (u b t : ℕ) (xs : List ℕ)
    → Agrees g f u b t
    → Apart u xs
    → Apart b xs
    → Apart t xs
    → All (λ x. g x ≡ f x) xs
frame_rest g f u b t [] same ou ob ot = tt
frame_rest g f u b t (x ∷ xs) same (nu, ou) (nb, ob) (nt, ot) = (
  same x (λ e. nu (sym e)) (λ e. nb (sym e)) (λ e. nt (sym e)),
  frame_rest g f u b t xs same ou ob ot,
)

ne_of_mid : (x : ℕ) (pre : List ℕ) (t : ℕ) (rest : List ℕ) → Apart x (pre ++ (t ∷ rest)) → x ≢ t
ne_of_mid x [] t rest o = o.0
ne_of_mid x (y ∷ pre) t rest o = ne_of_mid x pre t rest o.1

ne_of_pre : (x : ℕ) (pre ys : List ℕ) → Apart x (pre ++ ys) → Apart x pre
ne_of_pre x [] ys o = tt
ne_of_pre x (y ∷ pre) ys o = (o.0, ne_of_pre x pre ys o.1)

Chain-exchange :
    (g f : ℕ → Option ℕ) (u b t : ℕ) (p : Option ℕ) (x : ℕ) (pre rest : List ℕ)
    → Agrees g f u b t
    → g u ≡ some b
    → g b ≡ f t
    → Distinct (x ∷ (pre ++ (t ∷ rest)))
    → Apart b (x ∷ (pre ++ (t ∷ rest)))
    → last_of (x ∷ pre) ≡ some u
    → Chain f p (x ∷ (pre ++ (t ∷ rest)))
    → Chain g p (x ∷ (pre ++ (b ∷ rest)))
Chain-exchange g f u b t p x [] rest same gu gb d (nx, (nt, ob)) e (c, (c', c'')) =
    let xu : x ≡ u = cc in
    let gx : g x ≡ some b = rw (xu) gu in
    (
      c,
      (
        gx,
        rw (gb) (
            Chain-frame f g (f t) rest c'' (
              frame_rest g f x b t rest (subst (λ v. Agrees g f v b t) (sym xu) same) d.0.1 ob
                d.1.0)),
      ),
    )
Chain-exchange g f u b t p x (y ∷ pre) rest same gu gb (o, d) (nb, ob) e (c, c') =
    let xu : x ≢ u = ne_of_last x (y ∷ pre) (ne_of_pre x (y ∷ pre) (t ∷ rest) o) e in
    let gx : g x ≡ f x = same x xu (λ h. nb (sym h)) (ne_of_mid x (y ∷ pre) t rest o) in
    (c, rw (gx) (Chain-exchange g f u b t (f x) y pre rest same gu gb d ob e c'))

last_of-exchange :
    (b t : ℕ) (pre rest : List ℕ)
    → Distinct (pre ++ (t ∷ rest))
    → (if is_some_of t (last_of (pre ++ (t ∷ rest))) then some b else last_of (pre ++ (t ∷ rest)))
      ≡ last_of (pre ++ (b ∷ rest))
last_of-exchange b t [] [] d = ground arith
last_of-exchange b t [] (r ∷ rest) (o, d) = elim (Option-cases (last_of (r ∷ rest))) [
  | inl e ↦ absurd (last_of-cons r rest e)
  | inr (v, e) ↦ let ne : t ≢ v = ne_of_last t (r ∷ rest) o e in rw (e) (ground arith)
]
last_of-exchange b t (x ∷ []) rest (o, d) = last_of-exchange b t [] rest d
last_of-exchange b t (x ∷ y ∷ pre) rest (o, d) = last_of-exchange b t (y ∷ pre) rest d

Apart-exchange :
    (x b t : ℕ) (pre rest : List ℕ)
    → x ≢ b
    → Apart x (pre ++ (t ∷ rest))
    → Apart x (pre ++ (b ∷ rest))
Apart-exchange x b t [] rest ne o = (ne, o.1)
Apart-exchange x b t (y ∷ pre) rest ne o = (o.0, Apart-exchange x b t pre rest ne o.1)

Distinct-exchange :
    (b t : ℕ) (pre rest : List ℕ)
    → Distinct (pre ++ (t ∷ rest))
    → Apart b (pre ++ (t ∷ rest))
    → Distinct (pre ++ (b ∷ rest))
Distinct-exchange b t [] rest d o = (o.1, d.1)
Distinct-exchange b t (x ∷ pre) rest d o =
    (Apart-exchange x b t pre rest (λ e. o.0 (sym e)) d.0, Distinct-exchange b t pre rest d.1 o.1)

ne_of_split :
    (b : ℕ) (pre : List ℕ) (t : ℕ) (rest : List ℕ)
    → Apart b (pre ++ (t ∷ rest))
    → (b ≢ t) × Apart b rest
ne_of_split b [] t rest o = o
ne_of_split b (x ∷ pre) t rest o = ne_of_split b pre t rest o.1

ExchangeChain : ℕ → ℕ → Option ℕ → Queue → List ℕ → List ℕ → Type 0
ExchangeChain b t prev q pre rest =
    Chain (exchange b prev t q).next (exchange b prev t q).head (pre ++ (b ∷ rest))

exchange_first :
    (b t : ℕ) (q : Queue) (rest : List ℕ)
    → IsQueue q (t ∷ rest)
    → Apart b (t ∷ rest)
    → ExchangeChain b t none q [] rest
unfolding ExchangeChain exchange relink set_next
exchange_first b t q rest i (ne, o) =
    let gb : (exchange b none t q).next b ≡ q.next t = ground arith in
    (
      refl,
      rw (gb) (
          Chain-frame q.next _ (q.next t) rest i.chain.1
            (frame_rest _ q.next t b t rest (λ a n m l. ground arith) i.distinct.0 o i.distinct.0)),
    )

exchange_later :
    (b t u : ℕ) (q : Queue) (x : ℕ) (pre rest : List ℕ)
    → last_of (x ∷ pre) ≡ some u
    → IsQueue q (x ∷ (pre ++ (t ∷ rest)))
    → Apart b (x ∷ (pre ++ (t ∷ rest)))
    → u ≢ t
    → u ≢ b
    → ExchangeChain b t (some u) q (x ∷ pre) rest
unfolding ExchangeChain exchange relink set_next
exchange_later b t u q x pre rest e i o nt nb =
    let bt : b ≢ t = (ne_of_split b pre t rest o.1).0 in
    Chain-exchange _ q.next u b t q.head x pre rest (λ a n m l. ground arith) (ground arith)
      (ground arith) i.distinct o e i.chain

exchange-Chain :
    (b t : ℕ) (prev : Option ℕ) (q : Queue) (pre rest : List ℕ)
    → prev ≡ last_of pre
    → IsQueue q (pre ++ (t ∷ rest))
    → Apart b (pre ++ (t ∷ rest))
    → ExchangeChain b t prev q pre rest
exchange-Chain b t none q [] rest e i o = exchange_first b t q rest i o
exchange-Chain b t none q (x ∷ pre) rest e i o = absurd (last_of-cons x pre (sym e))
exchange-Chain b t (some u) q [] rest e i o = absurd (cc)
exchange-Chain b t (some u) q (x ∷ pre) rest e i o =
    exchange_later b t u q x pre rest (sym e) i o (last_ne u t (x ∷ pre) rest (sym e) i.distinct)
      (λ h. ne_of_last b (x ∷ pre) (ne_of_pre b (x ∷ pre) (t ∷ rest) o) (sym e) (sym h))
  where
    last_ne :
        (u t : ℕ) (xs rest : List ℕ) → last_of xs ≡ some u → Distinct (xs ++ (t ∷ rest)) → u ≢ t
    last_ne u t [] rest e d = absurd (cc)
    last_ne u t (y ∷ []) rest e (o, d) = let h : u ≡ y = cc in λ k. o.0 (sym h ∙ k)
    last_ne u t (y ∷ z ∷ xs) rest e (o, d) = last_ne u t (z ∷ xs) rest e d

pub exchange_tail :
    (b t : ℕ) (prev : Option ℕ) (q : Queue)
    → ((exchange b prev t q).tail ≡ (if is_some_of t q.tail then some b else q.tail))
      × ((exchange b prev t q).next t ≡ none)
unfolding exchange relink set_next
exchange_tail b t none q = (refl, ground arith)
exchange_tail b t (some u) q = (refl, ground arith)

pub exchange-IsQueue :
    (b t : ℕ) (prev : Option ℕ) (q : Queue) (pre rest : List ℕ)
    → prev ≡ last_of pre
    → IsQueue q (pre ++ (t ∷ rest))
    → Apart b (pre ++ (t ∷ rest))
    → IsQueue (exchange b prev t q) (pre ++ (b ∷ rest))
unfolding ExchangeChain
exchange-IsQueue b t prev q pre rest e i o = record {
  chain = exchange-Chain b t prev q pre rest e i o;
  ends = (exchange_tail b t prev q).0 ∙ rw (i.ends) (last_of-exchange b t pre rest i.distinct);
  distinct = Distinct-exchange b t pre rest i.distinct o;
}
