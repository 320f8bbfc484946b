-- ===== src/Queue/Order.antt =====
-- What the delay of reads (`bio_queue_dequeue_delay_read`) keeps, and when it hands out a read.
use moocbt.Common.{
  ℕ, suc, ap, length, ◌+◌, ◌/◌, ◌^◌, ◌≤◌, ◌<◌, ◌⊎◌, max, Option, some, ◌≡◌, refl, true, false,
  Bool-cases, inl, inr, List, [], ◌∷◌, All, ◌==◌, if◌then◌else◌, arith,
}
use moocbt.Tracer.{Bio}
use moocbt.Queue.{Queue, delays, bio_overlap, dequeue_delay_read}
use moocbt.Queue.Chain.{IsQueue}
use moocbt.Queue.Delay.{scan, hand_out, dequeue_delay_read-HandedOut}

-- how often the bio is in the list
abbrev pub count : ℕ → List ℕ → ℕ
count a [] = 0
count a (x ∷ xs) = (if x == a then 1 else 0) + count a xs

count-scan :
    (bio : ℕ → Bio) (a b : ℕ) (xs : List ℕ)
    → count a ((scan bio b xs).0 ∷ (scan bio b xs).1) ≡ count a (b ∷ xs)
count-scan bio a b [] = refl
count-scan bio a b (t ∷ xs) = elim (Bool-cases (delays bio b t)) [
  | inl h ↦ rw (h) (omega arith)
  | inr h ↦ rw (h) (omega (arith, count-scan bio a b xs))
]

length-scan : (bio : ℕ → Bio) (b : ℕ) (xs : List ℕ) → length (scan bio b xs).1 ≡ length xs
length-scan bio b [] = refl
length-scan bio b (t ∷ xs) = elim (Bool-cases (delays bio b t)) [
  | inl h ↦ rw (h) refl
  | inr h ↦ rw (h) (ap suc (length-scan bio b xs))
]

pub length-hand_out :
    (bio : ℕ → Bio) (b : ℕ) (xs : List ℕ) → length (hand_out bio b xs).1 ≡ length xs
length-hand_out bio b xs = elim (Bool-cases (bio b).is_write) [
  | inl h ↦ rw (h) refl
  | inr h ↦ rw (h) (length-scan bio b xs)
]

pub count-hand_out :
    (bio : ℕ → Bio) (a b : ℕ) (xs : List ℕ)
    → count a ((hand_out bio b xs).0 ∷ (hand_out bio b xs).1) ≡ count a (b ∷ xs)
count-hand_out bio a b xs = elim (Bool-cases (bio b).is_write) [
  | inl h ↦ rw (h) refl
  | inr h ↦ rw (h) (count-scan bio a b xs)
]

delayed_write : (bio : ℕ → Bio) (b t : ℕ) → delays bio b t ≡ true → (bio t).is_write ≡ true
unfolding delays
delayed_write bio b t h = ground arith

-- the bio ends below 2 ^ 64
abbrev pub NoWrap : Bio → Type 0
NoWrap a = a.sector + a.size / 512 < 2 ^ 64

-- a sector that each of the two covers or ends at
abbrev pub Meets : Bio → Bio → Type 0
Meets a b =
    (x : ℕ) × (a.sector ≤ x)
    × (x ≤ a.sector + a.size / 512)
    × (b.sector ≤ x)
    × (x ≤ b.sector + b.size / 512)

-- The bio `y` was handed out of a queue of which `b` was the head: the others are queued as before. A write is
-- handed out at once. For a read it is a write that meets it, or the read itself, and then no write
-- that stays queued meets it.
pub record InOrder (bio : ℕ → Bio) (b : ℕ) (xs : List ℕ) (r : Option (ℕ × Queue)) : Type 0 where
  pub out : ℕ
  pub left : List ℕ
  pub queue : Queue
  pub result : r ≡ some (out, queue)
  pub queued : IsQueue queue left
  pub kept : (a : ℕ) → count a (out ∷ left) ≡ count a (b ∷ xs)
  pub write_first : (bio b).is_write ≡ true → out ≡ b
  pub read_waits :
      (bio b).is_write ≡ false
      → ((out ≡ b) × All (λ t. (bio t).is_write ≡ true → ¬ Meets (bio b) (bio t)) left)
        ⊎ (((bio out).is_write ≡ true) × Meets (bio b) (bio out))

overlaps : (a b : Bio) → NoWrap a → NoWrap b → bio_overlap a b ≡ true → Meets a b
unfolding bio_overlap
overlaps a b n m h = (max a.sector b.sector, ground arith, ground arith, ground arith, ground arith)

apart : (a b : Bio) → NoWrap a → NoWrap b → bio_overlap a b ≡ false → ¬ Meets a b
unfolding bio_overlap
apart a b n m h (x, l, l', k, k') = ground arith

write_in_way :
    (bio : ℕ → Bio) (b t : ℕ)
    → NoWrap (bio b)
    → NoWrap (bio t)
    → delays bio b t ≡ true
    → ((bio t).is_write ≡ true) × Meets (bio b) (bio t)
unfolding delays
write_in_way bio b t n m h = (delayed_write bio b t h, overlaps (bio b) (bio t) n m (ground arith))

out_of_way :
    (bio : ℕ → Bio) (b t : ℕ)
    → NoWrap (bio b)
    → NoWrap (bio t)
    → delays bio b t ≡ false
    → (bio t).is_write ≡ true
    → ¬ Meets (bio b) (bio t)
unfolding delays
out_of_way bio b t n m h w = apart (bio b) (bio t) n m (ground arith)

scan_order :
    (bio : ℕ → Bio) (b : ℕ) (xs : List ℕ)
    → NoWrap (bio b)
    → All (λ t. NoWrap (bio t)) xs
    → (let (y, ys) = scan bio b xs in
        ((y ≡ b) × All (λ t. (bio t).is_write ≡ true → ¬ Meets (bio b) (bio t)) ys)
        ⊎ (((bio y).is_write ≡ true) × Meets (bio b) (bio y)))
scan_order bio b [] n m = inl (refl, tt)
scan_order bio b (t ∷ xs) n (m, ms) = elim (Bool-cases (delays bio b t)) [
  | inl h ↦ rw (h) (inr (write_in_way bio b t n m h))
  | inr h ↦ rw (h) (elim (scan_order bio b xs n ms) [
    | inl (e, a) ↦ inl (e, (out_of_way bio b t n m h, a))
    | inr w ↦ inr w
  ])
]

hand_out_write :
    (bio : ℕ → Bio) (b : ℕ) (xs : List ℕ) → (bio b).is_write ≡ true → (hand_out bio b xs).0 ≡ b
hand_out_write bio b xs w = rw (w) refl

hand_out_read :
    (bio : ℕ → Bio) (b : ℕ) (xs : List ℕ)
    → NoWrap (bio b)
    → All (λ t. NoWrap (bio t)) xs
    → (bio b).is_write ≡ false
    → (let (y, ys) = hand_out bio b xs in
        ((y ≡ b) × All (λ t. (bio t).is_write ≡ true → ¬ Meets (bio b) (bio t)) ys)
        ⊎ (((bio y).is_write ≡ true) × Meets (bio b) (bio y)))
hand_out_read bio b xs n ms w = rw (w) (scan_order bio b xs n ms)

-- On a queue that links `b ∷ xs`, of bios that end below 2 ^ 64, `bio_queue_dequeue_delay_read` hands out
-- one of them and keeps each other one queued. If the head is a write, it is handed out. If the head
-- is a read, then either it is handed out, and no write that stays queued covers or borders on a
-- sector of it, or a write that does is handed out in its place.
pub dequeue_delay_read-InOrder :
    (bio : ℕ → Bio) (fuel b : ℕ) (q : Queue) (xs : List ℕ)
    → length xs < fuel
    → IsQueue q (b ∷ xs)
    → NoWrap (bio b)
    → All (λ t. NoWrap (bio t)) xs
    → InOrder bio b xs (dequeue_delay_read bio fuel q)
dequeue_delay_read-InOrder bio fuel b q xs l i n ms =
    let (q', e, i', z) = dequeue_delay_read-HandedOut bio fuel b q xs l i in
    record {
      out = (hand_out bio b xs).0;
      left = (hand_out bio b xs).1;
      queue = q';
      result = e;
      queued = i';
      kept = λ a. count-hand_out bio a b xs;
      write_first = hand_out_write bio b xs;
      read_waits = hand_out_read bio b xs n ms;
    }
