-- ===== src/Queue/Fifo.antt =====
-- The queue as a list to whose end bios are added and from whose head they are taken.
use moocbt.Common.{ℕ, ◌≡◌, refl, ap, Option, none, some, List, [], ◌∷◌, ◌++◌}
use moocbt.Queue.{Queue, list_add, list_pop, pop_from}
use moocbt.Queue.Chain.{Apart, IsQueue}
use moocbt.Queue.List.{list_add-IsQueue, list_pop-IsQueue}

-- a call of `bio_queue_add` or of `bio_queue_dequeue`
pub data Op : Type 0 where
  add : (b : ℕ) → Op
  dequeue : Op

-- what the calls of `bio_queue_dequeue` return, in order, and the queue after all
unfoldable pub run : List Op → Queue → List (Option ℕ) × Queue
unfolding list_add list_pop
run [] q = ([], q)
run (Op.add b ∷ ops) q = run ops (list_add b q)
run (Op.dequeue ∷ ops) q = let r = list_pop q in let rest = run ops r.1 in (r.0 ∷ rest.0, rest.1)

-- the same calls on a list
abbrev pub head_of : List ℕ → Option ℕ
head_of [] = none
head_of (x ∷ xs) = some x

abbrev pub rest_of : List ℕ → List ℕ
rest_of [] = []
rest_of (x ∷ xs) = xs

abbrev pub spec : List Op → List ℕ → List (Option ℕ) × List ℕ
spec [] xs = ([], xs)
spec (Op.add b ∷ ops) xs = spec ops (xs ++ (b ∷ []))
spec (Op.dequeue ∷ ops) xs = let rest = spec ops (rest_of xs) in (head_of xs ∷ rest.0, rest.1)

-- No bio is added while it is queued.
abbrev pub Fresh : List Op → List ℕ → Type 0
Fresh [] xs = Unit
Fresh (Op.add b ∷ ops) xs = Apart b xs × Fresh ops (xs ++ (b ∷ []))
Fresh (Op.dequeue ∷ ops) xs = Fresh ops (rest_of xs)

pop_from-none : (q : Queue) (o : Option ℕ) → o ≡ none → pop_from o q ≡ (none, q)
unfolding pop_from
pop_from-none q none e = refl
pop_from-none q (some b) e = absurd (cc)

pop_none :
    (q : Queue) → q.head ≡ none → IsQueue q [] → ((list_pop q).0 ≡ none) × IsQueue (list_pop q).1 []
unfolding list_pop
pop_none q e i = let h = pop_from-none q q.head e in (ap (λ r. r.0) h, rw (h) i)

pop_lem :
    (q : Queue) (xs : List ℕ)
    → IsQueue q xs
    → ((list_pop q).0 ≡ head_of xs) × IsQueue (list_pop q).1 (rest_of xs)
pop_lem q [] i = pop_none q i.chain i
pop_lem q (x ∷ xs) i = let (q', e, i', z) = list_pop-IsQueue x q xs i in rw (e) (refl, i')

-- On a queue that stands for the list, calls of `bio_queue_add` and `bio_queue_dequeue` in any order return
-- what they return on the list, and the queue still stands for the list that is left, provided that no
-- bio is added while it is queued.
pub run-IsQueue :
    (ops : List Op) (q : Queue) (xs : List ℕ)
    → IsQueue q xs
    → Fresh ops xs
    → ((run ops q).0 ≡ (spec ops xs).0) × IsQueue (run ops q).1 (spec ops xs).1
unfolding run
run-IsQueue [] q xs i f = (refl, i)
run-IsQueue (Op.add b ∷ ops) q xs i f =
    run-IsQueue ops (list_add b q) (xs ++ (b ∷ [])) (list_add-IsQueue b q xs f.0 i) f.1
run-IsQueue (Op.dequeue ∷ ops) q xs i f =
    let (e, i') = pop_lem q xs i in
    let (r, j) = run-IsQueue ops (list_pop q).1 (rest_of xs) i' f in (rw (e, r) refl, j)
