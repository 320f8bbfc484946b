-- ===== src/Snap/Read/View.antt =====
-- What a read of the snapshot device returns: the saved bytes, and the live ones where none were saved.
use moocbt.Common.{
  ℕ, ◌+◌, ◌*◌, ◌%◌, ◌^◌, ◌≤◌, ◌<◌, ◌≡◌, ◌⊎◌, inl, inr, refl, ap, ◌∙◌, sym, arith, List, [], ◌∷◌,
  All, subst,
}
use moocbt.Kernel.{Kernel, IsKernel}
use moocbt.Cow.State.{World}
use moocbt.Cow.Inv.{Ends, Ends-and_then, Keeps}
use moocbt.Cow.Snapshot.{IsSnapshot}
use moocbt.Snap.Read.{PageVec, vec_end, overlay_vecs, overlay_page}
use moocbt.Snap.Read.Overlay.{snap_byte}
use moocbt.Snap.Read.Pages.{overlay_page-Ends, PageDone}
use moocbt.Snap.Read.Mode.{total_len}

-- Each segment has whole sectors, and ends where 32 bits can say.
abbrev pub WholeSectors : List PageVec → Type 0
WholeSectors = All (λ v. (v.bv_len % 512 ≡ 0) × (v.bv_offset + v.bv_len < 2 ^ 32))

-- Two bios have the same segments, and the second's pages hold these bytes, by the position in the
-- device and the byte that the first's page has there. Bytes outside the segments are the same.
abbrev pub Holds : (ℕ → ℕ → ℕ) → ℕ → List PageVec → List PageVec → Type 0
Holds byte x [] [] = Unit
Holds byte x [] (v' ∷ vs') = ⊥
Holds byte x (v ∷ vs) [] = ⊥
Holds byte x (v ∷ vs) (v' ∷ vs') =
    ((v'.bv_offset ≡ v.bv_offset)
      × (v'.bv_len ≡ v.bv_len)
      × ((k : ℕ)
          → k < v.bv_len
          → v'.page (v.bv_offset + k) ≡ byte (x + k) (v.page (v.bv_offset + k)))
      × ((q : ℕ) → (q < v.bv_offset) ⊎ (v.bv_offset + v.bv_len ≤ q) → v'.page q ≡ v.page q))
    × Holds byte (x + v.bv_len) vs vs'

pub Holds-mono :
    (f g : ℕ → ℕ → ℕ) (x : ℕ) (vs vs' : List PageVec)
    → ((y l : ℕ) → x ≤ y → y < x + total_len vs → f y l ≡ g y l)
    → Holds f x vs vs'
    → Holds g x vs vs'
Holds-mono f g x [] [] e h = tt
Holds-mono f g x [] (v' ∷ vs') e h = h
Holds-mono f g x (v ∷ vs) [] e h = h
Holds-mono f g x (v ∷ vs) (v' ∷ vs') e ((o, l, inside, outside), rest) = (
  (
    o,
    l,
    (λ k b. inside k b ∙ e (x + k) (v.page (v.bv_offset + k)) (omega arith) (omega arith)),
    outside,
  ),
  Holds-mono f g (x + v.bv_len) vs vs' (λ y l a b. e y l (omega arith) (omega arith)) rest,
)

pub Holds-refl : (x : ℕ) (vs : List PageVec) → Holds (λ y l. l) x vs vs
Holds-refl x [] = tt
Holds-refl x (v ∷ vs) = ((refl, refl, (λ k b. refl), λ q b. refl), Holds-refl (x + v.bv_len) vs)

pub Holds-trans :
    (f g : ℕ → ℕ → ℕ) (x : ℕ) (a b c : List PageVec)
    → Holds f x a b
    → Holds g x b c
    → Holds (λ y l. g y (f y l)) x a c
Holds-trans f g x [] [] [] h k = tt
Holds-trans f g x [] [] (v ∷ c) h k = k
Holds-trans f g x [] (v ∷ b) c h k = absurd h
Holds-trans f g x (u ∷ a) [] c h k = absurd h
Holds-trans f g x (u ∷ a) (v ∷ b) [] h k = k
Holds-trans f g x (u ∷ a) (v ∷ b) (t ∷ c) ((o, l, i, out), h) ((o', l', i', out'), k) = (
  (
    o' ∙ o,
    l' ∙ l,
    (λ j lt.
        ap (λ z. t.page (z + j)) (sym o)
        ∙ i' j (omega arith)
        ∙ ap (λ z. g (x + j) (v.page (z + j))) o
        ∙ ap (g (x + j)) (i j lt)),
    (λ q s. out' q (elim s [ inl s ↦ inl (omega arith) | inr s ↦ inr (omega arith) ]) ∙ out q s),
  ),
  Holds-trans f g (x + u.bv_len) a b c h (subst (λ z. Holds g (x + z) b c) l k),
)

pub Holds-total_len :
    (f : ℕ → ℕ → ℕ) (x : ℕ) (a b : List PageVec) → Holds f x a b → total_len b ≡ total_len a
Holds-total_len f x [] [] h = refl
Holds-total_len f x [] (v ∷ b) h = absurd h
Holds-total_len f x (u ∷ a) [] h = absurd h
Holds-total_len f x (u ∷ a) (v ∷ b) ((o, l, i, out), h) =
    omega (arith, l, Holds-total_len f (x + u.bv_len) a b h)

pub Holds-WholeSectors :
    (f : ℕ → ℕ → ℕ) (x : ℕ) (a b : List PageVec) → Holds f x a b → WholeSectors a → WholeSectors b
Holds-WholeSectors f x [] [] h p = tt
Holds-WholeSectors f x [] (v ∷ b) h p = absurd h
Holds-WholeSectors f x (u ∷ a) [] h p = absurd h
Holds-WholeSectors f x (u ∷ a) (v ∷ b) ((o, l, i, out), h) ((e, s), p) =
    ((omega arith, omega arith), Holds-WholeSectors f (x + u.bv_len) a b h p)

module _ {F : Type 0} {K : Kernel F} (L : IsKernel K) where
  pub overlay_vecs-Ends :
      (vs : List PageVec) (w w1 : World F) (sect : ℕ)
      → IsSnapshot L w
      → Keeps L w w1
      → WholeSectors vs
      → sect * 512 + total_len vs ≤ w.cm.sect_size * w.cm.total_sects * 4096
      → sect * 512 + total_len vs < 2 ^ 64
      → Ends
          (Keeps L w)
          (λ vs' w'. Keeps L w w' × Holds (snap_byte L w) (sect * 512) vs vs')
          (overlay_vecs K vs sect w1)
  unfolding overlay_vecs
  overlay_vecs-Ends [] w w1 sect s k whole room small = (k, tt)
  overlay_vecs-Ends (v ∷ vs) w w1 sect s k ((even, short), whole) room small =
      Ends-and_then (Keeps L w) (PageDone L w sect v.bv_offset v.bv_len v.page)
        (λ vs' w'. Keeps L w w' × Holds (snap_byte L w) (sect * 512) (v ∷ vs) vs')
        (overlay_page K v.bv_len (vec_end v) sect v.bv_offset v.page w1) _
        (overlay_page-Ends L v.bv_len w w1 sect v.bv_offset v.bv_len (vec_end v) v.page s k
          (omega arith) (omega arith) even (omega arith) (omega arith))
        (λ r w2 p.
          let place : r.1 * 512 ≡ sect * 512 + v.bv_len = omega (arith, p.2) in
          Ends-and_then (Keeps L w)
            (λ vs' w'. Keeps L w w' × Holds (snap_byte L w) (r.1 * 512) vs vs')
            (λ vs' w'. Keeps L w w' × Holds (snap_byte L w) (sect * 512) (v ∷ vs) vs')
            (overlay_vecs K vs r.1 w2) _
            (overlay_vecs-Ends vs w w2 r.1 s p.0 whole (omega arith) (omega arith))
            (λ vs' w' q. (
              q.0,
              (
                (refl, refl, p.1.inside, p.1.outside),
                subst (λ x. Holds (snap_byte L w) x vs vs') place q.1,
              ),
            )))
