-- ===== src/Snap/Read/Mode.antt =====
-- What the mode of a read says of the blocks that the bio covers.
use moocbt.Common.{
  ℕ, zero, suc, ◌+◌, ◌-◌, ◌*◌, ◌/◌, ◌%◌, ◌^◌, ◌≤◌, ◌<◌, ◌≡◌, ◌≢◌, ◌⊎◌, inl, inr, refl, ◌∙◌, min,
  Bool, true, false, not, Bool-cases, ◌==◌, ltb, arith, List, [], ◌∷◌, ok, subst,
}
use moocbt.Word.{add64}
use moocbt.Kernel.{Kernel, IsKernel}
use moocbt.Cow.State.{World, M, and_then}
use moocbt.Cow.Inv.{Ends, Ends-and_then, Ends-mono, Keeps, Keeps-trans, mapping}
use moocbt.Cow.Mapping.{read_mapping}
use moocbt.Cow.Mapping.Lookup.{read_mapping-Ends}
use moocbt.Cow.Snapshot.{IsSnapshot}
use moocbt.Snap.Read.{
  ReadMode, unset, cow_file, base_device, mixed, next_mode, is_mixed, unless_mixed, mode_in_vec,
  mode_of_vecs, PageVec,
}
use moocbt.Snap.Read.Overlay.{mapping-Keeps, range-Keeps}

abbrev pub total_len : List PageVec → ℕ
total_len [] = 0
total_len (v ∷ vs) = v.bv_len + total_len vs

module _ {F : Type 0} {K : Kernel F} (L : IsKernel K) where
  -- What a mode says of the positions from `lo` up to `hi`.
  abbrev pub ModeSays : World F → ReadMode → ℕ → ℕ → Type 0
  ModeSays w unset lo hi = hi ≡ lo
  ModeSays w cow_file lo hi = (y : ℕ) → lo ≤ y → y < hi → mapping L w (y / 4096) ≢ 0
  ModeSays w base_device lo hi = (y : ℕ) → lo ≤ y → y < hi → mapping L w (y / 4096) ≡ 0
  ModeSays w mixed lo hi = Unit

  next_mode-ModeSays :
      (w : World F) (mode : ReadMode) (lo cur n m : ℕ)
      → m ≡ mapping L w (cur / 4096)
      → cur % 4096 + n ≤ 4096
      → ModeSays w mode lo cur
      → ModeSays w (next_mode mode (not (m == 0))) lo (cur + n)
  unfolding next_mode
  next_mode-ModeSays w mode lo cur n m e fit says = go mode (m == 0) refl says
    where
      same : (y : ℕ) → cur ≤ y → y < cur + n → y / 4096 ≡ cur / 4096
      same y a b = omega arith

      zero_here : (y : ℕ) → (m == 0) ≡ true → cur ≤ y → y < cur + n → mapping L w (y / 4096) ≡ 0
      zero_here y z a b = let m0 : m ≡ 0 = ground arith in rw (same y a b, ← e) m0

      set_here : (y : ℕ) → (m == 0) ≡ false → cur ≤ y → y < cur + n → mapping L w (y / 4096) ≢ 0
      set_here y z a b = let m0 : m ≢ 0 = ground arith in rw (same y a b, ← e) m0

      go :
          (mode : ReadMode) (t : Bool)
          → (m == 0) ≡ t
          → ModeSays w mode lo cur
          → ModeSays w (next_mode mode (not t)) lo (cur + n)
      go unset true z s = λ y a b. zero_here y z (omega arith) b
      go unset false z s = λ y a b. set_here y z (omega arith) b
      go cow_file true z s = tt
      go cow_file false z s = λ y a b. elim (Bool-cases (ltb y cur)) [
        | inl old ↦ s y a (ground arith)
        | inr new ↦ set_here y z (ground arith) b
      ]
      go base_device true z s = λ y a b. elim (Bool-cases (ltb y cur)) [
        | inl old ↦ s y a (ground arith)
        | inr new ↦ zero_here y z (ground arith) b
      ]
      go base_device false z s = tt
      go mixed t z s = tt

  -- the result of the loop: it has stopped at a mixture, or covers the bytes up to `hi`
  abbrev pub ModeDone : World F → ℕ → ℕ → ReadMode × ℕ → World F → Type 0
  ModeDone w lo hi r w' =
      Keeps L w w'
      × ((is_mixed r.0 ≡ true) ⊎ ((is_mixed r.0 ≡ false) × (r.1 ≡ hi) × ModeSays w r.0 lo hi))

  mode_done :
      (fuel len bytes cur : ℕ) (mode : ReadMode) (w : World F)
      → ltb bytes len ≡ false
      → mode_in_vec K fuel len bytes cur mode w ≡ (ok (mode, cur), w)
  unfolding mode_in_vec
  mode_done zero len bytes cur mode w h = rw (mode_in_vec, h)
  mode_done (suc fuel) len bytes cur mode w h = rw (mode_in_vec, h)

  -- a round of the loop, after the mapping has been read
  abbrev mode_rest : ℕ → ℕ → ℕ → ℕ → ℕ → ReadMode → ℕ → M F (ReadMode × ℕ)
  mode_rest fuel len bytes cur n mode m =
      unless_mixed (next_mode mode (not (m == 0)), cur)
        (mode_in_vec K fuel len (bytes + n) (add64 cur n) (next_mode mode (not (m == 0))))

  mode_more :
      (fuel len bytes cur n : ℕ) (mode : ReadMode) (w : World F)
      → ltb bytes len ≡ true
      → min (4096 - cur % 4096) (len - bytes) ≡ n
      → mode_in_vec K (suc fuel) len bytes cur mode w
        ≡ and_then (read_mapping K (cur / 4096) w) (mode_rest fuel len bytes cur n mode)
  unfolding mode_in_vec
  mode_more fuel len bytes cur n mode w h e = rw (mode_in_vec, h, e)

  abbrev ModeGoal : ℕ → Type 0
  ModeGoal fuel =
      (w w1 : World F) (lo cur len bytes left : ℕ) (mode : ReadMode)
      → IsSnapshot L w
      → Keeps L w w1
      → left ≤ fuel
      → len ≡ bytes + left
      → cur + left ≤ w.cm.sect_size * w.cm.total_sects * 4096
      → cur + left < 2 ^ 64
      → ModeSays w mode lo cur
      → is_mixed mode ≡ false
      → Ends (Keeps L w) (ModeDone w lo (cur + left)) (mode_in_vec K fuel len bytes cur mode w1)

  mode_round :
      (fuel : ℕ) (w w2 : World F) (lo cur len bytes left n m : ℕ) (mode : ReadMode)
      → ModeGoal fuel
      → IsSnapshot L w
      → Keeps L w w2
      → left ≤ suc fuel
      → len ≡ bytes + left
      → cur + left ≤ w.cm.sect_size * w.cm.total_sects * 4096
      → cur + left < 2 ^ 64
      → ModeSays w mode lo cur
      → m ≡ mapping L w (cur / 4096)
      → cur % 4096 + n ≤ 4096
      → 0 < n
      → n ≤ left
      → Ends (Keeps L w) (ModeDone w lo (cur + left)) (mode_rest fuel len bytes cur n mode m w2)
  unfolding unless_mixed
  mode_round fuel w w2 lo cur len bytes left n m mode ih s k enough e room small says em fit pos
        le =
      elim (Bool-cases (is_mixed (next_mode mode (not (m == 0))))) [
        | inl mix ↦ rw (unless_mixed, mix) (k, inl mix)
        | inr go ↦
            rw (unless_mixed, go)
              (let next : add64 cur n ≡ cur + n = omega arith in
                let all : cur + n + (left - n) ≡ cur + left = omega arith in
                rw next (
                  subst
                    (λ hi. Ends (Keeps L w) (ModeDone w lo hi) (
                      mode_in_vec K fuel len (bytes + n) (cur + n) (next_mode mode (not (m == 0)))
                        w2))
                    all
                    (ih w w2 lo (cur + n) len (bytes + n) (left - n) (next_mode mode (not (m == 0)))
                      s k (omega arith) (omega arith) (omega arith) (omega arith)
                      (next_mode-ModeSays w mode lo cur n m em fit says) go)))
      ]

  mode_in_vec-Ends : (fuel : ℕ) → ModeGoal fuel
  mode_in_vec-Ends zero w w1 lo cur len bytes left mode s k enough e room small says single =
      let none_left : left ≡ 0 = omega arith in
      let end : cur ≡ cur + left = omega arith in
      rw (mode_done zero len bytes cur mode w1 (ground arith))
        (k, inr (single, end, subst (ModeSays w mode lo) end says))
  mode_in_vec-Ends (suc fuel) w w1 lo cur len bytes left mode s k enough e room small says single =
      elim (Bool-cases (ltb bytes len)) [
        | inr done ↦
            let end : cur ≡ cur + left = ground arith in
            rw (mode_done (suc fuel) len bytes cur mode w1 done)
              (k, inr (single, end, subst (ModeSays w mode lo) end says))
        | inl more ↦
            let n = min (4096 - cur % 4096) (len - bytes) in
            let sizes : (cur % 4096 + n ≤ 4096) × (0 < n) × (n ≤ left) = ground arith in
            rw (mode_more fuel len bytes cur n mode w1 more refl) (
              Ends-and_then (Keeps L w) (λ out w2. Keeps L w w2 × (out ≡ mapping L w (cur / 4096)))
                (ModeDone w lo (cur + left)) (read_mapping K (cur / 4096) w1)
                (mode_rest fuel len bytes cur n mode)
                (Ends-mono (Keeps L w1) (Keeps L w)
                  (λ out w2. Keeps L w1 w2 × (out ≡ mapping L w1 (cur / 4096)))
                  (λ out w2. Keeps L w w2 × (out ≡ mapping L w (cur / 4096)))
                  (read_mapping K (cur / 4096) w1)
                  (read_mapping-Ends L w1 (cur / 4096) k.valid
                    (rw (range-Keeps L k) (ground arith)))
                  (λ w2 k2. Keeps-trans L k.same k2)
                  (λ out w2 p. (
                    Keeps-trans L k.same p.0,
                    p.1 ∙ mapping-Keeps L w w1 (cur / 4096) s (ground arith) k,
                  )))
                (λ m w2 p.
                  mode_round fuel w w2 lo cur len bytes left n m mode (mode_in_vec-Ends fuel) s p.0
                    enough e room small says p.1 sizes.0 sizes.1 sizes.2))
      ]

  pub mode_of_vecs-Ends :
      (vs : List PageVec) (w w1 : World F) (lo cur : ℕ) (mode : ReadMode)
      → IsSnapshot L w
      → Keeps L w w1
      → cur + total_len vs ≤ w.cm.sect_size * w.cm.total_sects * 4096
      → cur + total_len vs < 2 ^ 64
      → ModeSays w mode lo cur
      → is_mixed mode ≡ false
      → Ends
          (Keeps L w)
          (λ r w'. Keeps L w w' × ModeSays w r lo (cur + total_len vs))
          (mode_of_vecs K vs cur mode w1)
  unfolding mode_of_vecs
  mode_of_vecs-Ends [] w w1 lo cur mode s k room small says single =
      (k, let end : cur ≡ cur + 0 = omega arith in subst (ModeSays w mode lo) end says)
  mode_of_vecs-Ends (v ∷ vs) w w1 lo cur mode s k room small says single =
      Ends-and_then (Keeps L w) (ModeDone w lo (cur + v.bv_len))
        (λ r w'. Keeps L w w' × ModeSays w r lo (cur + total_len (v ∷ vs)))
        (mode_in_vec K v.bv_len v.bv_len 0 cur mode w1) _
        (mode_in_vec-Ends v.bv_len w w1 lo cur v.bv_len 0 v.bv_len mode s k (omega arith)
          (omega arith) (omega arith) (omega arith) says single)
        (λ r w2 p. elim p.1 [
          | inl mix ↦ rw mix (p.0, mixed_says r.0 _ mix)
          | inr (single', end, says') ↦
              let all : cur + v.bv_len + total_len vs ≡ cur + total_len (v ∷ vs) = omega arith in
              rw (single', end)
                (subst
                  (λ hi.
                    Ends (Keeps L w) (λ r' w'. Keeps L w w' × ModeSays w r' lo hi)
                      (mode_of_vecs K vs (cur + v.bv_len) r.0 w2))
                  all
                  (mode_of_vecs-Ends vs w w2 lo (cur + v.bv_len) r.0 s p.0 (omega arith)
                    (omega arith) says' single'))
        ])
    where
      mixed_says : (m : ReadMode) (hi : ℕ) → is_mixed m ≡ true → ModeSays w m lo hi
      mixed_says mixed hi e = tt
      mixed_says unset hi e = absurd (cc)
      mixed_says cow_file hi e = absurd (cc)
      mixed_says base_device hi e = absurd (cc)
