-- ===== src/UpdateImg/Merge.antt =====
-- The merge copies the blocks that are marked, and only those.
use moocbt.Common.{
  ℕ, suc, ◌+◌, ◌*◌, ◌^◌, ◌≤◌, ◌<◌, ◌≡◌, ◌≢◌, ◌⊎◌, inl, inr, refl, ap, sym, subst, ◌∙◌, true, false,
  List, [], ◌∷◌, length, get_or, Bool-cases, ltb, ◌==◌, if◌then◌else◌, arith,
}
use moocbt.Word.{add64}
use moocbt.UpdateImg.{Transfer, whole, short, Files, Progress, copy_block, merge_mappings}

-- What is relied on: a whole read has the data, a whole write stores its block, and a write touches no other
-- block. Nothing is said of the `errno` that a short transfer leaves.
pub record IsFiles {F : Type 0} (K : Files F) : Type 0 where
  pub image : F → ℕ → List ℕ
  pub snapshot : ℕ → List ℕ
  pub index : ℕ → ℕ
  pub read_lem : (b : ℕ) (bs : List ℕ) → K.pread_snap b ≡ whole bs → bs ≡ snapshot b
  pub write_lem :
      (f : F) (b : ℕ) (bs : List ℕ) (u : Unit {0})
      → (K.pwrite_img f b bs).0 ≡ whole u
      → image (K.pwrite_img f b bs).1 b ≡ bs
  pub write_frame :
      (f : F) (b : ℕ) (bs : List ℕ) (p : ℕ) → p ≢ b → image (K.pwrite_img f b bs).1 p ≡ image f p
  pub index_lem :
      (i n : ℕ) (ms : List ℕ)
      → K.pread_index (4096 + 8 * i) n ≡ whole ms
      → (length ms ≡ n) × ((j : ℕ) → j < n → get_or ms j 0 ≡ index (i + j))

module _ {F : Type 0} {K : Files F} (L : IsFiles K) where
  copy_block_other : (b p : ℕ) (f : F) → p ≢ b → L.image (copy_block K b f).1 p ≡ L.image f p
  unfolding copy_block
  copy_block_other b p f ne = go (K.pread_snap b) refl
    where
      go :
          (r : Transfer (List ℕ))
          → K.pread_snap b ≡ r
          → L.image (copy_block K b f).1 p ≡ L.image f p
      go (short e) h = rw (copy_block, h) refl
      go (whole bs) h = rw (copy_block, h) (L.write_frame f b bs p ne)

  -- a transfer of the block was short and left an `errno` of 0, which the code takes for a success
  unfoldable pub Silent : ℕ → Type 0
  Silent b =
      (K.pread_snap b ≡ short 0) ⊎ ((f : F) × ((K.pwrite_img f b (L.snapshot b)).0 ≡ short 0))

  -- likewise for a read of the index, where the loop then ends as if it had gone through
  unfoldable pub SilentIndex : Type 0
  SilentIndex = (i : ℕ) × (n : ℕ) × (K.pread_index (4096 + 8 * i) n ≡ short 0)

  -- the block holds the data of the snapshot, or a short transfer went unnoticed
  unfoldable pub CopiedBlock : F → ℕ → Type 0
  CopiedBlock f b = (L.image f b ≡ L.snapshot b) ⊎ (Silent b ⊎ SilentIndex)

  CopiedBlock-later :
      (f g : F) (b : ℕ) → L.image g b ≡ L.image f b → CopiedBlock f b → CopiedBlock g b
  unfolding CopiedBlock
  CopiedBlock-later f g b e (inl h) = inl (e ∙ h)
  CopiedBlock-later f g b e (inr h) = inr h

  copy_block_done : (b : ℕ) (f : F) → (copy_block K b f).0 ≡ 0 → CopiedBlock (copy_block K b f).1 b
  unfolding copy_block CopiedBlock Silent
  copy_block_done b f = go (K.pread_snap b) refl
    where
      go :
          (r : Transfer (List ℕ))
          → K.pread_snap b ≡ r
          → (copy_block K b f).0 ≡ 0
          → CopiedBlock (copy_block K b f).1 b
      go (short e) h z = inr (inl (inl (h ∙ ap short (after_short e h ∙ z))))
        where
          after_short : (e : ℕ) → K.pread_snap b ≡ short e → e ≡ (copy_block K b f).0
          after_short e h = rw (copy_block, h) refl
      go (whole bs) h z = written (K.pwrite_img f b bs).0 refl
        where
          written :
              (r : Transfer (Unit {0}))
              → (K.pwrite_img f b bs).0 ≡ r
              → CopiedBlock (copy_block K b f).1 b
          written (short e) k =
              inr (inl (inr (f, rw (← L.read_lem b bs h) (k ∙ ap short (status e k ∙ z)))))
            where
              status : (e : ℕ) → (K.pwrite_img f b bs).0 ≡ short e → e ≡ (copy_block K b f).0
              status e k = rw (copy_block, h, k) refl
          written (whole u) k =
              inl (rw (copy_block, h) (L.write_lem f b bs u k ∙ L.read_lem b bs h))

  -- What a stretch of the merge has done: blocks outside it and unmarked blocks are as they were, and
  -- if it has counted no error, marked blocks hold the data of the snapshot or a short transfer went
  -- unnoticed.
  pub record Merged (mark : ℕ → ℕ) (lo hi : ℕ) (p p' : Progress F) : Type 0 where
    pub errors : p.err_count ≤ p'.err_count
    pub errors_bound : p'.err_count + lo ≤ p.err_count + hi
    pub outside : (b : ℕ) → (b < lo) ⊎ (hi ≤ b) → L.image p'.img b ≡ L.image p.img b
    pub unmarked : (b : ℕ) → lo ≤ b → b < hi → mark b ≡ 0 → L.image p'.img b ≡ L.image p.img b
    pub marked :
        (b : ℕ) → lo ≤ b → b < hi → mark b ≢ 0 → p'.err_count ≡ p.err_count → CopiedBlock p'.img b

  pub Merged-trans :
      (mark : ℕ → ℕ) (lo mid hi : ℕ) (p q r : Progress F)
      → lo ≤ mid
      → mid ≤ hi
      → Merged mark lo mid p q
      → Merged mark mid hi q r
      → Merged mark lo hi p r
  Merged-trans mark lo mid hi p q r le le' m n = record {
    errors = omega (arith, m.errors, n.errors);
    errors_bound = omega (arith, m.errors_bound, n.errors_bound);
    outside = λ b o.
        n.outside b (elim o [ inl l ↦ inl (omega arith) | inr h ↦ inr h ])
        ∙ m.outside b (elim o [ inl l ↦ inl l | inr h ↦ inr (omega arith) ]);
    unmarked = λ b l h z. elim (Bool-cases (ltb b mid)) [
      | inl low ↦ n.outside b (inl (ground arith)) ∙ m.unmarked b l (ground arith) z
      | inr high ↦ n.unmarked b (ground arith) h z ∙ m.outside b (inr (ground arith))
    ];
    marked = λ b l h z e. elim (Bool-cases (ltb b mid)) [
      | inl low ↦
          CopiedBlock-later q.img r.img b (n.outside b (inl (ground arith)))
            (m.marked b l (ground arith) z (omega (arith, m.errors, n.errors)))
      | inr high ↦ n.marked b (ground arith) h z (omega (arith, m.errors, n.errors))
    ];
  }

  -- one turn of the loop over the mappings
  abbrev merge_one : ℕ → ℕ → Progress F → Progress F
  merge_one block m p = if m == 0 then p else record {
    count = add64 p.count 1;
    err_count = if (copy_block K block p.img).0 == 0 then p.err_count else add64 p.err_count 1;
    img = (copy_block K block p.img).1;
  }

  merge_one-Merged :
      (mark : ℕ → ℕ) (b m : ℕ) (p : Progress F)
      → mark b ≡ m
      → p.err_count + 1 < 2 ^ 64
      → Merged mark b (b + 1) p (merge_one b m p)
  merge_one-Merged mark b m p e small = elim (Bool-cases (m == 0)) [
    | inl zero_mark ↦ rw zero_mark (record {
      errors = omega arith;
      errors_bound = omega arith;
      outside = λ q o. refl;
      unmarked = λ q l h z. refl;
      marked = λ q l h ne same. absurd (ne (unset q l h zero_mark));
    })
    | inr set' ↦ rw set' (record {
      errors = ground arith;
      errors_bound = ground arith;
      outside = λ q o.
          copy_block_other b q p.img
            (λ eq. elim o [ inl l ↦ absurd (omega arith) | inr h ↦ absurd (omega arith) ]);
      unmarked = λ q l h z. absurd (clash q l h set' z);
      marked = λ q l h ne same.
          let at : q ≡ b = omega arith in rw at (copy_block_done b p.img (ground arith));
    })
  ]
    where
      unset : (q : ℕ) → b ≤ q → q < b + 1 → (m == 0) ≡ true → mark q ≡ 0
      unset q l h z = let at : q ≡ b = omega arith in rw (at, e) (ground arith)

      clash : (q : ℕ) → b ≤ q → q < b + 1 → (m == 0) ≡ false → mark q ≡ 0 → ⊥
      clash q l h ne z =
          let at : q ≡ b = omega arith in
          let z' : m ≡ 0 = sym e ∙ ap mark (sym at) ∙ z in ground arith

  pub merge_mappings-Merged :
      (mark : ℕ → ℕ) (ms : List ℕ) (b : ℕ) (p : Progress F)
      → ((j : ℕ) → j < length ms → get_or ms j 0 ≡ mark (b + j))
      → b + length ms < 2 ^ 63
      → p.err_count ≤ b
      → Merged mark b (b + length ms) p (merge_mappings K b ms p)
  unfolding merge_mappings
  merge_mappings-Merged mark [] b p e small errs = record {
    errors = omega arith;
    errors_bound = omega arith;
    outside = λ q o. refl;
    unmarked = λ q l h z. refl;
    marked = λ q l h. absurd (omega arith);
  }
  merge_mappings-Merged mark (m ∷ ms) b p e small errs =
      let next : add64 b 1 ≡ b + 1 = omega arith in
      let all : b + 1 + length ms ≡ b + length (m ∷ ms) = omega arith in
      let here : mark b ≡ m = ap mark (omega arith) ∙ sym (e 0 (omega arith)) in
      let one = merge_one-Merged mark b m p here (omega arith) in
      rw next (
        subst (λ hi. Merged mark b hi p (merge_mappings K (b + 1) ms (merge_one b m p))) all
          (Merged-trans mark b (b + 1) (b + 1 + length ms) p (merge_one b m p) _ (omega arith)
            (omega arith) one
            (merge_mappings-Merged mark ms (b + 1) (merge_one b m p)
              (λ j h. e (suc j) (omega arith) ∙ ap mark (omega arith)) (omega arith)
              (omega (arith, one.errors_bound)))))
