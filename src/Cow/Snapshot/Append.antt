-- ===== src/Cow/Snapshot/Append.antt =====
-- `__cow_write_data` appends a block to the data area, and touches nothing else.
use moocbt.Common.{
  ℕ, ◌*◌, ◌+◌, ◌^◌, ◌≤◌, ◌<◌, ◌≡◌, ◌⊎◌, inl, inr, refl, ap, ◌∙◌, Bool, true, false, List, Option,
  none, some, ok, err, efbig, length, get_elem?, arith, Bool-cases, Option-cases, leb,
  lt_of_get_elem?,
}
use moocbt.Word.{add64, mul64}
use moocbt.Bytes.Codec.{le_val}
use moocbt.Bytes.Store.{write_at, bytes_at_congr}
use moocbt.Kernel.{Kernel, IsKernel}
use moocbt.Cow.State.{World}
use moocbt.Cow.Io.Cases.{file_write_cases}
use moocbt.Cow.Mapping.{write_data, cow_block_size}
use moocbt.Cow.Inv.{value_in, value_at, entry, index_offset, IsValid}
use moocbt.Cow.Inv.Moves.{sect_offset_lem}

module _ {F : Type 0} {K : Kernel F} (L : IsKernel K) where
  -- The mappings depend on no byte of the data area.
  pub entry_congr :
      (w : World F) (f : F)
      → IsValid L w
      → ((p : ℕ) → 4096 ≤ p → p < w.cm.data_offset → L.content f p ≡ L.content w.sys p)
      → (i j : ℕ) → j < w.cm.sect_size
      → value_at (L.content f) w.cm.sect_size i j (get_elem? w.cm.sects i) ≡ entry L w i j
  entry_congr w f v same i j h = elim (Option-cases (get_elem? w.cm.sects i)) [
    | inl out ↦ rw out
    | inr (s, at) ↦ rw at (inside s.has_data s.mappings (lt_of_get_elem? w.cm.sects i at))
  ]
    where
      inside :
          (b : Bool) (m : Option (List ℕ))
          → i < length w.cm.sects
          → value_in (L.content f) w.cm.sect_size i j b m
            ≡ value_in (L.content w.sys) w.cm.sect_size i j b m
      inside b (some ms) lt = refl
      inside false none lt = refl
      inside true none lt =
          let (_, _, below) = sect_offset_lem L w i v lt in
          ap le_val (
            bytes_at_congr (L.content f) (L.content w.sys) (index_offset w.cm.sect_size i j) 8
              (λ p a b. same p (omega arith) (omega arith)))

  -- the state after a block was appended
  abbrev pub appended : World F → F → World F
  appended w f = record w { cm = record (w.cm) { curr_pos = add64 w.cm.curr_pos 1 }; sys = f }

  -- `__cow_write_data`: the file is full, or the write fails within the block's range, or the block
  -- is stored there and the head moves on.
  pub write_data_cases :
      (w : World F) (buf : List ℕ)
      → IsValid L w
      → w.cm.curr_pos ≤ 2 ^ 50
      → length buf ≡ 4096
      → (f : F) × ((p : ℕ)
          → (p < w.cm.curr_pos * 4096) ⊎ (w.cm.curr_pos * 4096 + 4096 ≤ p)
          → L.content f p ≡ L.content w.sys p)
        × (((write_data K buf w ≡ (ok tt, appended w f))
              × (L.content f ≡ write_at (L.content w.sys) (w.cm.curr_pos * 4096) buf)
              × (w.cm.curr_pos * 4096 < w.cm.file_size))
            ⊎ ((e : ℕ) × (write_data K buf w ≡ (err e, record w { sys = f }))))
  unfolding write_data
  write_data_cases w buf v small len =
      let head : mul64 w.cm.curr_pos cow_block_size ≡ w.cm.curr_pos * 4096 = omega arith in
      elim (Bool-cases (leb w.cm.file_size (mul64 w.cm.curr_pos cow_block_size))) [
        | inl full ↦ (w.sys, λ p h. refl, inr (efbig, rw full))
        | inr room ↦
            let (f, frame, r) =
              file_write_cases L (mul64 w.cm.curr_pos cow_block_size) buf w v.file in
            (
              f,
              λ p h. frame p (elim h [ inl a ↦ inl (omega arith) | inr a ↦ inr (omega arith) ]),
              elim r [
                | inl (done, stored) ↦ inl (
                  rw (room, done),
                  stored ∙ ap (λ a. write_at (L.content w.sys) a buf) head,
                  ground arith,
                )
                | inr (e, fails) ↦ inr (e, rw (room, fails))
              ],
            )
      ]
