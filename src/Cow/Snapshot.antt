-- ===== src/Cow/Snapshot.antt =====
-- What the file of a snapshot holds for each block: the data that was saved for it, if any. This
-- view forgets where in the file the data lies.
pub mod Append
pub mod First
pub mod Refine
pub mod Sequence
pub mod ReadBack
use moocbt.Common.{
  ℕ, ◌*◌, ◌≤◌, ◌<◌, ◌≡◌, ◌^◌, ◌⊎◌, List, Option, none, some, ◌==◌, if◌then◌else◌, [], ◌∷◌, length,
}
use moocbt.Bytes.Store.{Content, bytes_at}
use moocbt.Kernel.{Kernel, IsKernel}
use moocbt.Cow.State.{World, M, pure, ◌>>=◌, ◌>>◌}
use moocbt.Cow.Inv.{IsValid, entry, mapping}
use moocbt.Cow.Mapping.{write_current}

abbrev pub saved_at : Content → ℕ → Option (List ℕ)
saved_at c m = if m == 0 then none else some (bytes_at c (m * 4096) 4096)

-- the specification of `cow_write_current`: the first data wins
abbrev pub first : Option (List ℕ) → List ℕ → Option (List ℕ)
first none buf = some buf
first (some d) buf = some d

-- a sequence of writes: the block and the data of each
abbrev pub Saves : Type 0
Saves = List (ℕ × List ℕ)

unfoldable pub spec_writes : Saves → (ℕ → Option (List ℕ)) → ℕ → Option (List ℕ)
spec_writes [] v = v
spec_writes ((b, buf) ∷ ws) v = spec_writes ws (λ p. if p == b then first (v b) buf else v p)

module _ {F : Type 0} (K : Kernel F) where
  unfoldable pub run_writes : Saves → M F (Unit {0})
  run_writes [] = pure tt
  run_writes ((b, buf) ∷ ws) = do write_current K b buf; run_writes ws

module _ {F : Type 0} {K : Kernel F} (L : IsKernel K) where
  abbrev pub saved : World F → ℕ → Option (List ℕ)
  saved w pos = saved_at (L.content w.sys) (mapping L w pos)

  -- the blocks of the device
  abbrev pub InRange : World F → ℕ → Type 0
  InRange w pos = pos < w.cm.sect_size * w.cm.total_sects

  -- A file in snapshot mode: the write head is in the data area and every mapping below it.
  pub record IsSnapshot (w : World F) : Type 0 where
    pub valid : IsValid L w
    pub head : w.cm.data_offset ≤ w.cm.curr_pos * 4096
    pub head_fits : w.cm.curr_pos ≤ 2 ^ 50
    pub size_fits : w.cm.file_size ≤ 2 ^ 62
    pub placed :
        (i j : ℕ)
        → j < w.cm.sect_size
        → (entry L w i j ≡ 0)
          ⊎ ((w.cm.data_offset ≤ entry L w i j * 4096) × (entry L w i j < w.cm.curr_pos))
