-- ===== src/Cow/Sample.antt =====
-- A small manager in snapshot mode, on which the theorems are tried: two sections of two blocks each,
-- of which the second is cached and maps block 3 to the data at block 5 of the file.
use moocbt.Common.{
  ℕ, zero, suc, ◌*◌, ◌≤◌, ◌<◌, ◌≡◌, ◌⊎◌, inl, inr, refl, true, false, List, [], ◌∷◌, none, some,
  replicate, length, length-replicate, arith,
}
use moocbt.Kernel.Ram.{Ram, ram-IsKernel}
use moocbt.Cow.State.{opened, Section, Cow, World}
use moocbt.Cow.Inv.{entry, IsValid}
use moocbt.Cow.Snapshot.{IsSnapshot}

abbrev pub empty_section : Section
empty_section = record { has_data = false; usage = 0; mappings = none }

abbrev pub cached_section : Section
cached_section = record { has_data = true; usage = 1; mappings = some (0 ∷ 5 ∷ []) }

abbrev pub manager : Cow
manager = record {
  dfilp = opened;
  flags = 0;
  curr_pos = 6;
  data_offset = 4128;
  file_size = 1000000;
  seqid = 1;
  version = 1;
  nr_changed_blocks = 1;
  uuid = replicate 16 7;
  log_sect_pages = 0;
  sect_size = 2;
  allocated_sects = 1;
  total_sects = 2;
  allowed_sects = 1;
  sects = empty_section ∷ cached_section ∷ [];
}

abbrev pub world : World Ram
world = record { cm = manager; sys = record { store = λ p. p; budget = 3 } }

pub world-IsValid : IsValid ram-IsKernel world
world-IsValid = record {
  size_pos = omega arith;
  count = refl;
  fits = omega arith;
  offset = refl;
  sections = (tt, ((refl, refl, (omega arith, (omega arith, tt))), tt));
  allocated = refl;
  file = tt;
}

pub world-IsSnapshot : IsSnapshot ram-IsKernel world
world-IsSnapshot = record {
  valid = world-IsValid;
  head = omega arith;
  head_fits = omega arith;
  size_fits = omega arith;
  placed = placed;
}
  where
    placed :
        (i j : ℕ)
        → j < 2
        → (entry ram-IsKernel world i j ≡ 0)
          ⊎ ((4128 ≤ entry ram-IsKernel world i j * 4096) × (entry ram-IsKernel world i j < 6))
    placed zero j h = inl refl
    placed (suc zero) zero h = inl refl
    placed (suc zero) (suc zero) h = inr (omega arith, omega arith)
    placed (suc zero) (suc (suc j)) h = absurd (omega arith)
    placed (suc (suc i)) j h = inl refl

abbrev pub block : ℕ → List ℕ
block b = replicate 4096 b

pub length-block : (b : ℕ) → length (block b) ≡ 4096
length-block b = length-replicate 4096 b
